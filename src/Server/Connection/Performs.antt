-- ===== src/Server/Connection/Performs.antt =====
-- Each action of the loop against the store.
use mefsc.Common.{
  ℕ, ◌+◌, ◌≤◌, ◌≡◌, refl, sym, ap, ◌∙◌, subst, some, inl, inr, Option-cases, List, [], ◌∷◌, ◌++◌,
  arith, length, length-append, append-nil, append_assoc, All,
}
use mefsc.Constants.{stream_chunk_size, ack_suc, ack_fail, max_file_name_length}
use mefsc.Platform.{Platform, W, removed, not_found}
use mefsc.Platform.Laws.{View, Reliable, Sound}
use mefsc.Outcome.{Outcome, bind-next}
use mefsc.CText.{ext}
use mefsc.Wire.Talk.{Spoken, Talked-rest, Talked-Spoken}
use mefsc.Store.{
  Entry, contents_of, Files, IsUpdate, IsSame, Request, upload, download, listing, delete, Reply,
  nothing, file, names, status, Does, IsFair, IsSealed,
}
use mefsc.Store.Folder.{Folder, files}
use mefsc.Store.Wire.{Asks, Carries, after_intent, intent_of}
use mefsc.Server.{Operator, Stale}
use mefsc.Server.Upload.Announce.{Sized, wtfs_handler-Stored}
use mefsc.Server.Download.Serves.{rffs_handler-Served, rffs_handler-missing}
use mefsc.Server.Listing.Sends.{lffs_handler-Tells}
use mefsc.Server.Listing.Deletes.{Deleted, dffs_handler-Deleted}
use mefsc.Transfer.{Announcement, Chunks}
use mefsc.Session.Frames.{Framed}
use mefsc.Transfer.Messages.{HasFrame, with_nul}
use mefsc.Server.Connection.{perform, ignoring}

module _ ⦃p : Platform⦄ {Paired : p.sodium.Stream → p.sodium.Stream → Type 0}
    (sound : Sound p.sodium Paired) (view : View p.net.Sock) (good : Reliable p.net view)
    (fuel rounds : ℕ) (stale : Stale) (sized : Sized stale) (op : Operator)
    (folder : Folder p.storage op.user_dir) where
  open view use {pending, noise}
  open folder use {Holds}

  abbrev stored : W → Files
  stored w = files p.storage op.user_dir w.disk

  -- What an action did: a request of the store, with its reply on the wire.
  pub record Performed (q : Request) (w : W) (rest : List ℕ) : Type 0 where
    pub after : W
    pub reply : Reply
    pub sent : List ℕ
    pub result : perform fuel rounds stale op (intent_of q) w ≡ Outcome.next tt after
    pub does : Does rounds (stored w) q reply (stored after)
    pub carries : Carries op.server_tx reply sent
    pub spoken : Spoken view w sent rest after
    pub holds : Holds after.disk

  disk-IsSame : (w w' : W) → w'.disk ≡ w.disk → IsSame (stored w) (stored w')
  disk-IsSame w w' e = record {
    same = λ name plain. ap (λ d. files p.storage op.user_dir d name) e;
  }

  uploads-Performed :
      {name a c : List ℕ} {e : Entry} (rest : List ℕ) (w : W)
      → Holds w.disk
      → IsFair rounds (upload name e)
      → Announcement op.server_rx name e.header e.salt a
      → Chunks op.server_rx e.chunks c
      → pending w.sock ≡ a ++ (c ++ rest)
      → stream_chunk_size + 16 + noise w.sock ≤ fuel
      → Performed (upload name e) w rest
  unfolding perform ignoring
  uploads-Performed {name} {a} {c} {e} rest w h (l, nul, plain, is) g t q b =
      let s =
        wtfs_handler-Stored view good fuel stale op rounds rest w sized g l nul is.header_length
          is.salt_length t is.few q b in
      let (there, change) =
        folder.writes (name ++ ext) (contents_of e) w.disk h plain
          (omega (arith, length-append name ext)) in
      record {
        after = s.after;
        reply = nothing;
        sent = [];
        result = bind-next _ s.result refl;
        does = Does.uploads (
            subst
              (λ d.
                IsUpdate (stored w) (name ++ ext) (some (contents_of e))
                  (files p.storage op.user_dir d))
              (sym s.disk) change);
        carries = Carries.carries_nothing;
        spoken = record {
          remaining = s.remaining;
          quieter = s.quieter;
          added = s.same_written ∙ sym (append-nil (view.written w.sock));
        };
        holds = subst Holds (sym s.disk) there;
      }

  downloads-Performed :
      {name f : List ℕ} (rest : List ℕ) (w : W)
      → Holds w.disk
      → IsSealed rounds (stored w)
      → IsFair rounds (download name)
      → Framed op.server_rx (with_nul name) f
      → pending w.sock ≡ f ++ rest
      → stream_chunk_size + 16 + noise w.sock ≤ fuel
      → Performed (download name) w rest
  unfolding perform ignoring
  downloads-Performed {name} rest w h seal (l, plain) g q b = elim (Option-cases (stored w name)) [
    | inl gone ↦
        let (w1, e1, v1) =
          rffs_handler-missing sound view good fuel stale op sized rounds name w g l plain.no_nul
            gone q b in
        record {
          after = w1;
          reply = nothing;
          sent = [];
          result = bind-next _ e1 refl;
          does = Does.sends_nothing gone (disk-IsSame w w1 v1.same_disk);
          carries = Carries.carries_nothing;
          spoken = Talked-Spoken view v1;
          holds = subst Holds (sym v1.same_disk) h;
        }
    | inr (contents, found) ↦
        let (e, is, shape) = seal name contents plain found in
        let there : stored w name ≡ some (contents_of e) = found ∙ ap some shape in
        let s =
          rffs_handler-Served sound view good fuel stale op sized rounds name e.header e.salt w g l
            plain.no_nul there is.header_length is.salt_length is.cut is.few q b in
        let (w1, e1, v1) = s.talks in
        record {
          after = w1;
          reply = file e;
          sent = s.sent.header_frame ++ (s.sent.salt_frame ++ s.sent.chunks);
          result = bind-next _ e1 refl;
          does = Does.sends there is (disk-IsSame w w1 v1.same_disk);
          carries =
              Carries.carries_file s.sent.header_framed s.sent.salt_framed s.sent.carries refl;
          spoken = Talked-Spoken view v1;
          holds = subst Holds (sym v1.same_disk) h;
        }
  ]

  short-HasFrame :
      (ns : List (List ℕ)) → All (λ n. length n ≤ max_file_name_length) ns → All HasFrame ns
  short-HasFrame [] h = tt
  short-HasFrame (n ∷ ns) h = (omega (arith, h.0), short-HasFrame ns h.1)

  lists-Performed :
      (rest : List ℕ) (w : W) → Holds w.disk → pending w.sock ≡ rest → Performed listing w rest
  unfolding perform ignoring
  lists-Performed rest w h q =
      let (ns, there, short, right) = folder.lists w.disk h in
      let (bytes, ms, (w1, e1, v1)) =
        lffs_handler-Tells sound view good fuel stale op ns w there (short-HasFrame ns short) in
      record {
        after = w1;
        reply = names ns;
        sent = bytes;
        result = bind-next _ e1 refl;
        does = Does.lists right (disk-IsSame w w1 v1.same_disk);
        carries = Carries.carries_names ms;
        spoken = Talked-Spoken view (Talked-rest view v1 q);
        holds = subst Holds (sym v1.same_disk) h;
      }

  -- A deletion, by what the store does and what the file system answers.
  Deleted-Performed :
      {name : List ℕ} {rest : List ℕ} {w : W} (n : ℕ) {disk : p.storage.Disk}
      → Holds disk
      → Deleted sound view good fuel stale op n disk w rest
      → Does rounds (stored w) (delete name) (status n) (files p.storage op.user_dir disk)
      → Performed (delete name) w rest
  unfolding perform ignoring
  Deleted-Performed {name} {w = w} n h s does = record {
    after = s.after;
    reply = status n;
    sent = s.answer;
    result = bind-next _ s.result refl;
    does =
        subst (λ d. Does rounds (stored w) (delete name) (status n) (files p.storage op.user_dir d))
          (sym s.left) does;
    carries = Carries.carries_status s.framed;
    spoken = record { remaining = s.remaining; quieter = s.quieter; added = s.added };
    holds = subst Holds (sym s.left) h;
  }

  deletes-Performed :
      {name f : List ℕ} (rest : List ℕ) (w : W)
      → Holds w.disk
      → IsFair rounds (delete name)
      → Framed op.server_rx (with_nul name) f
      → pending w.sock ≡ f ++ rest
      → stream_chunk_size + 16 + noise w.sock ≤ fuel
      → Performed (delete name) w rest
  deletes-Performed {name} rest w h (l, plain) g q b = elim (Option-cases (stored w name)) [
    | inl gone ↦
        let (d, r, there, same) = folder.misses name w.disk h plain gone in
        Deleted-Performed ack_fail there
          (dffs_handler-Deleted sound view good fuel stale op not_found d name g rest w l
            plain.no_nul r (λ k. absurd (cc)) q b)
          (Does.deletes_nothing gone same)
    | inr (contents, found) ↦
        let (d, r, there, change) = folder.removes name contents w.disk h plain found in
        Deleted-Performed ack_suc there
          (dffs_handler-Deleted sound view good fuel stale op removed d name g rest w l plain.no_nul
            r (λ k. absurd (cc)) q b)
          (Does.deletes found change)
  ]

  -- Over a reliable connection, for a fair request of a client in good order, on a folder of sealed files:
  -- the branch of its intent does what the store may do, and its reply is what is sent.
  pub perform-Performed :
      (q : Request) {bytes : List ℕ} (rest : List ℕ) (w : W)
      → Holds w.disk
      → IsSealed rounds (stored w)
      → IsFair rounds q
      → (a : Asks op.server_rx q bytes) → pending w.sock ≡ after_intent op.server_rx a ++ rest
      → stream_chunk_size + 16 + noise w.sock ≤ fuel
      → Performed q w rest
  perform-Performed (upload name e) rest w h s fair (Asks.asks_upload {a = a} {c} f g t k) r b =
      uploads-Performed rest w h fair g t (r ∙ append_assoc a c rest) b
  perform-Performed (download name) rest w h s fair (Asks.asks_download f g k) r b =
      downloads-Performed rest w h s fair g r b
  perform-Performed listing rest w h s fair (Asks.asks_listing f) r b = lists-Performed rest w h r
  perform-Performed (delete name) rest w h s fair (Asks.asks_delete f g k) r b =
      deletes-Performed rest w h fair g r b
