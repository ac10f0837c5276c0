-- ===== src/Server/Connection/Refines.antt =====
-- A whole session against the store.
use mefsc.Common.{
  ℕ, zero, suc, subst, ◌+◌, ◌≤◌, ◌<◌, ◌≡◌, refl, sym, ap, ◌∙◌, List, [], ◌∷◌, ◌++◌, arith, length,
  append_assoc, All,
}
use mefsc.Constants.{stream_chunk_size}
use mefsc.Platform.{Platform, W}
use mefsc.Platform.Laws.{View, Reliable, Sound}
use mefsc.Outcome.{Outcome, bind-next, ◌>>◌}
use mefsc.Wire.Receive.{Received}
use mefsc.Wire.Talk.{Spoken, Spoken-trans, Received-Spoken}
use mefsc.Store.{Files, Request, Reply, Does, DoesAll, IsFair, IsSealed}
use mefsc.Store.Sealed.{Does-IsSealed}
use mefsc.Store.Folder.{Folder, files}
use mefsc.Store.Wire.{
  AsksAll, CarriesAll, after_intent, intent_frame, intent_of, intent_of-lt, Asks-shape,
  intent_framed,
}
use mefsc.Server.{Operator, Stale}
use mefsc.Server.Upload.Announce.{Sized}
use mefsc.Server.Connection.{serve, perform}
use mefsc.Server.Connection.Serving.{serve-turn, serve-goodbye}
use mefsc.Server.Connection.Performs.{Performed, perform-Performed}

module _ ⦃p : Platform⦄ {Paired : p.sodium.Stream → p.sodium.Stream → Type 0}
    (sound : Sound p.sodium Paired) (view : View p.net.Sock) (good : Reliable p.net view)
    (fuel rounds : ℕ) (stale : Stale) (sized : Sized stale) (op : Operator)
    (folder : Folder p.storage op.user_dir) where
  open view use {pending, noise}
  open folder use {Holds}

  abbrev pub kept : W → Files
  kept w = files p.storage op.user_dir w.disk

  disk-IsSealed :
      (w w' : W) → w'.disk ≡ w.disk → IsSealed rounds (kept w) → IsSealed rounds (kept w')
  disk-IsSealed w w' e s = subst (λ d. IsSealed rounds (files p.storage op.user_dir d)) (sym e) s

  -- Notice, intent and what follows it, in front of the other requests.
  split :
      (f i a tail rest : List ℕ) {g bytes : List ℕ} (w : W)
      → pending w.sock ≡ bytes ++ rest
      → bytes ≡ f ++ (g ++ tail)
      → g ≡ i ++ a
      → pending w.sock ≡ f ++ (i ++ (a ++ (tail ++ rest)))
  split f i a tail rest w e shape k =
      e
      ∙ ap (λ t. t ++ rest) (shape ∙ ap (λ t. f ++ (t ++ tail)) k)
      ∙ append_assoc f ((i ++ a) ++ tail) rest
      ∙ ap (◌++◌ f) (append_assoc (i ++ a) tail rest ∙ append_assoc i a (tail ++ rest))

  -- What a session did: requests of the store one after another, with their replies on the wire.
  pub record Refines (actions : ℕ) (qs : List Request) (w : W) (rest : List ℕ) : Type 0 where
    pub after : W
    pub replies : List Reply
    pub sent : List ℕ
    pub result : serve fuel rounds stale actions op w ≡ Outcome.next tt after
    pub does : DoesAll rounds (kept w) qs replies (kept after)
    pub carries : CarriesAll op.server_tx replies sent
    pub spoken : Spoken view w sent rest after
    pub holds : Holds after.disk
    pub sealed : IsSealed rounds (kept after)

  -- The first action, and the others after it.
  Refines-then :
      (actions : ℕ) (q : Request) (more : List Request) {rest rest' mid : List ℕ} (w w1 : W)
      → serve fuel rounds stale (suc actions) op w
        ≡ (perform fuel rounds stale op (intent_of q) >> serve fuel rounds stale actions op) w1
      → Received view w rest' w1
      → (v : Performed sound view good fuel rounds stale sized op folder q w1 mid)
      → Refines actions more v.after rest
      → Refines (suc actions) (q ∷ more) w rest
  Refines-then actions q more w w1 e1 v1 v r = record {
    after = r.after;
    replies = v.reply ∷ r.replies;
    sent = v.sent ++ r.sent;
    result = e1 ∙ bind-next _ v.result r.result;
    does =
        DoesAll.then
          (subst (λ d. Does rounds (files p.storage op.user_dir d) q v.reply (kept v.after))
            v1.same_disk v.does)
          r.does;
    carries = CarriesAll.then v.carries r.carries refl;
    spoken = Spoken-trans view (Spoken-trans view (Received-Spoken view v1) v.spoken) r.spoken;
    holds = r.holds;
    sealed = r.sealed;
  }

  -- The loop refines the store. Over a reliable connection, for a client in good order that sends fair
  -- requests and then any other notice, on a folder of sealed files, with actions for the requests: the
  -- loop returns, the requests have done one after another what the store may do, the replies of the
  -- store are what was sent, in order, and the folder is again one of sealed files.
  pub serve-Refines :
      (actions : ℕ) (qs : List Request) {bytes : List ℕ} (rest : List ℕ) (w : W)
      → AsksAll op.server_rx qs bytes
      → All (IsFair rounds) qs
      → Holds w.disk
      → IsSealed rounds (kept w)
      → length qs < actions
      → pending w.sock ≡ bytes ++ rest
      → stream_chunk_size + 16 + noise w.sock ≤ fuel
      → Refines actions qs w rest
  serve-Refines zero qs rest w a fair h s l e b = absurd (omega arith)
  serve-Refines (suc actions) qs rest w (AsksAll.goodbye {notice} k n g) fair h s l e b =
      let (w1, e1, v1) =
        serve-goodbye view good fuel rounds stale op actions notice g rest w k n e b in
      record {
        after = w1;
        replies = [];
        sent = [];
        result = e1;
        does = DoesAll.done (record {
          same = λ name plain. ap (λ d. files p.storage op.user_dir d name) v1.same_disk;
        });
        carries = CarriesAll.done;
        spoken = Received-Spoken view v1;
        holds = subst Holds (sym v1.same_disk) h;
        sealed = disk-IsSealed w w1 v1.same_disk s;
      }
  serve-Refines (suc actions) qs rest w
        (AsksAll.then {f} {h = tail} {q} {qs = more} g a others shape) fair h s l e b =
      let (w1, e1, v1) =
        serve-turn view good fuel rounds stale op actions (intent_of q) g
          (intent_framed op.server_rx a) (after_intent op.server_rx a ++ (tail ++ rest)) w
          (intent_of-lt q)
          (split f (intent_frame op.server_rx a) (after_intent op.server_rx a) tail rest w e shape
            (Asks-shape op.server_rx a))
          b in
      let seal : IsSealed rounds (kept w1) = disk-IsSealed w w1 v1.same_disk s in
      let v =
        perform-Performed sound view good fuel rounds stale sized op folder q (tail ++ rest) w1
          (subst Holds (sym v1.same_disk) h) seal fair.0 a v1.remaining
          (omega (arith, v1.quieter)) in
      let r =
        serve-Refines actions more rest v.after others fair.1 v.holds
          (Does-IsSealed rounds v.does fair.0 seal) (omega arith) v.spoken.remaining
          (omega (arith, v1.quieter, v.spoken.quieter)) in
      Refines-then actions q more w w1 e1 v1 v r
