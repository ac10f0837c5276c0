-- ===== src/Server/Listing/Deletes.antt =====
-- What the server does for a deletion.
use mefsc.Common.{
  ℕ, ◌+◌, ◌≤◌, ◌≡◌, ◌≢◌, refl, ap, ◌∙◌, List, [], ◌∷◌, ◌++◌, arith, length, length-append,
  replicate, append-nil, All, le_bytes, length-le_bytes,
}
use mefsc.Constants.{
  stream_chunk_size, pre_ext_file_name_len, max_file_name_length, ack_suc, ack_fail,
}
use mefsc.Platform.{Platform, W, Removed, removed, not_found, remove_throws}
use mefsc.Platform.Laws.{View, Reliable, Sound}
use mefsc.Outcome.{Outcome, bind-next, returned}
use mefsc.Wire.Talk.{Talked-trans, Gives-Talks}
use mefsc.Session.Frames.{Framed}
use mefsc.Transfer.Messages.{with_nul}
use mefsc.Server.{Operator, Stale}
use mefsc.Server.Actions.{expect-Framed}
use mefsc.Server.Upload.Names.{text_of-with_nul}
use mefsc.Server.Listing.{removal, remove_file, dffs_handler}
use mefsc.Server.Listing.Sends.{random_bytes-Talks, send_fresh-Framed}

module _ ⦃p : Platform⦄ {Paired : p.sodium.Stream → p.sodium.Stream → Type 0}
    (sound : Sound p.sodium Paired) (view : View p.net.Sock) (good : Reliable p.net view) (fuel : ℕ)
    (stale : Stale) (op : Operator) where
  open view use {pending, written, noise}

  -- What the client is told.
  abbrev pub status_of : Removed → ℕ
  status_of removed = ack_suc
  status_of not_found = ack_fail
  status_of remove_throws = ack_fail

  removal-status :
      (result : Removed) (disk : p.storage.Disk) (w : W)
      → result ≢ remove_throws
      → removal fuel stale op w (result, disk)
        ≡ Outcome.next (status_of result) (record w { disk = disk })
  unfolding removal
  removal-status removed disk w h = refl
  removal-status not_found disk w h = refl
  removal-status remove_throws disk w h = absurd (h refl)

  -- What a deletion answers and does: `status` goes out in one frame, and `disk` is left.
  pub record Deleted (status : ℕ) (disk : p.storage.Disk) (w : W) (rest : List ℕ) : Type 0 where
    pub after : W
    pub answer : List ℕ
    pub result : dffs_handler fuel stale op w ≡ Outcome.next 0 after
    pub framed : Framed op.server_tx (le_bytes 4 status) answer
    pub remaining : pending after.sock ≡ rest
    pub quieter : noise after.sock ≤ noise w.sock
    pub added : written after.sock ≡ written w.sock ++ answer
    pub left : after.disk ≡ disk

  -- Over a reliable connection, for a name that fits, with no NUL, where the removal of that name in
  -- the user's directory does not throw: the handler returns 0, has told in one frame whether there was
  -- such a file, and leaves the disk of the removal and what follows.
  pub dffs_handler-Deleted :
      (result : Removed) (disk : p.storage.Disk) (name : List ℕ) {f : List ℕ}
      (g : Framed op.server_rx (with_nul name) f) (rest : List ℕ) (w : W)
      → length name + 1 ≤ pre_ext_file_name_len
      → All (λ b. b ≢ 0) name
      → p.storage.remove (op.user_dir ++ name) w.disk ≡ (result, disk)
      → result ≢ remove_throws
      → pending w.sock ≡ f ++ rest
      → stream_chunk_size + 16 + noise w.sock ≤ fuel
      → Deleted (status_of result) disk w rest
  unfolding dffs_handler remove_file
  dffs_handler-Deleted result disk name g rest w l nul r k e b =
      let (w0, e0, v0) = random_bytes-Talks view 8 w in
      let (w1, e1, v1) = Gives-Talks view (
        expect-Framed view good fuel pre_ext_file_name_len 2 1 g rest w0
          (omega (arith, l, length-append name (0 ∷ []))) (v0.remaining ∙ e)
          (omega (arith, v0.quieter))) in
      let gone : p.storage.remove (op.user_dir ++ name) w1.disk ≡ (result, disk) =
        ap (p.storage.remove (op.user_dir ++ name)) (v1.same_disk ∙ v0.same_disk) ∙ r in
      let w2 : W = record w1 { disk = disk } in
      let (answer, framed, (w3, e3, v3)) =
        send_fresh-Framed sound view good fuel stale op (le_bytes 4 (status_of result)) w2
          (omega (arith, length-le_bytes 4 (status_of result))) in
      let v = Talked-trans view v0 v1 in
      record {
        after = w3;
        answer = answer;
        result = ap returned (
            bind-next _ e0 (
              bind-next _ e1 (
                bind-next _
                  (text_of-with_nul fuel stale op name (replicate max_file_name_length 0) w1 nul)
                  (bind-next _
                    (ap (removal fuel stale op w1) gone ∙ removal-status result disk w1 k)
                    (bind-next _ e3 refl)))));
        framed = framed;
        remaining = v3.remaining ∙ v1.remaining;
        quieter = omega (arith, v.quieter, v3.quieter);
        added = v3.added ∙ ap (λ t. t ++ answer) (v.added ∙ append-nil (written w.sock));
        left = v3.same_disk;
      }
