-- ===== src/Client/Listing/Deletes.antt =====
-- What the client shows of a deletion.
use mefsc.Common.{
  ℕ, ◌+◌, ◌^◌, ◌≤◌, ◌<◌, ◌≡◌, ap, ◌∙◌, List, [], ◌∷◌, ◌++◌, arith, length, length-append, le_bytes,
  length-le_bytes, ◌==◌,
}
use mefsc.Constants.{stream_chunk_size, ack_suc, aead_abytes}
use mefsc.Platform.{Platform, W}
use mefsc.Platform.Laws.{View, Reliable, Sound}
use mefsc.Outcome.{Outcome, bind-next}
use mefsc.Wire.Talk.{Talks, Talked-trans, Talked-then, Gives-Talks, Sends-Talks}
use mefsc.Session.Frames.{Framed, wrap_and_send-Framed, sent_frame}
use mefsc.Transfer.Messages.{with_nul}
use mefsc.Server.{int_after-le_bytes}
use mefsc.Server.Actions.{expect-Framed}
use mefsc.Server.Listing.Sends.{random_bytes-Talks}
use mefsc.Client.{CommsAgent}
use mefsc.Client.Listing.{dffs_handler}

module _ ⦃p : Platform⦄ {Paired : p.sodium.Stream → p.sodium.Stream → Type 0}
    (sound : Sound p.sodium Paired) (view : View p.net.Sock) (good : Reliable p.net view) (fuel : ℕ)
    (ca : CommsAgent) where
  open view use {pending, noise}

  -- Over a reliable connection, for a name that fits in a frame, and where the next frame to come
  -- carries an `int`: the client sends the name with its NUL in one frame, says that the file is
  -- deleted exactly if that `int` is ACK_SUC, and leaves what follows.
  pub dffs_handler-Framed :
      (stale status : ℕ) (name : List ℕ) {g : List ℕ}
      (answer : Framed ca.client_rx (le_bytes 4 status) g) (rest : List ℕ) (w : W)
      → length name + 1 + aead_abytes ≤ stream_chunk_size
      → status < 2 ^ 32
      → pending w.sock ≡ g ++ rest
      → stream_chunk_size + 16 + noise w.sock ≤ fuel
      → (f : List ℕ) × Framed ca.client_tx (with_nul name) f
        × Talks view (dffs_handler fuel ca stale name w) (status == ack_suc) w f rest
  unfolding dffs_handler
  dffs_handler-Framed stale status name answer rest w l h e b =
      let (w1, e1, v1) = random_bytes-Talks view 8 w in
      let s =
        wrap_and_send-Framed sound view good ca.client_tx (p.sodium.randombytes_buf 8 w.rng).0
          (with_nul name) w1 (sound.random_length 8 w.rng)
          (omega (arith, length-append name (0 ∷ []))) in
      let (w2, e2, v2) = Sends-Talks view (v1.remaining ∙ e) (sent_frame sound view good s) in
      let v = Talked-trans view v1 v2 in
      let (w3, e3, v3) = Gives-Talks view (
        expect-Framed view good fuel 4 1 1 answer rest w2 (omega (arith, length-le_bytes 4 status))
          v.remaining (omega (arith, v.quieter))) in
      (
        s.bytes,
        s.framed,
        (
          w3,
          bind-next _ e1 (
              bind-next _ e2 (
                bind-next _ e3
                  (ap (λ n. Outcome.next (n == ack_suc) w3) (int_after-le_bytes status stale h)))),
          Talked-then view v v3,
        ),
      )
