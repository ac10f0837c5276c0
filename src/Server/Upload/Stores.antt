-- ===== src/Server/Upload/Stores.antt =====
-- What the upload handler makes of a well-formed transfer.
use mefsc.Common.{
  ℕ, zero, suc, ◌+◌, ◌^◌, ◌≤◌, ◌<◌, ◌≡◌, refl, ap, ◌∙◌, some, false, List, [], ◌∷◌, ◌++◌, arith,
  length, append_assoc, le_bytes, length-le_bytes,
}
use mefsc.Constants.{end_chunk, meat_chunk, file_encrypted_chunk_size, stream_chunk_size}
use mefsc.Platform.{Platform, W}
use mefsc.Platform.Laws.{View, Reliable}
use mefsc.Outcome.{Outcome}
use mefsc.Wire.Receive.{Received, Received-trans, Gives}
use mefsc.Wire.Blobs.{blob, recv_raw_blob-receives}
use mefsc.Wire.{recv_raw_blob}
use mefsc.Session.{Unwrapped, Wrapper, unwrap}
use mefsc.Session.Frames.{Framed, arrived, read_wrapper-Framed, unwrap-Framed}
use mefsc.Transfer.{Chunks, last, more}
use mefsc.Server.{Operator, Stale, int_after-le_bytes}
use mefsc.Server.Upload.{receive_chunks, receive_round, receive_chunk, after_chunk, after_prefix}

module _ ⦃p : Platform⦄ (view : View p.net.Sock) (good : Reliable p.net view) (fuel : ℕ)
    (stale : Stale) (op : Operator) where
  open view use {pending, noise}

  after_prefix-opened :
      (again : ℕ → List (List ℕ) → W → Outcome W (ℕ × List (List ℕ))) (prefix old : ℕ)
      (acc : List (List ℕ)) (u : Unwrapped) (x : Wrapper)
      → u ≡ record { status = 0; wrapper = x; decrypted_data = le_bytes 4 prefix }
      → prefix < 2 ^ 32
      → after_prefix fuel stale op again old acc false u
        ≡ receive_chunk fuel stale op again prefix acc
  unfolding after_prefix
  after_prefix-opened again prefix old acc u x e h =
      rw e (ap (λ n. receive_chunk fuel stale op again n acc) (int_after-le_bytes prefix old h))

  receive_chunk-receives :
      (again : ℕ → List (List ℕ) → W → Outcome W (ℕ × List (List ℕ))) (prefix : ℕ) (c : List ℕ)
      (acc : List (List ℕ)) (w w' : W)
      → recv_raw_blob fuel file_encrypted_chunk_size w ≡ Outcome.next (some c) w'
      → receive_chunk fuel stale op again prefix acc w
        ≡ after_chunk fuel stale op again prefix (acc ++ (c ∷ [])) w'
  unfolding receive_chunk
  receive_chunk-receives again prefix c acc w w' e = rw e

  -- A sealed prefix and a chunk behind it: the loop is where the prefix sends it.
  round :
      (again : ℕ → List (List ℕ) → W → Outcome W (ℕ × List (List ℕ))) (prefix old : ℕ) {f : List ℕ}
      (c rest : List ℕ) (acc : List (List ℕ)) (w : W)
      → Framed op.server_rx (le_bytes 4 prefix) f
      → prefix < 2 ^ 32
      → length c ≤ file_encrypted_chunk_size
      → pending w.sock ≡ f ++ (blob c ++ rest)
      → stream_chunk_size + 16 + noise w.sock ≤ fuel
      → (w' : W) × (receive_round fuel stale op again old acc w
          ≡ after_chunk fuel stale op again prefix (acc ++ (c ∷ [])) w')
        × Received view w rest w'
  unfolding receive_round
  round again prefix old {f} c rest acc w g k h e b =
      let (w1, e1, v1) = read_wrapper-Framed view good fuel g (blob c ++ rest) w e b in
      let (w2, e2, v2) =
        recv_raw_blob-receives view good fuel file_encrypted_chunk_size c rest w1 h (omega arith)
          (omega (arith, v1.quieter)) v1.remaining in
      let opens =
        unwrap-Framed view good op.server_rx (le_bytes 4 prefix) f 4 g
          (omega (arith, length-le_bytes 4 prefix)) in
      (
        w2,
        rw e1 (
            ap (λ m. m w1)
              (after_prefix-opened again prefix old acc
                (unwrap op.server_rx 4 (arrived g.nonce g.text)) (arrived g.nonce g.text) opens k)
            ∙ receive_chunk-receives again prefix c acc w1 w2 e2),
        Received-trans view v1 v2,
      )

  after_chunk-end :
      (again : ℕ → List (List ℕ) → W → Outcome W (ℕ × List (List ℕ))) (acc : List (List ℕ)) (w : W)
      → after_chunk fuel stale op again end_chunk acc w ≡ Outcome.next (0, acc) w
  unfolding after_chunk
  after_chunk-end again acc w = refl

  after_chunk-meat :
      (again : ℕ → List (List ℕ) → W → Outcome W (ℕ × List (List ℕ))) (acc : List (List ℕ)) (w : W)
      → after_chunk fuel stale op again meat_chunk acc w ≡ again meat_chunk acc w
  unfolding after_chunk
  after_chunk-meat again acc w = refl

  -- Over a reliable connection, with rounds for them, the loop takes in exactly the chunks of the
  -- transfer, in order, answers 0 and leaves what follows.
  pub receive_chunks-Chunks :
      (rounds old : ℕ) (acc : List (List ℕ)) {cs : List (List ℕ)} {bytes : List ℕ} (rest : List ℕ)
      (w : W)
      → Chunks op.server_rx cs bytes
      → length cs ≤ rounds
      → pending w.sock ≡ bytes ++ rest
      → stream_chunk_size + 16 + noise w.sock ≤ fuel
      → Gives view (receive_chunks fuel stale op rounds old acc w) (0, acc ++ cs) w rest
  unfolding receive_chunks
  receive_chunks-Chunks zero old acc rest w (last g h s) l e b = absurd (omega arith)
  receive_chunks-Chunks zero old acc rest w (more g h t s) l e b = absurd (omega arith)
  receive_chunks-Chunks (suc rounds) old acc rest w (last {c} {f} g h s) l e b =
      let (w1, e1, v1) =
        round (receive_chunks fuel stale op rounds) end_chunk old c rest acc w g (omega arith) h
          (e ∙ ap (λ t. t ++ rest) s ∙ append_assoc f (blob c) rest) b in
      (w1, e1 ∙ after_chunk-end (receive_chunks fuel stale op rounds) (acc ++ (c ∷ [])) w1, v1)
  receive_chunks-Chunks (suc rounds) old acc rest w (more {c} {f} {bytes} {g = tail} {cs} g h t s) l
        e b =
      let (w1, e1, v1) =
        round (receive_chunks fuel stale op rounds) meat_chunk old c (tail ++ rest) acc w g
          (omega arith) h
          (e
            ∙ ap (λ t. t ++ rest) s
            ∙ append_assoc f (blob c ++ tail) rest
            ∙ ap (◌++◌ f) (append_assoc (blob c) tail rest))
          b in
      let (w2, e2, v2) =
        receive_chunks-Chunks rounds meat_chunk (acc ++ (c ∷ [])) rest w1 t (omega arith)
          v1.remaining (omega (arith, v1.quieter)) in
      (
        w2,
        e1
            ∙ after_chunk-meat (receive_chunks fuel stale op rounds) (acc ++ (c ∷ [])) w1
            ∙ e2
            ∙ ap (λ t. Outcome.next (0, t) w2) (append_assoc acc (c ∷ []) cs),
        Received-trans view v1 v2,
      )
