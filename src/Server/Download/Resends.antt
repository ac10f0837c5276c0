-- ===== src/Server/Download/Resends.antt =====
-- What the server's loop puts on the wire for a stored file: the chunks that the file was stored from.
use mefsc.Common.{
  ℕ, zero, suc, ◌≤◌, ◌<◌, ◌≡◌, refl, true, false, List, [], ◌∷◌, ◌++◌, arith, length, concat,
  length-append, take-append, drop-append, take_all, append-nil, append_assoc, ltb, lt→ltb, le→ltb,
}
use mefsc.Constants.{file_encrypted_chunk_size, aead_npubbytes}
use mefsc.Platform.{Platform, W}
use mefsc.Platform.Laws.{View, Reliable, Sound}
use mefsc.Outcome.{Outcome, bind-next}
use mefsc.Wire.Blobs.{Wrote-trans, Sends, Sends-then, blob}
use mefsc.Transfer.{Chunks, IsCut}
use mefsc.Transfer.Rounds.{prefix_and_blob-SentRound, sent_round}
use mefsc.Server.{Operator, Stale}
use mefsc.Server.Download.{send_chunk, send_round, send_chunks}

module _ ⦃p : Platform⦄ {Paired : p.sodium.Stream → p.sodium.Stream → Type 0}
    (sound : Sound p.sodium Paired) (view : View p.net.Sock) (good : Reliable p.net view) (fuel : ℕ)
    (stale : Stale) (op : Operator) where
  -- What the loop sends, and that it carries these chunks.
  abbrev pub Resends : Outcome W (List ℕ) → List (List ℕ) → W → Type 0
  Resends result cs w =
      (nonce' : List ℕ) × (bytes : List ℕ) × Sends view result nonce' w bytes
      × Chunks op.server_tx cs bytes

  resend_last :
      (again : List ℕ → List ℕ → W → Outcome W (List ℕ)) (nonce c : List ℕ) (w : W)
      → length nonce ≡ aead_npubbytes
      → length c < file_encrypted_chunk_size
      → Resends (send_round fuel stale op again nonce c true w) (c ∷ []) w
  unfolding send_round send_chunk
  resend_last again nonce c w l short =
      let s = prefix_and_blob-SentRound sound view good op.server_tx nonce c true w l in
      (
        s.nonce',
        s.prefix_frame ++ blob c,
        rw (take_all file_encrypted_chunk_size c (omega arith))
            (Sends-then view _ (sent_round sound view good s) λ w'. refl),
        Chunks.last s.framed (omega arith) refl,
      )

  resend_more :
      (again : List ℕ → List ℕ → W → Outcome W (List ℕ)) (nonce c rest : List ℕ) (w : W)
      {cs : List (List ℕ)}
      → length nonce ≡ aead_npubbytes
      → length c ≡ file_encrypted_chunk_size
      → ((nonce' : List ℕ) (w' : W)
          → length nonce' ≡ aead_npubbytes
          → Resends (again nonce' rest w') cs w')
      → Resends (send_round fuel stale op again nonce (c ++ rest) false w) (c ∷ cs) w
  unfolding send_round send_chunk
  resend_more again nonce c rest w l full loop =
      let s = prefix_and_blob-SentRound sound view good op.server_tx nonce c false w l in
      let (nonce', bytes, (w2, e2, v2), t) = loop s.nonce' s.after s.nonce_length in
      (
        nonce',
        (s.prefix_frame ++ blob c) ++ bytes,
        (
          w2,
          rw
              (
                take-append c rest file_encrypted_chunk_size full,
                drop-append c rest file_encrypted_chunk_size full,
              )
              (bind-next _ s.result e2),
          Wrote-trans view s.wrote v2,
        ),
        Chunks.more s.framed (omega arith) t (append_assoc s.prefix_frame (blob c) bytes),
      )

  send_chunks_step :
      (rounds : ℕ) (nonce rest : List ℕ)
      → send_chunks fuel stale op (suc rounds) nonce rest
        ≡ send_round fuel stale op
            (send_chunks fuel stale op rounds)
            nonce
            rest
            (ltb (length rest) file_encrypted_chunk_size)
  unfolding send_chunks
  send_chunks_step rounds nonce rest = refl

  -- Over a reliable connection, with rounds for the chunks and a nonce of its length, the loop over a
  -- file whose chunks are full but for a shorter last one returns, and has sent these chunks.
  pub send_chunks-Chunks :
      (rounds : ℕ) (nonce : List ℕ) {cs : List (List ℕ)} (w : W)
      → length nonce ≡ aead_npubbytes
      → IsCut file_encrypted_chunk_size cs
      → length cs ≤ rounds
      → Resends (send_chunks fuel stale op rounds nonce (concat cs) w) cs w
  send_chunks-Chunks zero nonce w l (IsCut.last h) b = absurd (omega arith)
  send_chunks-Chunks zero nonce w l (IsCut.more h t) b = absurd (omega arith)
  send_chunks-Chunks (suc rounds) nonce w l (IsCut.last {c} h) b =
      rw
        (
          append-nil c,
          send_chunks_step rounds nonce c,
          lt→ltb (length c) file_encrypted_chunk_size h,
        )
        (resend_last (send_chunks fuel stale op rounds) nonce c w l h)
  send_chunks-Chunks (suc rounds) nonce w l (IsCut.more {c} {cs} h t) b =
      rw
        (
          send_chunks_step rounds nonce (c ++ concat cs),
          le→ltb (length (c ++ concat cs)) file_encrypted_chunk_size
              (omega (arith, length-append c (concat cs))),
        )
        (resend_more (send_chunks fuel stale op rounds) nonce c (concat cs) w l h
          (λ nonce' w' l'. send_chunks-Chunks rounds nonce' w' l' t (omega arith)))
