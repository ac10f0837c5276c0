-- ===== src/Client/Download/Decrypts.antt =====
-- What the client's loop makes of the encrypted chunks that it receives.
use mefsc.Common.{
  ℕ, zero, suc, ◌+◌, ◌^◌, ◌≤◌, ◌<◌, ◌≡◌, refl, ap, ◌∙◌, some, List, [], ◌∷◌, ◌++◌, arith, length,
  take, take_all, append_assoc, le_bytes, length-le_bytes,
}
use mefsc.Constants.{
  end_chunk, meat_chunk, file_encrypted_chunk_size, stream_chunk_size, secretstream_abytes,
}
use mefsc.Platform.{Platform, W}
use mefsc.Platform.Laws.{View, Reliable}
use mefsc.Outcome.{Outcome, bind-next}
use mefsc.Wire.Receive.{Received, Received-trans, Gives}
use mefsc.Wire.Blobs.{blob, recv_raw_blob-receives}
use mefsc.Session.{unwrap, sub64}
use mefsc.Session.Frames.{Framed, arrived, read_wrapper-Framed, unwrap-Framed}
use mefsc.Transfer.{Chunks, Opens}
use mefsc.Server.{int_after-le_bytes}
use mefsc.Client.{CommsAgent}
use mefsc.Client.Download.{prefix_after, after_pull, receive_round, decrypt_chunks}

module _ ⦃p : Platform⦄ (view : View p.net.Sock) (good : Reliable p.net view) (fuel : ℕ)
    (ca : CommsAgent) where
  open view use {pending, noise}
  open p.sodium use {Stream, pull}

  abbrev Again : Type 0
  Again = Stream → ℕ → List (List ℕ) → W → Outcome W (ℕ × List (List ℕ))

  prefix_after-Framed :
      (prefix old : ℕ) {f : List ℕ} (g : Framed ca.client_rx (le_bytes 4 prefix) f)
      → prefix < 2 ^ 32
      → prefix_after fuel ca (unwrap ca.client_rx 4 (arrived g.nonce g.text)) old ≡ prefix
  prefix_after-Framed prefix old {f} g h =
      ap (λ u. prefix_after fuel ca u old)
        (unwrap-Framed view good ca.client_rx (le_bytes 4 prefix) f 4 g
          (omega (arith, length-le_bytes 4 prefix)))
      ∙ int_after-le_bytes prefix old h

  -- A sealed prefix and a chunk behind it: the chunk is pulled.
  round :
      (again : Again) (st : Stream) (prefix old : ℕ) {f : List ℕ} (c rest : List ℕ)
      (acc : List (List ℕ)) (w : W)
      → Framed ca.client_rx (le_bytes 4 prefix) f
      → prefix < 2 ^ 32
      → length c ≤ file_encrypted_chunk_size
      → pending w.sock ≡ f ++ (blob c ++ rest)
      → stream_chunk_size + 16 + noise w.sock ≤ fuel
      → (w' : W) × (receive_round fuel ca again st old acc w
          ≡ after_pull fuel ca again prefix acc c (pull st c) w')
        × Received view w rest w'
  unfolding receive_round
  round again st prefix old {f} c rest acc w g k h e b =
      let (w1, e1, v1) = read_wrapper-Framed view good fuel g (blob c ++ rest) w e b in
      let (w2, e2, v2) =
        recv_raw_blob-receives view good fuel file_encrypted_chunk_size c rest w1 h (omega arith)
          (omega (arith, v1.quieter)) v1.remaining in
      (
        w2,
        bind-next _ e1 (
            bind-next _ e2 (
              ap (λ n. after_pull fuel ca again n acc c (pull st c) w2)
                (prefix_after-Framed prefix old g k))),
        Received-trans view v1 v2,
      )

  -- The whole message is published.
  published :
      (c m : List ℕ)
      → length c ≡ length m + secretstream_abytes
      → length c ≤ file_encrypted_chunk_size
      → take (sub64 (length c) secretstream_abytes) m ≡ m
  published c m e h = take_all (sub64 (length c) secretstream_abytes) m (omega arith)

  after_pull-end :
      (again : Again) (acc : List (List ℕ)) (c m : List ℕ) (tag : ℕ) (st st' : Stream) (w : W)
      → pull st c ≡ some ((m, tag), st')
      → length c ≡ length m + secretstream_abytes
      → length c ≤ file_encrypted_chunk_size
      → after_pull fuel ca again end_chunk acc c (pull st c) w ≡ Outcome.next (0, acc ++ (m ∷ [])) w
  unfolding after_pull
  after_pull-end again acc c m tag st st' w e l h = rw (e, published c m l h) refl

  after_pull-meat :
      (again : Again) (acc : List (List ℕ)) (c m : List ℕ) (tag : ℕ) (st st' : Stream) (w : W)
      → pull st c ≡ some ((m, tag), st')
      → length c ≡ length m + secretstream_abytes
      → length c ≤ file_encrypted_chunk_size
      → after_pull fuel ca again meat_chunk acc c (pull st c) w
        ≡ again st' meat_chunk (acc ++ (m ∷ [])) w
  unfolding after_pull
  after_pull-meat again acc c m tag st st' w e l h = rw (e, published c m l h) refl

  -- Over a reliable connection, with rounds for the chunks and a stream that opens them, the loop
  -- answers 0 with exactly the messages in order, and leaves what follows the chunks.
  pub decrypt_chunks-Opens :
      (rounds old : ℕ) (st : Stream) (acc : List (List ℕ)) {cs ms : List (List ℕ)} {bytes : List ℕ}
      (rest : List ℕ) (w : W)
      → Chunks ca.client_rx cs bytes
      → Opens st cs ms
      → length cs ≤ rounds
      → pending w.sock ≡ bytes ++ rest
      → stream_chunk_size + 16 + noise w.sock ≤ fuel
      → Gives view (decrypt_chunks fuel ca rounds st old acc w) (0, acc ++ ms) w rest
  unfolding decrypt_chunks
  decrypt_chunks-Opens zero old st acc rest w (Chunks.last g h s) o l e b = absurd (omega arith)
  decrypt_chunks-Opens zero old st acc rest w (Chunks.more g h t s) o l e b = absurd (omega arith)
  decrypt_chunks-Opens (suc rounds) old st acc rest w (Chunks.last {c} {f} g h s)
        (Opens.last {m} {tag} {st' = st'} q k) l e b =
      let (w1, e1, v1) =
        round (decrypt_chunks fuel ca rounds) st end_chunk old c rest acc w g (omega arith) h
          (e ∙ ap (λ t. t ++ rest) s ∙ append_assoc f (blob c) rest) b in
      (w1, e1 ∙ after_pull-end (decrypt_chunks fuel ca rounds) acc c m tag st st' w1 q k h, v1)
  decrypt_chunks-Opens (suc rounds) old st acc rest w (Chunks.last g h s) (Opens.more q k o) l e b =
      elim o [ ]
  decrypt_chunks-Opens (suc rounds) old st acc rest w (Chunks.more g h t s) (Opens.last q k) l e b =
      elim t [ ]
  decrypt_chunks-Opens (suc rounds) old st acc rest w (Chunks.more {c} {f} {g = tail} g h t s)
        (Opens.more {m} {tag} {ms} {st' = st'} q k o) l e b =
      let (w1, e1, v1) =
        round (decrypt_chunks fuel ca rounds) st meat_chunk old c (tail ++ rest) acc w g
          (omega arith) h
          (e
            ∙ ap (λ t. t ++ rest) s
            ∙ append_assoc f (blob c ++ tail) rest
            ∙ ap (◌++◌ f) (append_assoc (blob c) tail rest))
          b in
      let (w2, e2, v2) =
        decrypt_chunks-Opens rounds meat_chunk st' (acc ++ (m ∷ [])) rest w1 t o (omega arith)
          v1.remaining (omega (arith, v1.quieter)) in
      (
        w2,
        e1
            ∙ after_pull-meat (decrypt_chunks fuel ca rounds) acc c m tag st st' w1 q k h
            ∙ e2
            ∙ ap (λ t. Outcome.next (0, t) w2) (append_assoc acc (m ∷ []) ms),
        Received-trans view v1 v2,
      )
