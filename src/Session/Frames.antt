-- ===== src/Session/Frames.antt =====
-- A sealed message on the wire, and what the reader makes of it: the two ends of a session agree on
-- the key, and a message that one end wraps and sends is the message that the other end unwraps.
use mefsc.Common.{
  ℕ, ◌+◌, ◌≤◌, ◌≡◌, refl, ap, ◌∙◌, false, some, List, ◌++◌, arith, length, append_assoc, le_bytes,
  length-le_bytes, of_le-le_bytes_u64, le→ltb, le→leb,
}
use mefsc.Constants.{aead_abytes, aead_npubbytes, stream_chunk_size}
use mefsc.Platform.{Platform, W}
use mefsc.Platform.Laws.{View, Reliable, Sound}
use mefsc.Outcome.{Outcome}
use mefsc.Wire.Receive.{Received-trans, Gives, recv_fully-receives}
use mefsc.Wire.Blobs.{Wrote, Sends, send_bytes-Sends}
use mefsc.Session.{
  Wrapper, reader, sender, read_wrapper, check_length, read_nonce, read_text, unwrap, wrap,
  wrap_ciphertext, send_all, send_frame, wrap_and_send, sub64,
}

-- The length of the ciphertext, the nonce, the ciphertext.
abbrev pub frame : List ℕ → List ℕ → List ℕ
frame nonce c = le_bytes 8 (length c) ++ (nonce ++ c)

-- The wrapper that a reader builds from a frame.
abbrev pub arrived : List ℕ → List ℕ → Wrapper
arrived nonce c = record {
  corrupted = false;
  session_encrypted_data = c;
  nonce = nonce;
  session_encrypted_data_length = length c;
  enc_wrap_type = reader;
}

-- These bytes are a frame that carries the message `m` under `key`.
pub record Framed ⦃p : Platform⦄ (key m f : List ℕ) : Type 0 where
  pub nonce : List ℕ
  pub text : List ℕ
  pub shape : f ≡ frame nonce text
  pub nonce_length : length nonce ≡ aead_npubbytes
  pub text_length : length text ≡ length m + aead_abytes
  pub fits : length text ≤ stream_chunk_size
  pub opens : p.sodium.aead_decrypt key nonce text ≡ some m

module _ ⦃p : Platform⦄ (view : View p.net.Sock) (good : Reliable p.net view) where
  open view use {pending, noise}

  read_text-receives :
      (fuel : ℕ) (nonce c rest : List ℕ) (w : W)
      → pending w.sock ≡ c ++ rest
      → length c + noise w.sock ≤ fuel
      → Gives view (read_text fuel (length c) nonce w) (arrived nonce c) w rest
  unfolding read_text
  read_text-receives fuel nonce c rest w e h =
      let (w1, e1, v1) = recv_fully-receives view good fuel (length c) c rest w refl e h in
      (w1, rw e1 refl, v1)

  read_nonce-receives :
      (fuel : ℕ) (nonce c rest : List ℕ) (w : W)
      → length nonce ≡ aead_npubbytes
      → pending w.sock ≡ nonce ++ (c ++ rest)
      → length c + 8 + noise w.sock ≤ fuel
      → Gives view (read_nonce fuel (length c) w) (arrived nonce c) w rest
  unfolding read_nonce
  read_nonce-receives fuel nonce c rest w l e h =
      let (w1, e1, v1) =
        recv_fully-receives view good fuel 8 nonce (c ++ rest) w l e (omega arith) in
      let (w2, e2, v2) =
        read_text-receives fuel nonce c rest w1 v1.remaining (omega (arith, v1.quieter)) in
      (w2, rw e1 e2, Received-trans view v1 v2)

  check_length-fits : (fuel n : ℕ) → n ≤ stream_chunk_size → check_length fuel n ≡ read_nonce fuel n
  unfolding check_length
  check_length-fits fuel n h = rw (le→ltb stream_chunk_size n h, check_length)

  -- The reader's constructor takes a whole frame that fits the array, and leaves what follows.
  pub read_wrapper-frame :
      (fuel : ℕ) (nonce c rest : List ℕ) (w : W)
      → length nonce ≡ aead_npubbytes
      → length c ≤ stream_chunk_size
      → pending w.sock ≡ frame nonce c ++ rest
      → stream_chunk_size + 16 + noise w.sock ≤ fuel
      → Gives view (read_wrapper fuel w) (arrived nonce c) w rest
  unfolding read_wrapper
  read_wrapper-frame fuel nonce c rest w l k e h =
      let (w1, e1, v1) =
        recv_fully-receives view good fuel 8 (le_bytes 8 (length c)) (nonce ++ (c ++ rest)) w
          (length-le_bytes 8 (length c))
          (e
            ∙ append_assoc (le_bytes 8 (length c)) (nonce ++ c) rest
            ∙ ap (◌++◌ (le_bytes 8 (length c))) (append_assoc nonce c rest))
          (omega arith) in
      let (w2, e2, v2) =
        read_nonce-receives fuel nonce c rest w1 l v1.remaining (omega (arith, v1.quieter)) in
      (
        w2,
        rw (e1, of_le-le_bytes_u64 (length c) (omega arith), check_length-fits fuel (length c) k)
            e2,
        Received-trans view v1 v2,
      )

  -- `unwrap` opens it, into any buffer that has room for the message.
  pub unwrap-Framed :
      (key m f : List ℕ) (capacity : ℕ) (g : Framed key m f)
      → length m ≤ capacity
      → unwrap key capacity (arrived g.nonce g.text)
        ≡ record { status = 0; wrapper = arrived g.nonce g.text; decrypted_data = m }
  unfolding unwrap
  unwrap-Framed key m f capacity g h =
      let e : sub64 (length g.text) aead_abytes ≡ length m = omega (arith, g.text_length, g.fits) in
      rw
        (
          e,
          le→ltb stream_chunk_size (length m) (omega (arith, g.text_length, g.fits)),
          le→ltb capacity (length m) h,
          g.opens,
        )
        refl

  -- Over a reliable connection, the constructor takes exactly one frame, and leaves what follows.
  pub read_wrapper-Framed :
      (fuel : ℕ) {key m f : List ℕ} (g : Framed key m f) (rest : List ℕ) (w : W)
      → pending w.sock ≡ f ++ rest
      → stream_chunk_size + 16 + noise w.sock ≤ fuel
      → Gives view (read_wrapper fuel w) (arrived g.nonce g.text) w rest
  read_wrapper-Framed fuel g rest w e h =
      read_wrapper-frame fuel g.nonce g.text rest w g.nonce_length g.fits
        (e ∙ ap (λ t. t ++ rest) g.shape) h

-- The writers' constructor, where the encryption succeeds and the ciphertext fits the array.
wrap-fits :
    ⦃p : Platform⦄ (tx nonce m c : List ℕ) (w : W)
    → p.sodium.aead_encrypt tx (p.sodium.sodium_increment nonce) m ≡ some c
    → length c ≤ stream_chunk_size
    → wrap tx nonce m w
      ≡ Outcome.next
          (
            record (arrived (p.sodium.sodium_increment nonce) c) { enc_wrap_type = sender },
            p.sodium.sodium_increment nonce,
          )
          w
unfolding wrap
wrap-fits tx nonce m c w e h = rw (e, wrap_ciphertext, le→leb (length c) stream_chunk_size h)

module _ ⦃p : Platform⦄ {Paired : p.sodium.Stream → p.sodium.Stream → Type 0}
    (sound : Sound p.sodium Paired) (view : View p.net.Sock) (good : Reliable p.net view) where
  -- What `wrap_and_send` gives: the message went out in one frame, and the nonce has moved on.
  pub record SentFramed (tx nonce m : List ℕ) (w : W) : Type 0 where
    pub after : W
    pub bytes : List ℕ
    pub nonce' : List ℕ
    pub result : wrap_and_send tx nonce m w ≡ Outcome.next nonce' after
    pub wrote : Wrote view w bytes after
    pub framed : Framed tx m bytes
    pub nonce_length : length nonce' ≡ aead_npubbytes

  send_frame-Sends :
      (nonce c : List ℕ) (w : W)
      → Sends view
          (send_frame (record (arrived nonce c) { enc_wrap_type = sender }) w)
          (some (length (frame nonce c)))
          w
          (frame nonce c)
  unfolding send_frame
  send_frame-Sends nonce c w = send_bytes-Sends view good (frame nonce c) w

  -- Over a reliable connection, a message that fits goes out in one frame, which the holder of the key
  -- opens to it again, and the nonce keeps its length.
  pub wrap_and_send-Framed :
      (tx nonce m : List ℕ) (w : W)
      → length nonce ≡ aead_npubbytes
      → length m + aead_abytes ≤ stream_chunk_size
      → SentFramed tx nonce m w
  unfolding wrap_and_send send_all
  wrap_and_send-Framed tx nonce m w l h =
      let n : List ℕ = p.sodium.sodium_increment nonce in
      let (c, enc, len, dec) = sound.encrypts tx n m in
      let (w1, e1, v1) = send_frame-Sends n c w in
      record {
        after = w1;
        bytes = frame n c;
        nonce' = n;
        result = rw (wrap-fits tx nonce m c w enc (omega (arith, len)), e1);
        wrote = v1;
        framed = record {
          nonce = n;
          text = c;
          shape = refl;
          nonce_length = sound.increment_length nonce ∙ l;
          text_length = len;
          fits = omega (arith, len);
          opens = dec;
        };
        nonce_length = sound.increment_length nonce ∙ l;
      }

  pub sent_frame :
      {tx nonce m : List ℕ} {w : W} (s : SentFramed tx nonce m w)
      → Sends view (wrap_and_send tx nonce m w) s.nonce' w s.bytes
  sent_frame s = (s.after, s.result, s.wrote)
