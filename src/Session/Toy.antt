-- ===== src/Session/Toy.antt =====
-- Frames of the examples' cipher.
use mefsc.Common.{
  ℕ, ◌+◌, ◌≤◌, refl, ap, some, List, [], ◌∷◌, ◌++◌, arith, replicate, length, length-append,
  le_bytes, length-le_bytes,
}
use mefsc.Constants.{aead_abytes, stream_chunk_size}
use mefsc.Platform.Toy.{toy, decrypts}
use mefsc.Session.Frames.{frame, Framed}

abbrev pub key : List ℕ
key = 1 ∷ 2 ∷ []

abbrev pub nonce : List ℕ
nonce = replicate 8 5

abbrev pub text_of : List ℕ → List ℕ
text_of m = m ++ replicate 16 0

abbrev pub frame_of : List ℕ → List ℕ
frame_of m = frame nonce (text_of m)

abbrev pub framed_by :
    (k m : List ℕ) → length m + aead_abytes ≤ stream_chunk_size → Framed k m (frame_of m)
framed_by k m h = record {
  nonce = nonce;
  text = text_of m;
  shape = refl;
  nonce_length = refl;
  text_length = length-append m (replicate 16 0);
  fits = omega (arith, length-append m (replicate 16 0));
  opens = ap some (decrypts m);
}

abbrev pub framed :
    (m : List ℕ) → length m + aead_abytes ≤ stream_chunk_size → Framed key m (frame_of m)
framed m h = framed_by key m h

abbrev pub int_framed_by : (k : List ℕ) (n : ℕ) → Framed k (le_bytes 4 n) (frame_of (le_bytes 4 n))
int_framed_by k n = framed_by k (le_bytes 4 n) (omega (arith, length-le_bytes 4 n))

abbrev pub int_framed : (n : ℕ) → Framed key (le_bytes 4 n) (frame_of (le_bytes 4 n))
int_framed n = int_framed_by key n
