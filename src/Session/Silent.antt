-- ===== src/Session/Silent.antt =====
-- Receiving a message leaves the disk alone, whatever the peer sends.
use mefsc.Common.{ℕ, refl, subst, List, of_le, ltb, Bool-cases, inl, inr}
use mefsc.Constants.{aead_npubbytes, stream_chunk_size}
use mefsc.Platform.{Platform, W}
use mefsc.Session.{read_wrapper, check_length, read_nonce, read_text}
use mefsc.Wire.{recv_fully}
use mefsc.Wire.Silent.{Keeps-option, KeepsDisk, disk_of, recv_fully-KeepsDisk}

module _ ⦃p : Platform⦄ where
  read_text-KeepsDisk :
      (fuel n : ℕ) (nonce : List ℕ) (w : W) → KeepsDisk w.disk (read_text fuel n nonce w)
  unfolding read_text
  read_text-KeepsDisk fuel n nonce w =
      Keeps-option disk_of w.disk (recv_fully fuel n w) _ (recv_fully-KeepsDisk fuel n w) (λ v e. e)
        (λ c v e. e)

  read_nonce-KeepsDisk : (fuel n : ℕ) (w : W) → KeepsDisk w.disk (read_nonce fuel n w)
  unfolding read_nonce
  read_nonce-KeepsDisk fuel n w =
      Keeps-option disk_of w.disk (recv_fully fuel aead_npubbytes w) _
        (recv_fully-KeepsDisk fuel aead_npubbytes w) (λ v e. e)
        (λ c v e.
          subst (λ d. KeepsDisk d (read_text fuel n c v)) e (read_text-KeepsDisk fuel n c v))

  check_length-KeepsDisk : (fuel n : ℕ) (w : W) → KeepsDisk w.disk (check_length fuel n w)
  unfolding check_length
  check_length-KeepsDisk fuel n w = elim (Bool-cases (ltb stream_chunk_size n)) [
    | inl t ↦ rw (t, check_length) refl
    | inr f ↦ rw (f, check_length) (read_nonce-KeepsDisk fuel n w)
  ]

  pub read_wrapper-KeepsDisk : (fuel : ℕ) (w : W) → KeepsDisk w.disk (read_wrapper fuel w)
  unfolding read_wrapper
  read_wrapper-KeepsDisk fuel w =
      Keeps-option disk_of w.disk (recv_fully fuel 8 w) _ (recv_fully-KeepsDisk fuel 8 w) (λ v e. e)
        (λ c v e.
          subst (λ d. KeepsDisk d (check_length fuel (of_le c) v)) e
            (check_length-KeepsDisk fuel (of_le c) v))
