-- ===== src/Wire.antt =====
-- src/encryption_utils/SessionEnc.cpp, `recv_fully`, and src/encryption_utils/encryption_utils.cpp,
-- the length-prefixed blobs `send_raw_blob` and `recv_raw_blob`. `fuel` bounds the `recv` calls of one
-- `recv_fully`.
pub mod Receive
pub mod Blobs
pub mod Closed
pub mod Talk
pub mod Silent
mod Examples
use mefsc.Common.{
  ℕ, zero, suc, ◌-◌, ◌≡◌, refl, Bool, true, false, not, ◌&&◌, Option, none, some, List, [], ◌∷◌,
  ◌++◌, length, le_bytes, of_le, ltb, leb, ◌==◌, if◌then◌else◌,
}
use mefsc.Platform.{Platform, World, W, Received, got, recv_error, Sent, took, send_error}
use mefsc.Outcome.{M, Outcome, fault, hangs, pure, ◌>>=◌, ◌>>◌, return_if, call}
use mefsc.Outcome

-- Did `send` take this many bytes?
abbrev took_all : ℕ → Option ℕ → Bool
took_all n none = false
took_all n (some m) = m == n

module _ ⦃p : Platform⦄ where
  open p.net use {Sock, recv, send, eintr}

  -- What follows one `recv` of the loop: on an error, and also at the end of the stream, `errno` says
  -- whether to go round again.
  pub after_recv :
      (ℕ → List ℕ → M W (Option (List ℕ)))
      → ℕ
      → List ℕ
      → W
      → Received × Sock
      → Outcome W (Option (List ℕ))
  after_recv again len acc w (recv_error e, s) = elim (e == eintr) [
    | true ↦ again len acc (record w { sock = s; errno = e })
    | false ↦ Outcome.next none (record w { sock = s; errno = e })
  ]
  after_recv again len acc w (got [], s) = elim (w.errno == eintr) [
    | true ↦ again len acc (record w { sock = s })
    | false ↦ Outcome.next none (record w { sock = s })
  ]
  after_recv again len acc w (got (b ∷ bs), s) =
      again (len - length (b ∷ bs)) (acc ++ (b ∷ bs)) (record w { sock = s })

  -- The loop, with the bytes that are already in the buffer.
  pub recv_loop : ℕ → ℕ → List ℕ → M W (Option (List ℕ))
  unfolding after_recv
  recv_loop fuel zero acc w = Outcome.next (some acc) w
  recv_loop zero (suc n) acc w = fault hangs
  recv_loop (suc fuel) (suc n) acc w =
      after_recv (recv_loop fuel) (suc n) acc w (recv (suc n) w.sock)

  -- `none` is the answer false; `some` has the bytes of the filled buffer.
  unfoldable pub recv_fully : ℕ → ℕ → M W (Option (List ℕ))
  unfolding recv_loop
  recv_fully fuel len = recv_loop fuel len []

  sent : W → Sent × Sock → Outcome W (Option ℕ)
  sent w (took n, s) = Outcome.next (some n) (record w { sock = s })
  sent w (send_error e, s) = Outcome.next none (record w { sock = s; errno = e })

  -- A call of `send`; `none` is -1.
  unfoldable pub send_bytes : List ℕ → M W (Option ℕ)
  unfolding sent
  send_bytes bs w = sent w (send bs w.sock)

  -- The `send` of the bytes is made only where there are any.
  send_body : List ℕ → M W ℕ
  unfolding send_bytes
  send_body [] = pure 0
  send_body (b ∷ bs) = do
    n ← send_bytes (b ∷ bs)
    return_if (not (took_all (length (b ∷ bs)) n)) 1
    pure 0

  -- The answer is the status; both `send` calls must take all their bytes.
  unfoldable pub send_raw_blob : List ℕ → M W ℕ
  unfolding send_bytes send_body
  send_raw_blob bytes = call do
    n ← send_bytes (le_bytes 8 (length bytes))
    return_if (not (took_all 8 n)) 1
    send_body bytes

  recv_body : ℕ → ℕ → ℕ → M W (Option (List ℕ))
  unfolding recv_fully
  recv_body fuel cap n = if ltb cap n then pure none else recv_fully fuel n

  -- `none` is the status 1, with `*out_len` not set; `some` has the `*out_len` bytes of the buffer.
  unfoldable pub recv_raw_blob : ℕ → ℕ → M W (Option (List ℕ))
  unfolding recv_fully recv_body
  recv_raw_blob fuel cap = do
    prefix ← recv_fully fuel 8
    elim prefix [ none ↦ pure none | some n ↦ recv_body fuel cap (of_le n) ]
