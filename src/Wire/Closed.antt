-- ===== src/Wire/Closed.antt =====
-- `recv_fully` at the end of the stream, where `recv` returns 0 and does not set `errno`.
use mefsc.Common.{ℕ, zero, suc, ◌≡◌, refl, ◌≢◌, ◌∙◌, none, List, [], arith, Option}
use mefsc.Platform.{Platform, W, got}
use mefsc.Outcome.{M, Outcome, fault, hangs}
use mefsc.Wire.{recv_fully, recv_loop, after_recv}
use mefsc.Wire.Receive.{recv_loop_step}

-- The peer has closed the connection, and nothing is left to receive.
pub record Closing ⦃p : Platform⦄ (IsClosed : p.net.Sock → Type 0) : Type 0 where
  pub ends :
      (n : ℕ) (s : p.net.Sock)
      → IsClosed s
      → (s' : p.net.Sock) × (p.net.recv n s ≡ (got [], s')) × IsClosed s'

module _ ⦃p : Platform⦄ (again : ℕ → List ℕ → M W (Option (List ℕ))) where
  after_recv-eintr :
      (n : ℕ) (acc : List ℕ) (w : W) (s : p.net.Sock)
      → w.errno ≡ p.net.eintr
      → after_recv again n acc w (got [], s) ≡ again n acc (record w { sock = s })
  unfolding after_recv
  after_recv-eintr n acc w s e = ground arith

  after_recv-other :
      (n : ℕ) (acc : List ℕ) (w : W) (s : p.net.Sock)
      → w.errno ≢ p.net.eintr
      → after_recv again n acc w (got [], s) ≡ Outcome.next none (record w { sock = s })
  unfolding after_recv
  after_recv-other n acc w s e = ground arith

module _ ⦃p : Platform⦄ (IsClosed : p.net.Sock → Type 0) (closing : Closing IsClosed) where
  loop_hangs :
      (fuel n : ℕ) (acc : List ℕ) (w : W)
      → IsClosed w.sock
      → w.errno ≡ p.net.eintr
      → recv_loop fuel (suc n) acc w ≡ fault hangs
  loop_hangs zero n acc w c e = unfold recv_loop in refl
  loop_hangs (suc fuel) n acc w c e =
      let (s', r, c') = closing.ends (suc n) w.sock c in
      recv_loop_step fuel n acc w
      ∙ rw r (after_recv-eintr (recv_loop fuel) (suc n) acc w s' e)
      ∙ loop_hangs fuel n acc (record w { sock = s' }) c' e

  -- Once a signal has interrupted the thread, so that `errno` is EINTR, `recv_fully` does not return on
  -- a connection that the peer has closed: however many calls of `recv` it makes, it goes on.
  pub recv_fully-closed_eintr :
      (fuel n : ℕ) (w : W)
      → IsClosed w.sock
      → w.errno ≡ p.net.eintr
      → recv_fully fuel (suc n) w ≡ fault hangs
  unfolding recv_fully
  recv_fully-closed_eintr fuel n w c e = loop_hangs fuel n [] w c e

  -- With any other `errno` it answers false after one call.
  pub recv_fully-closed :
      (fuel n : ℕ) (w : W)
      → IsClosed w.sock
      → w.errno ≢ p.net.eintr
      → (w' : W) × (recv_fully (suc fuel) (suc n) w ≡ Outcome.next none w')
  unfolding recv_fully
  recv_fully-closed fuel n w c e =
      let (s', r, c') = closing.ends (suc n) w.sock c in
      (
        record w { sock = s' },
        recv_loop_step fuel n [] w ∙ rw r (after_recv-other (recv_loop fuel) (suc n) [] w s' e),
      )
