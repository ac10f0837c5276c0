-- ===== src/Wire/Examples.antt =====
-- The wire functions on the connection in memory.
use mefsc.Common.{ℕ, zero, suc, ◌≡◌, refl, some, [], ◌∷◌, ◌++◌, arith}
use mefsc.Platform.{W, got}
use mefsc.Platform.Toy.{Line, toy, view, reliable, world}
use mefsc.Outcome.{fault, hangs}
use mefsc.Wire.{recv_fully, recv_raw_blob}
use mefsc.Wire.Receive.{Gives, recv_fully-receives}
use mefsc.Wire.Blobs.{blob, recv_raw_blob-receives}
use mefsc.Wire.Closed.{Closing, recv_fully-closed_eintr}

recv_fully-receives_example :
    Gives view
      (recv_fully 5 3 (world (1 ∷ 2 ∷ 3 ∷ 4 ∷ []) 2))
      (some (1 ∷ 2 ∷ 3 ∷ []))
      (world (1 ∷ 2 ∷ 3 ∷ 4 ∷ []) 2)
      (4 ∷ [])
recv_fully-receives_example =
    recv_fully-receives view reliable 5 3 (1 ∷ 2 ∷ 3 ∷ []) (4 ∷ []) (world (1 ∷ 2 ∷ 3 ∷ 4 ∷ []) 2)
      refl refl (omega arith)

recv_raw_blob-receives_example :
    Gives view
      (recv_raw_blob 20 10 (world (blob (5 ∷ 6 ∷ []) ++ (9 ∷ [])) 1))
      (some (5 ∷ 6 ∷ []))
      (world (blob (5 ∷ 6 ∷ []) ++ (9 ∷ [])) 1)
      (9 ∷ [])
recv_raw_blob-receives_example =
    recv_raw_blob-receives view reliable 20 10 (5 ∷ 6 ∷ []) (9 ∷ [])
      (world (blob (5 ∷ 6 ∷ []) ++ (9 ∷ [])) 1) (omega arith) (omega arith) (omega arith) refl

-- The connection with nothing left in it, and no signal to come.
abbrev IsClosed : Line → Type 0
IsClosed s = s ≡ (world [] 0).sock

receives_nothing : (n : ℕ) → toy.net.recv n (world [] 0).sock ≡ (got [], (world [] 0).sock)
receives_nothing zero = refl
receives_nothing (suc n) = refl

closing : Closing IsClosed
closing = record { ends = λ n s c. ((world [] 0).sock, rw c (receives_nothing n), refl) }

-- A signal interrupted an earlier call.
abbrev interrupted_world : W
interrupted_world = record (world [] 0) { errno = 4 }

recv_fully-closed_eintr_example : recv_fully 1000 8 interrupted_world ≡ fault hangs
recv_fully-closed_eintr_example =
    recv_fully-closed_eintr IsClosed closing 1000 7 interrupted_world refl refl
