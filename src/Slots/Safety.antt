-- ===== src/Slots/Safety.antt =====
-- What the two threads of a file transfer may rely on.
use mefsc.Common.{ℕ, ◌≡◌, ◌≢◌, List, ◌++◌, arith, concat}
use mefsc.Slots.{Slot}
use mefsc.Slots.Threads.{claimed, holding, exited, System, Reach}
use mefsc.Slots.Invariant.{same_self, to_come}
use mefsc.Slots.Delivery.{Reach-Inv}

-- In every reachable state the slot that the receiving thread has claimed, and may be writing into,
-- is not the slot that the writing thread is reading.
pub claimed-ne-holding :
    {capacity n : ℕ} {chunks cs : List (List ℕ)} {c : List ℕ} {x : System} {s t : Slot}
    → Reach capacity chunks x
    → x.producer ≡ claimed s c cs
    → x.consumer ≡ holding t n
    → s ≢ t
claimed-ne-holding {x} {s} r p q e = ground (arith, (Reach-Inv r).owned s, same_self s)

-- When the writing thread has ended, the file holds exactly the published chunks in order: the file
-- and what the receiving thread had still to publish make up all the chunks.
pub file-exited :
    {capacity : ℕ} {chunks : List (List ℕ)} {x : System}
    → Reach capacity chunks x
    → x.consumer ≡ exited
    → x.file ++ to_come x.producer ≡ concat chunks
file-exited r e = let v = Reach-Inv r in ground (arith, v.stream, v.consumed)
