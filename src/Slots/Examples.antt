-- ===== src/Slots/Examples.antt =====
-- A transfer of two chunks through the buffer, step by step.
use mefsc.Common.{ℕ, ◌+◌, ◌*◌, ◌≤◌, ◌≡◌, ◌≢◌, refl, ◌⊎◌, List, [], ◌∷◌, ◌++◌, concat}
use mefsc.Slots.{Slot, slot0, slot1}
use mefsc.Slots
use mefsc.Slots.Threads.{
  System, Step, claim, receive, hand_over, close, get, write, give_back, stop, Reach, here, next,
  exited, claimed, block_ready, holding, IsOrderly, steps, all_blocks, all_stirs, finished,
}
use mefsc.Slots.Invariant.{to_come}
use mefsc.Slots.Safety.{claimed-ne-holding, file-exited}
use mefsc.Slots.Progress.{no_deadlock, steps-le, work}

abbrev chunks : List (List ℕ)
chunks = (1 ∷ 2 ∷ []) ∷ (3 ∷ []) ∷ []

-- The writing thread goes to sleep and is woken by `publish`; it holds the first chunk while the receiving thread claims a slot for the second.
overlap :
    (x : System) × Reach 4 chunks x
    × (x.producer ≡ claimed slot1 (3 ∷ []) [])
    × (x.consumer ≡ holding slot0 2)
unfolding Slots.init Slots.next_writable Slots.publish Slots.wait_ready
overlap = (
  _,
  next
      (next
        (next
          (next (next (next here (block_ready refl refl refl)) (claim refl refl refl))
            (receive refl))
          (hand_over refl refl))
        (get refl refl refl))
      (claim refl refl refl),
  refl,
  refl,
)

claimed-ne-holding_example : slot1 ≢ slot0
claimed-ne-holding_example = claimed-ne-holding overlap.1 overlap.2 overlap.3

no_deadlock_example :
    (overlap.0.consumer ≡ exited) ⊎ ((y : System) × (s : Step overlap.0 y) × IsOrderly s)
no_deadlock_example = no_deadlock overlap.1

steps-le_example :
    (steps overlap.1 + work overlap.0 ≤ 6 * 2 + 2)
    × (all_blocks overlap.1 ≤ steps overlap.1 + all_stirs overlap.1 + 2)
steps-le_example = steps-le overlap.1

-- One chunk after the other goes through, and both threads end.
whole : (x : System) × Reach 4 chunks x × (x.consumer ≡ exited) × (x.producer ≡ finished [])
unfolding Slots.init Slots.next_writable Slots.publish Slots.wait_ready Slots.done_with Slots.finish
whole =
    let first =
      next (next (next here (claim refl refl refl)) (receive refl)) (hand_over refl refl) in
    let wrote_first =
      next (next (next first (get refl refl refl)) (write refl)) (give_back refl refl) in
    let second =
      next (next (next wrote_first (claim refl refl refl)) (receive refl)) (hand_over refl refl) in
    let wrote_second =
      next (next (next (next second (close refl)) (get refl refl refl)) (write refl))
        (give_back refl refl) in
    (_, next wrote_second (stop refl refl refl), refl, refl)

file-exited_example : whole.0.file ++ to_come whole.0.producer ≡ concat chunks
file-exited_example = file-exited whole.1 whole.2
