-- ===== src/Slots/Progress.antt =====
-- The two threads never block one another, and they come to an end.
use mefsc.Common.{
  ℕ, Bool, ◌+◌, ◌*◌, ◌≤◌, ◌≡◌, refl, true, false, Bool-cases, ◌⊎◌, inl, inr, List, [], ◌∷◌, arith,
  length, length-append,
}
use mefsc.Slots.{Slot, slot0, init, finish}
use mefsc.Slots.Calls.{
  next_writable-eq-some, publish-eq-some, wait_ready-eq-slot, done_with-eq-some, next_writable-some,
  publish-some, wait_ready_slot, wait_ready_closed, done_with-some,
}
use mefsc.Slots.Threads.{
  Producer, idle, claimed, filled, finished, failed, Consumer, waiting, holding, wrote, exited,
  System, Step, claim, receive, hand_over, close, cut, give_up, get, write, give_back, stop, Reach,
  here, next, IsOrderly, costs, blocks, stirs, steps, all_blocks, all_stirs, block_free,
  block_ready, stir_free, stir_ready,
}
use mefsc.Slots.Invariant.{Inv}
use mefsc.Slots.Delivery.{Reach-Inv}

abbrev Orderly : System → Type 0
Orderly x = (y : System) × (s : Step x y) × IsOrderly s

module _ {chunks : List (List ℕ)} {x : System} (v : Inv chunks x) where
  -- A thread whose condition is true does not sleep.
  awake_free : {s : Slot} {rest : List Slot} → x.buffer.free ≡ s ∷ rest → x.buffer.cv_free ≡ false
  awake_free f = elim (Bool-cases x.buffer.cv_free) [
    | inl t ↦ absurd (ground (arith, v.asleep_free t))
    | inr n ↦ n
  ]

  awake_ready :
      {s : Slot} {rest : List Slot} → x.buffer.ready ≡ s ∷ rest → x.buffer.cv_ready ≡ false
  awake_ready f = elim (Bool-cases x.buffer.cv_ready) [
    | inl t ↦ absurd (ground (arith, v.asleep_ready t))
    | inr n ↦ n
  ]

  awake_done : x.buffer.done ≡ true → x.buffer.cv_ready ≡ false
  awake_done d = elim (Bool-cases x.buffer.cv_ready) [
    | inl t ↦ absurd (ground (arith, v.asleep_ready t))
    | inr n ↦ n
  ]

  -- While the writing thread waits for a chunk, the receiving thread can go on, or has finished.
  producer_moves :
      (p : Producer) (free : List Slot)
      → x.consumer ≡ waiting
      → x.buffer.ready ≡ []
      → x.producer ≡ p
      → x.buffer.free ≡ free
      → Orderly x
  producer_moves (idle []) free w r e f = (_, close e, tt)
  producer_moves (idle (c ∷ cs)) [] w r e f = absurd (ground (arith, v.owned slot0))
  producer_moves (idle (c ∷ cs)) (s ∷ rest) w r e f =
      (_, claim e (awake_free f) (next_writable-some x.buffer f), tt)
  producer_moves (claimed s c cs) free w r e f = (_, receive e, tt)
  producer_moves (filled s c cs) free w r e f =
      (_, hand_over e (publish-some x.buffer (length c) {s = s} (ground (arith, v.produced))), tt)
  producer_moves (finished cs) free w r e f = (
    _,
    stop w (awake_done (ground (arith, v.produced)))
        (wait_ready_closed x.buffer r (ground (arith, v.produced))),
    tt,
  )
  producer_moves (failed s c cs) free w r e f = (
    _,
    stop w (awake_done (ground (arith, v.produced)))
        (wait_ready_closed x.buffer r (ground (arith, v.produced))),
    tt,
  )

  threads_move :
      (q : Consumer) (ready : List Slot)
      → x.consumer ≡ q
      → x.buffer.ready ≡ ready
      → (q ≡ exited) ⊎ Orderly x
  threads_move waiting [] e f = inr (producer_moves x.producer x.buffer.free e f refl refl)
  threads_move waiting (s ∷ rest) e f =
      inr (_, get e (awake_ready f) (wait_ready_slot x.buffer f), tt)
  threads_move (holding s n) ready e f = inr (_, write e, tt)
  threads_move (wrote s) ready e f =
      inr (_, give_back e (done_with-some x.buffer {s = s} (ground (arith, v.consumed))), tt)
  threads_move exited ready e f = inl refl

-- No deadlock and no lost notification: in every reachable state, threads asleep on the condition variables
-- included, the writing thread has ended, or some thread can take a step that neither ends the transfer
-- early, nor goes to sleep, nor is a spurious wake-up.
pub no_deadlock :
    {capacity : ℕ} {chunks : List (List ℕ)} {x : System}
    → Reach capacity chunks x
    → (x.consumer ≡ exited) ⊎ ((y : System) × (s : Step x y) × IsOrderly s)
no_deadlock {x} r = threads_move (Reach-Inv r) x.consumer x.buffer.ready refl refl

abbrev to_publish : Producer → ℕ
to_publish (idle cs) = 6 * length cs + 1
to_publish (claimed s c cs) = 6 * length cs + 6
to_publish (filled s c cs) = 6 * length cs + 5
to_publish (finished cs) = 0
to_publish (failed s c cs) = 0

abbrev to_write : Consumer → ℕ
to_write waiting = 1
to_write (holding s n) = 3
to_write (wrote s) = 2
to_write exited = 0

-- The steps that are left at most.
abbrev pub work : System → ℕ
work x = to_publish x.producer + 3 * length x.buffer.ready + to_write x.consumer

-- A step takes from the work, but for those into and out of sleep, which leave it.
Step-work :
    {chunks : List (List ℕ)} {x y : System} (s : Step x y)
    → Inv chunks x
    → work y + costs s ≤ work x
unfolding finish
Step-work {x} (claim e n f) v = let (rest, g, h) = next_writable-eq-some x.buffer f in ground arith
Step-work (receive e) v = ground arith
Step-work {x} (hand_over {c} {cs} {s} e f) v = ground (
  arith,
  publish-eq-some x.buffer (length c) {s = s} (ground (arith, v.produced)) f,
  length-append x.buffer.ready (s ∷ []),
)
Step-work (close e) v = ground arith
Step-work (cut e n) v = ground arith
Step-work (give_up e) v = ground arith
Step-work {x} (get e n f) v = let (rest, g, l, h) = wait_ready-eq-slot x.buffer f in ground arith
Step-work (write e) v = ground arith
Step-work {x} (give_back {s} e f) v =
    ground (arith, done_with-eq-some x.buffer {s = s} (ground (arith, v.consumed)) f)
Step-work (stop e n f) v = ground arith
Step-work (block_free e n f) v = omega arith
Step-work (block_ready e n f) v = omega arith
Step-work (stir_free e) v = omega arith
Step-work (stir_ready e) v = omega arith

abbrev awake : Bool → ℕ
awake true = 0
awake false = 1

-- A step other than into sleep wakes one thread at most.
Step-awake :
    {chunks : List (List ℕ)} {x y : System} (s : Step x y)
    → Inv chunks x
    → blocks s + awake y.buffer.cv_free + awake y.buffer.cv_ready
      ≤ costs s + stirs s + awake x.buffer.cv_free + awake x.buffer.cv_ready
unfolding finish
Step-awake {x} (claim e n f) v = let (rest, g, h) = next_writable-eq-some x.buffer f in ground arith
Step-awake (receive e) v = omega arith
Step-awake {x} (hand_over {c} {cs} {s} e f) v =
    ground (arith, publish-eq-some x.buffer (length c) {s = s} (ground (arith, v.produced)) f)
Step-awake (close e) v = ground arith
Step-awake (cut e n) v = ground arith
Step-awake (give_up e) v = ground arith
Step-awake {x} (get e n f) v = let (rest, g, l, h) = wait_ready-eq-slot x.buffer f in ground arith
Step-awake (write e) v = omega arith
Step-awake {x} (give_back {s} e f) v =
    ground (arith, done_with-eq-some x.buffer {s = s} (ground (arith, v.consumed)) f)
Step-awake (stop e n f) v = omega arith
Step-awake (block_free e n f) v = ground arith
Step-awake (block_ready e n f) v = ground arith
Step-awake (stir_free e) v = ground arith
Step-awake (stir_ready e) v = ground arith

all_blocks-le :
    {capacity : ℕ} {chunks : List (List ℕ)} {x : System} (r : Reach capacity chunks x)
    → all_blocks r + awake x.buffer.cv_free + awake x.buffer.cv_ready ≤ steps r + all_stirs r + 2
unfolding init
all_blocks-le here = omega arith
all_blocks-le (next r s) = omega (arith, all_blocks-le r, Step-awake s (Reach-Inv r))

work-le :
    {capacity : ℕ} {chunks : List (List ℕ)} {x : System} (r : Reach capacity chunks x)
    → steps r + work x ≤ 6 * length chunks + 2
unfolding init
work-le here = omega arith
work-le (next r s) = omega (arith, work-le r, Step-work s (Reach-Inv r))

-- Every interleaving ends: for n chunks the two threads take at most 6 * n + 2 steps, beside those into and
-- out of sleep; and the times that they go to sleep are at most two more than these steps and the spurious wake-ups.
pub steps-le :
    {capacity : ℕ} {chunks : List (List ℕ)} {x : System} (r : Reach capacity chunks x)
    → (steps r + work x ≤ 6 * length chunks + 2) × (all_blocks r ≤ steps r + all_stirs r + 2)
steps-le r = (work-le r, omega (arith, all_blocks-le r))
