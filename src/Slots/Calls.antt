-- ===== src/Slots/Calls.antt =====
-- What a successful call of the buffer says of the buffer, and its effect.
use mefsc.Common.{ℕ, ◌≡◌, refl, Bool, true, false, none, some, List, [], ◌∷◌, ◌++◌, arith}
use mefsc.Slots.{
  Slot, at, put, Buffer, next_writable, take_free, publish, waits, closed, slot, wait_ready,
  take_ready, done_with,
}

module _ (b : Buffer) where
  take_free-eq-some :
      (free : List Slot) {s : Slot} {b' : Buffer}
      → take_free b free ≡ some (s, b')
      → (rest : List Slot) × (free ≡ s ∷ rest)
        × (b' ≡ record b { producer_slot = some s; free = rest })
  unfolding take_free
  take_free-eq-some [] e = cc
  take_free-eq-some (s ∷ rest) e = (rest, ground arith, ground arith)

  pub next_writable-eq-some :
      {s : Slot} {b' : Buffer}
      → next_writable b ≡ some (s, b')
      → (rest : List Slot) × (b.free ≡ s ∷ rest)
        × (b' ≡ record b { producer_slot = some s; free = rest })
  unfolding next_writable
  next_writable-eq-some e = take_free-eq-some b.free e

  pub publish-eq-some :
      (n : ℕ) {s : Slot} {b' : Buffer}
      → b.producer_slot ≡ some s
      → publish n b ≡ some b'
      → b' ≡ record b { len = put b.len s n; ready = b.ready ++ (s ∷ []); cv_ready = false }
  unfolding publish
  publish-eq-some n e h = ground arith

  take_ready-eq-slot :
      (ready : List Slot) (done : Bool) {s : Slot} {n : ℕ} {b' : Buffer}
      → take_ready b ready done ≡ slot s n b'
      → (rest : List Slot) × (ready ≡ s ∷ rest)
        × (n ≡ at b.len s)
        × (b' ≡ record b { consumer_slot = some s; ready = rest })
  unfolding take_ready
  take_ready-eq-slot [] false e = cc
  take_ready-eq-slot [] true e = cc
  take_ready-eq-slot (s ∷ rest) done e = (rest, ground arith, ground arith, ground arith)

  pub wait_ready-eq-slot :
      {s : Slot} {n : ℕ} {b' : Buffer}
      → wait_ready b ≡ slot s n b'
      → (rest : List Slot) × (b.ready ≡ s ∷ rest)
        × (n ≡ at b.len s)
        × (b' ≡ record b { consumer_slot = some s; ready = rest })
  unfolding wait_ready
  wait_ready-eq-slot e = take_ready-eq-slot b.ready b.done e

  take_ready-eq-closed :
      (ready : List Slot) (done : Bool)
      → take_ready b ready done ≡ closed
      → (ready ≡ []) × (done ≡ true)
  unfolding take_ready
  take_ready-eq-closed [] false e = cc
  take_ready-eq-closed [] true e = (refl, refl)
  take_ready-eq-closed (s ∷ rest) done e = cc

  pub wait_ready-eq-closed : wait_ready b ≡ closed → (b.ready ≡ []) × (b.done ≡ true)
  unfolding wait_ready
  wait_ready-eq-closed e = take_ready-eq-closed b.ready b.done e

  pub done_with-eq-some :
      {s : Slot} {b' : Buffer}
      → b.consumer_slot ≡ some s
      → done_with b ≡ some b'
      → b' ≡ record b { free = b.free ++ (s ∷ []); cv_free = false }
  unfolding done_with
  done_with-eq-some e h = ground arith

  take_free-eq-none : (free : List Slot) → take_free b free ≡ none → free ≡ []
  unfolding take_free
  take_free-eq-none [] e = refl
  take_free-eq-none (s ∷ rest) e = cc

  pub next_writable-eq-none : next_writable b ≡ none → b.free ≡ []
  unfolding next_writable
  next_writable-eq-none e = take_free-eq-none b.free e

  take_ready-eq-waits :
      (ready : List Slot) (done : Bool)
      → take_ready b ready done ≡ waits
      → (ready ≡ []) × (done ≡ false)
  unfolding take_ready
  take_ready-eq-waits [] false e = (refl, refl)
  take_ready-eq-waits [] true e = cc
  take_ready-eq-waits (s ∷ rest) done e = cc

  pub wait_ready-eq-waits : wait_ready b ≡ waits → (b.ready ≡ []) × (b.done ≡ false)
  unfolding wait_ready
  wait_ready-eq-waits e = take_ready-eq-waits b.ready b.done e

  -- When a call goes through.
  pub next_writable-some :
      {s : Slot} {rest : List Slot}
      → b.free ≡ s ∷ rest
      → next_writable b ≡ some (s, record b { producer_slot = some s; free = rest })
  unfolding next_writable
  next_writable-some e = ground arith

  pub publish-some :
      (n : ℕ) {s : Slot}
      → b.producer_slot ≡ some s
      → publish n b
        ≡ some (record b { len = put b.len s n; ready = b.ready ++ (s ∷ []); cv_ready = false })
  unfolding publish
  publish-some n e = ground arith

  pub wait_ready_slot :
      {s : Slot} {rest : List Slot}
      → b.ready ≡ s ∷ rest
      → wait_ready b ≡ slot s (at b.len s) (record b { consumer_slot = some s; ready = rest })
  unfolding wait_ready
  wait_ready_slot e = ground arith

  pub wait_ready_closed : b.ready ≡ [] → b.done ≡ true → wait_ready b ≡ closed
  unfolding wait_ready
  wait_ready_closed e f = ground arith

  pub done_with-some :
      {s : Slot}
      → b.consumer_slot ≡ some s
      → done_with b ≡ some (record b { free = b.free ++ (s ∷ []); cv_free = false })
  unfolding done_with
  done_with-some e = ground arith
