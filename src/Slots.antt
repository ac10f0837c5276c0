-- ===== src/Slots.antt =====
-- include/common/TwoSlotBuffer.h: the two-slot buffer between the thread that receives a file and
-- the thread that writes it. The mutex makes each call one step. A call whose condition is false answers
-- `none` or `waits`, and its thread then sleeps on the condition variable until a call wakes it. An index
-- into `slots_[2]` is a `Slot`.
pub mod Threads
pub mod Calls
pub mod Invariant
pub mod Sleep
pub mod Delivery
pub mod Safety
pub mod Progress
mod Examples
use mefsc.Common.{ℕ, Bool, true, false, Option, none, some, List, [], ◌∷◌, ◌++◌, replicate}

pub data Slot : Type 0 where
  slot0 slot1 : Slot

-- An array with one entry for each slot.
pub record Pair {ℓ} (A : Type ℓ) : Type ℓ where
  pub at0 : A
  pub at1 : A

module _ {ℓ} {A : Type ℓ} where
  abbrev pub at : Pair A → Slot → A
  at p slot0 = p.at0
  at p slot1 = p.at1

  abbrev pub put : Pair A → Slot → A → Pair A
  put p slot0 a = record p { at0 = a }
  put p slot1 a = record p { at1 = a }

-- `producer_slot_` and `consumer_slot_` are -1 at first: `none`.
pub record Buffer : Type 0 where
  pub capacity : ℕ
  pub slots : Pair (List ℕ)
  pub len : Pair ℕ
  pub producer_slot : Option Slot
  pub consumer_slot : Option Slot
  pub free : List Slot
  pub ready : List Slot
  pub cv_free : Bool  -- a thread sleeps on `cv_free_`
  pub cv_ready : Bool  -- a thread sleeps on `cv_ready_`
  pub done : Bool

-- The constructor.
unfoldable pub init : ℕ → Buffer
init capacity = record {
  capacity = capacity;
  slots = record { at0 = replicate capacity 0; at1 = replicate capacity 0 };
  len = record { at0 = 0; at1 = 0 };
  producer_slot = none;
  consumer_slot = none;
  free = slot0 ∷ slot1 ∷ [];
  ready = [];
  cv_free = false;
  cv_ready = false;
  done = false;
}

take_free : Buffer → List Slot → Option (Slot × Buffer)
take_free b [] = none
take_free b (s ∷ rest) = some (s, record b { producer_slot = some s; free = rest })

-- `cv_free_.wait`, `cv_ready_.wait`: the calling thread goes to sleep.
abbrev pub sleep_free : Buffer → Buffer
sleep_free b = record b { cv_free = true }

abbrev pub sleep_ready : Buffer → Buffer
sleep_ready b = record b { cv_ready = true }

-- `cv_free_.notify_one`, `cv_ready_.notify_one` and `cv_ready_.notify_all`, with one thread at each end.
abbrev pub notify_free : Buffer → Buffer
notify_free b = record b { cv_free = false }

abbrev pub notify_ready : Buffer → Buffer
notify_ready b = record b { cv_ready = false }

-- `none` is a false condition: no slot is free.
pub next_writable : Buffer → Option (Slot × Buffer)
unfolding take_free
next_writable b = take_free b b.free

publish_slot : Buffer → ℕ → Option Slot → Option Buffer
publish_slot b filled_len none = none
publish_slot b filled_len (some s) =
    some (notify_ready (record b { len = put b.len s filled_len; ready = b.ready ++ (s ∷ []) }))

-- `none` is the index -1, which the program never uses.
pub publish : ℕ → Buffer → Option Buffer
unfolding publish_slot
publish filled_len b = publish_slot b filled_len b.producer_slot

pub finish : Buffer → Buffer
finish b = notify_ready (record b { done = true })

-- What `wait_ready` answers: it waits, the null pointer, or a slot and its length.
pub data Ready : Type 0 where
  waits : Ready
  closed : Ready
  slot : Slot → ℕ → Buffer → Ready

take_ready : Buffer → List Slot → Bool → Ready
take_ready b [] false = waits
take_ready b [] true = closed
take_ready b (s ∷ rest) done =
    slot s (at b.len s) (record b { consumer_slot = some s; ready = rest })

pub wait_ready : Buffer → Ready
unfolding take_ready
wait_ready b = take_ready b b.ready b.done

done_with_slot : Buffer → Option Slot → Option Buffer
done_with_slot b none = none
done_with_slot b (some s) = some (notify_free (record b { free = b.free ++ (s ∷ []) }))

pub done_with : Buffer → Option Buffer
unfolding done_with_slot
done_with b = done_with_slot b b.consumer_slot
