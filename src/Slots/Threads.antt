-- ===== src/Slots/Threads.antt =====
-- The two threads over the buffer, as `WTFS_Handler__Server` and `decrypt_and_read_from_server` start
-- them: a producer that claims a slot, fills it and publishes it, chunk by chunk, and a writer that
-- appends each chunk to the file. The steps interleave in any order. A thread that sleeps on a condition
-- variable does nothing until it is woken, by a call of the other thread or spuriously; then it tests its
-- condition again.
use mefsc.Common.{ℕ, ◌+◌, ◌≡◌, true, false, none, some, List, [], ◌∷◌, ◌++◌, length, take, drop}
use mefsc.Slots.{
  Slot, at, put, Buffer, init, next_writable, publish, finish, waits, closed, slot, wait_ready,
  done_with, sleep_free, sleep_ready, notify_free, notify_ready,
}

-- Where the receiving thread stands, with the chunks that it has not yet published.
pub data Producer : Type 0 where
  idle : List (List ℕ) → Producer
  claimed : Slot → List ℕ → List (List ℕ) → Producer
  filled : Slot → List ℕ → List (List ℕ) → Producer
  finished : List (List ℕ) → Producer
  failed : Slot → List ℕ → List (List ℕ) → Producer

-- Where the writing thread stands.
pub data Consumer : Type 0 where
  waiting : Consumer
  holding : Slot → ℕ → Consumer
  wrote : Slot → Consumer
  exited : Consumer

pub record System : Type 0 where
  pub buffer : Buffer
  pub producer : Producer
  pub consumer : Consumer
  pub file : List ℕ

-- The chunk overwrites the front of the slot's memory.
abbrev pub fill : Slot → List ℕ → Buffer → Buffer
fill s c b = record b { slots = put b.slots s (c ++ drop (length c) (at b.slots s)) }

pub data Step (x : System) : System → Type 0 where
  claim :
      {c : List ℕ} {cs : List (List ℕ)} {s : Slot} {b : Buffer}
      → x.producer ≡ idle (c ∷ cs)
      → x.buffer.cv_free ≡ false
      → next_writable x.buffer ≡ some (s, b)
      → Step x (record x { buffer = b; producer = claimed s c cs })
  -- No slot is free: the receiving thread goes to sleep.
  block_free :
      {c : List ℕ} {cs : List (List ℕ)}
      → x.producer ≡ idle (c ∷ cs)
      → x.buffer.cv_free ≡ false
      → next_writable x.buffer ≡ none
      → Step x (record x { buffer = sleep_free x.buffer })
  -- It wakes up spuriously.
  stir_free : x.buffer.cv_free ≡ true → Step x (record x { buffer = notify_free x.buffer })
  receive :
      {c : List ℕ} {cs : List (List ℕ)} {s : Slot}
      → x.producer ≡ claimed s c cs
      → Step x (record x { buffer = fill s c x.buffer; producer = filled s c cs })
  hand_over :
      {c : List ℕ} {cs : List (List ℕ)} {s : Slot} {b : Buffer}
      → x.producer ≡ filled s c cs
      → publish (length c) x.buffer ≡ some b
      → Step x (record x { buffer = b; producer = idle cs })
  -- Every chunk is out: `finish`.
  close :
      x.producer ≡ idle [] → Step x (record x { buffer = finish x.buffer; producer = finished [] })
  -- The next chunk is not announced properly: `finish` at the head of the loop.
  cut :
      {c : List ℕ} {cs : List (List ℕ)}
      → x.producer ≡ idle (c ∷ cs)
      → x.buffer.cv_free ≡ false
      → Step x (record x { buffer = finish x.buffer; producer = finished (c ∷ cs) })
  -- `finish` with a slot claimed: the chunk did not arrive, or its decryption failed.
  give_up :
      {c : List ℕ} {cs : List (List ℕ)} {s : Slot}
      → x.producer ≡ claimed s c cs
      → Step x (record x { buffer = finish x.buffer; producer = failed s c cs })
  get :
      {s : Slot} {n : ℕ} {b : Buffer}
      → x.consumer ≡ waiting
      → x.buffer.cv_ready ≡ false
      → wait_ready x.buffer ≡ slot s n b
      → Step x (record x { buffer = b; consumer = holding s n })
  -- No chunk is ready: the writing thread goes to sleep.
  block_ready :
      x.consumer ≡ waiting
      → x.buffer.cv_ready ≡ false
      → wait_ready x.buffer ≡ waits
      → Step x (record x { buffer = sleep_ready x.buffer })
  -- It wakes up spuriously.
  stir_ready : x.buffer.cv_ready ≡ true → Step x (record x { buffer = notify_ready x.buffer })
  write :
      {s : Slot} {n : ℕ}
      → x.consumer ≡ holding s n
      → Step x (record x { file = x.file ++ take n (at x.buffer.slots s); consumer = wrote s })
  give_back :
      {s : Slot} {b : Buffer}
      → x.consumer ≡ wrote s
      → done_with x.buffer ≡ some b
      → Step x (record x { buffer = b; consumer = waiting })
  stop :
      x.consumer ≡ waiting
      → x.buffer.cv_ready ≡ false
      → wait_ready x.buffer ≡ closed
      → Step x (record x { consumer = exited })

abbrev pub start : ℕ → List (List ℕ) → System
start capacity chunks = record {
  buffer = init capacity;
  producer = idle chunks;
  consumer = waiting;
  file = [];
}

pub data Reach (capacity : ℕ) (chunks : List (List ℕ)) : System → Type 0 where
  here : Reach capacity chunks (start capacity chunks)
  next : {x y : System} → Reach capacity chunks x → Step x y → Reach capacity chunks y

-- A step that neither ends the transfer early, nor is a thread going to sleep or waking up spuriously.
abbrev pub IsOrderly : {x y : System} → Step x y → Type 0
IsOrderly (cut e n) = ⊥
IsOrderly (give_up e) = ⊥
IsOrderly (block_free e f g) = ⊥
IsOrderly (block_ready e f g) = ⊥
IsOrderly (stir_free e) = ⊥
IsOrderly (stir_ready e) = ⊥
IsOrderly _ = Unit

-- 1 for a step other than into or out of sleep.
abbrev pub costs : {x y : System} → Step x y → ℕ
costs (block_free e f g) = 0
costs (block_ready e f g) = 0
costs (stir_free e) = 0
costs (stir_ready e) = 0
costs _ = 1

-- 1 for a step into sleep.
abbrev pub blocks : {x y : System} → Step x y → ℕ
blocks (block_free e f g) = 1
blocks (block_ready e f g) = 1
blocks _ = 0

-- 1 for a spurious step out of sleep.
abbrev pub stirs : {x y : System} → Step x y → ℕ
stirs (stir_free e) = 1
stirs (stir_ready e) = 1
stirs _ = 0

module _ {capacity : ℕ} {chunks : List (List ℕ)} where
  -- The steps of a run, but for those into and out of sleep.
  abbrev pub steps : {x : System} → Reach capacity chunks x → ℕ
  steps here = 0
  steps (next r s) = costs s + steps r

  -- How often a thread has gone to sleep.
  abbrev pub all_blocks : {x : System} → Reach capacity chunks x → ℕ
  all_blocks here = 0
  all_blocks (next r s) = blocks s + all_blocks r

  -- How often one has woken up spuriously.
  abbrev pub all_stirs : {x : System} → Reach capacity chunks x → ℕ
  all_stirs here = 0
  all_stirs (next r s) = stirs s + all_stirs r
