-- ===== src/Slots/Invariant.antt =====
-- What holds in every state of the two threads: who owns each slot, where each byte is, and that a thread
-- sleeps only while its condition is false.
use mefsc.Common.{
  ℕ, ◌+◌, ◌≡◌, refl, ap, true, false, some, List, [], ◌∷◌, ◌++◌, arith, length, take, concat,
  append_assoc,
}
use mefsc.Slots.{Slot, slot0, slot1, Pair, at, put, Buffer}
use mefsc.Slots.Threads.{
  Producer, idle, claimed, filled, finished, failed, Consumer, waiting, holding, wrote, exited,
  System,
}

abbrev pub same : Slot → Slot → ℕ
same slot0 slot0 = 1
same slot1 slot1 = 1
same _ _ = 0

abbrev pub count : Slot → List Slot → ℕ
count t [] = 0
count t (s ∷ ss) = same t s + count t ss

abbrev pub produces : Slot → Producer → ℕ
produces t (claimed s c cs) = same t s
produces t (filled s c cs) = same t s
produces t (failed s c cs) = same t s
produces t _ = 0

abbrev pub consumes : Slot → Consumer → ℕ
consumes t (holding s n) = same t s
consumes t (wrote s) = same t s
consumes t _ = 0

-- The owners of a slot: the two queues and the two threads.
abbrev pub owners : System → Slot → ℕ
owners x t =
    count t x.buffer.free + count t x.buffer.ready + produces t x.producer + consumes t x.consumer

abbrev pub bytes_in : Pair (List ℕ) → Pair ℕ → List Slot → List ℕ
bytes_in m n [] = []
bytes_in m n (s ∷ ss) = take (at n s) (at m s) ++ bytes_in m n ss

abbrev pub held : Pair (List ℕ) → Consumer → List ℕ
held m (holding s n) = take n (at m s)
held m _ = []

abbrev pub to_come : Producer → List ℕ
to_come (idle cs) = concat cs
to_come (claimed s c cs) = c ++ concat cs
to_come (filled s c cs) = c ++ concat cs
to_come (finished cs) = concat cs
to_come (failed s c cs) = c ++ concat cs

-- What the receiving thread's place says of the buffer.
abbrev pub Produced : Buffer → Producer → Type 0
Produced b (idle cs) = b.done ≡ false
Produced b (claimed s c cs) = (b.producer_slot ≡ some s) × (b.done ≡ false)
Produced b (filled s c cs) =
    (b.producer_slot ≡ some s) × (b.done ≡ false) × (take (length c) (at b.slots s) ≡ c)
Produced b (finished cs) = b.done ≡ true
Produced b (failed s c cs) = b.done ≡ true

abbrev pub Consumed : Buffer → Consumer → Type 0
Consumed b waiting = Unit
Consumed b (holding s n) = b.consumer_slot ≡ some s
Consumed b (wrote s) = b.consumer_slot ≡ some s
Consumed b exited = (b.done ≡ true) × (b.ready ≡ [])

pub record Inv (chunks : List (List ℕ)) (x : System) : Type 0 where
  pub owned : (t : Slot) → owners x t ≡ 1
  pub produced : Produced x.buffer x.producer
  pub consumed : Consumed x.buffer x.consumer
  pub asleep_free : x.buffer.cv_free ≡ true → x.buffer.free ≡ []
  pub asleep_ready : x.buffer.cv_ready ≡ true → (x.buffer.ready ≡ []) × (x.buffer.done ≡ false)
  pub stream :
      x.file
        ++ (held x.buffer.slots x.consumer
            ++ (bytes_in x.buffer.slots x.buffer.len x.buffer.ready ++ to_come x.producer))
      ≡ concat chunks

pub count-append : (t : Slot) (xs ys : List Slot) → count t (xs ++ ys) ≡ count t xs + count t ys
count-append t [] ys = omega arith
count-append t (s ∷ xs) ys = omega (arith, count-append t xs ys)

pub same_self : (s : Slot) → same s s ≡ 1
same_self slot0 = refl
same_self slot1 = refl

pub at-put_ne {ℓ} :
    {A : Type ℓ} (p : Pair A) (s t : Slot) (a : A) → same s t ≡ 0 → at (put p s a) t ≡ at p t
at-put_ne p slot0 slot0 a h = absurd (omega arith)
at-put_ne p slot0 slot1 a h = refl
at-put_ne p slot1 slot0 a h = refl
at-put_ne p slot1 slot1 a h = absurd (omega arith)

pub at-put_self {ℓ} : {A : Type ℓ} (p : Pair A) (s : Slot) (a : A) → at (put p s a) s ≡ a
at-put_self p slot0 a = refl
at-put_self p slot1 a = refl

module _ (m : Pair (List ℕ)) (n : Pair ℕ) (s : Slot) where
  pub bytes_in-put_slots :
      (v : List ℕ) (ss : List Slot) → count s ss ≡ 0 → bytes_in (put m s v) n ss ≡ bytes_in m n ss
  bytes_in-put_slots v [] h = refl
  bytes_in-put_slots v (t ∷ ss) h =
      rw (at-put_ne m s t v (omega arith), bytes_in-put_slots v ss (omega arith))

  pub bytes_in-put_len :
      (v : ℕ) (ss : List Slot) → count s ss ≡ 0 → bytes_in m (put n s v) ss ≡ bytes_in m n ss
  bytes_in-put_len v [] h = refl
  bytes_in-put_len v (t ∷ ss) h =
      rw (at-put_ne n s t v (omega arith), bytes_in-put_len v ss (omega arith))

pub bytes_in-append :
    (m : Pair (List ℕ)) (n : Pair ℕ) (xs ys : List Slot)
    → bytes_in m n (xs ++ ys) ≡ bytes_in m n xs ++ bytes_in m n ys
bytes_in-append m n [] ys = refl
bytes_in-append m n (s ∷ xs) ys = rw (bytes_in-append m n xs ys, append_assoc)

pub held-put :
    (m : Pair (List ℕ)) (s : Slot) (v : List ℕ) (p : Consumer)
    → consumes s p ≡ 0
    → held (put m s v) p ≡ held m p
held-put m s v waiting h = refl
held-put m s v (holding t n) h = ap (take n) (at-put_ne m s t v h)
held-put m s v (wrote t) h = refl
held-put m s v exited h = refl
