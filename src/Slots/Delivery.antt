-- ===== src/Slots/Delivery.antt =====
-- Every step of the two threads keeps the invariant of `Slots.Invariant`.
use mefsc.Common.{
  ℕ, ◌≡◌, refl, sym, true, false, some, List, [], ◌∷◌, ◌++◌, arith, length, take, concat,
  take-append, append_assoc, append-nil, subst,
}
use mefsc.Slots.{Slot, slot0, slot1, at, put, init, finish}
use mefsc.Slots.Calls.{
  next_writable-eq-some, publish-eq-some, wait_ready-eq-slot, wait_ready-eq-closed,
  done_with-eq-some, next_writable-eq-none, wait_ready-eq-waits,
}
use mefsc.Slots.Threads.{
  block_free, stir_free, block_ready, stir_ready, idle, claimed, filled, finished, failed, waiting,
  holding, wrote, exited, System, fill, Step, claim, receive, hand_over, close, cut, give_up, get,
  write, give_back, stop, start, Reach, here, next,
}
use mefsc.Slots.Sleep.{block_free-Inv, stir_free-Inv, block_ready-Inv, stir_ready-Inv}
use mefsc.Slots.Invariant.{
  Inv, same_self, count-append, owners, bytes_in, to_come, at-put_self, bytes_in-put_slots,
  bytes_in-put_len, bytes_in-append, held-put,
}

module _ {chunks : List (List ℕ)} {x : System} (v : Inv chunks x) where
  claim-Inv :
      {c : List ℕ} {cs : List (List ℕ)} {s : Slot} {rest : List Slot}
      → x.producer ≡ idle (c ∷ cs)
      → x.buffer.cv_free ≡ false
      → x.buffer.free ≡ s ∷ rest
      → Inv chunks (record x {
        buffer = record x.buffer { producer_slot = some s; free = rest };
        producer = claimed s c cs;
      })
  claim-Inv e n f = record {
    owned = λ t. ground (arith, v.owned t);
    produced = ground (arith, v.produced);
    consumed = ground (arith, v.consumed);
    asleep_free = λ t. absurd (ground arith);
    asleep_ready = v.asleep_ready;
    stream = ground (arith, v.stream);
  }

  receive-Inv :
      {c : List ℕ} {cs : List (List ℕ)} {s : Slot}
      → x.producer ≡ claimed s c cs
      → Inv chunks (record x { buffer = fill s c x.buffer; producer = filled s c cs })
  receive-Inv {c} {cs} {s} e = record {
    owned = λ t. ground (arith, v.owned t);
    produced = (
      ground (arith, v.produced),
      ground (arith, v.produced),
      rw at-put_self (take-append c _ _ refl),
    );
    consumed = ground (arith, v.consumed);
    asleep_free = v.asleep_free;
    asleep_ready = v.asleep_ready;
    stream =
        rw
          (
            held-put x.buffer.slots s _ x.consumer (ground (arith, v.owned s, same_self s)),
            bytes_in-put_slots x.buffer.slots x.buffer.len s _ x.buffer.ready
                (ground (arith, v.owned s, same_self s)),
          )
          (ground (arith, v.stream));
  }

  hand_over-Inv :
      {c : List ℕ} {cs : List (List ℕ)} {s : Slot}
      → x.producer ≡ filled s c cs
      → Inv chunks (record x {
        buffer = record x.buffer {
          len = put x.buffer.len s (length c);
          ready = x.buffer.ready ++ (s ∷ []);
          cv_ready = false;
        };
        producer = idle cs;
      })
  hand_over-Inv {c} {cs} {s} e = record {
    owned = λ t. ground (arith, v.owned t, count-append t x.buffer.ready (s ∷ []));
    produced = ground (arith, v.produced);
    consumed = ground (arith, v.consumed);
    asleep_free = v.asleep_free;
    asleep_ready = λ t. absurd (ground arith);
    stream =
        rw
          (
            bytes_in-append x.buffer.slots (put x.buffer.len s (length c)) x.buffer.ready (s ∷ []),
            bytes_in-put_len x.buffer.slots x.buffer.len s (length c) x.buffer.ready
                (ground (arith, v.owned s, same_self s)),
            at-put_self,
          )
          (ground (
            arith,
            v.stream,
            v.produced,
            append-nil c,
            append_assoc (bytes_in x.buffer.slots x.buffer.len x.buffer.ready) c (concat cs),
          ));
  }

  close-Inv :
      {cs : List (List ℕ)}
      → x.producer ≡ idle cs
      → Inv chunks (record x { buffer = finish x.buffer; producer = finished cs })
  unfolding finish
  close-Inv e = record {
    owned = λ t. ground (arith, v.owned t);
    produced = refl;
    consumed = ground (arith, v.consumed);
    asleep_free = v.asleep_free;
    asleep_ready = λ t. absurd (ground arith);
    stream = ground (arith, v.stream);
  }

  give_up-Inv :
      {c : List ℕ} {cs : List (List ℕ)} {s : Slot}
      → x.producer ≡ claimed s c cs
      → Inv chunks (record x { buffer = finish x.buffer; producer = failed s c cs })
  unfolding finish
  give_up-Inv e = record {
    owned = λ t. ground (arith, v.owned t);
    produced = refl;
    consumed = ground (arith, v.consumed);
    asleep_free = v.asleep_free;
    asleep_ready = λ t. absurd (ground arith);
    stream = ground (arith, v.stream);
  }

  get-Inv :
      {s : Slot} {rest : List Slot}
      → x.consumer ≡ waiting
      → x.buffer.cv_ready ≡ false
      → x.buffer.ready ≡ s ∷ rest
      → Inv chunks (record x {
        buffer = record x.buffer { consumer_slot = some s; ready = rest };
        consumer = holding s (at x.buffer.len s);
      })
  get-Inv {s} {rest} e n f = record {
    owned = λ t. ground (arith, v.owned t);
    produced = ground (arith, v.produced);
    consumed = refl;
    asleep_free = v.asleep_free;
    asleep_ready = λ t. absurd (ground arith);
    stream = ground (
      arith,
      v.stream,
      append_assoc (take (at x.buffer.len s) (at x.buffer.slots s))
          (bytes_in x.buffer.slots x.buffer.len rest) (to_come x.producer),
    );
  }

  write-Inv :
      {s : Slot} {n : ℕ}
      → x.consumer ≡ holding s n
      → Inv chunks (record x { file = x.file ++ take n (at x.buffer.slots s); consumer = wrote s })
  write-Inv {s} {n} e = record {
    owned = λ t. ground (arith, v.owned t);
    produced = v.produced;
    consumed = ground (arith, v.consumed);
    asleep_free = v.asleep_free;
    asleep_ready = v.asleep_ready;
    stream = ground (
      arith,
      v.stream,
      append_assoc x.file (take n (at x.buffer.slots s))
          (bytes_in x.buffer.slots x.buffer.len x.buffer.ready ++ to_come x.producer),
    );
  }

  give_back-Inv :
      {s : Slot}
      → x.consumer ≡ wrote s
      → Inv chunks (record x {
        buffer = record x.buffer { free = x.buffer.free ++ (s ∷ []); cv_free = false };
        consumer = waiting;
      })
  give_back-Inv {s} e = record {
    owned = λ t. ground (arith, v.owned t, count-append t x.buffer.free (s ∷ []));
    produced = ground (arith, v.produced);
    consumed = tt;
    asleep_free = λ t. absurd (ground arith);
    asleep_ready = v.asleep_ready;
    stream = ground (arith, v.stream);
  }

  stop-Inv :
      x.consumer ≡ waiting
      → x.buffer.ready ≡ []
      → x.buffer.done ≡ true
      → Inv chunks (record x { consumer = exited })
  stop-Inv e f g = record {
    owned = λ t. ground (arith, v.owned t);
    produced = v.produced;
    consumed = (g, f);
    asleep_free = v.asleep_free;
    asleep_ready = v.asleep_ready;
    stream = ground (arith, v.stream);
  }

pub Step-Inv : {chunks : List (List ℕ)} {x y : System} → Step x y → Inv chunks x → Inv chunks y
Step-Inv {chunks} {x} (claim {c} {cs} {s} e n f) v =
    let (rest, g, h) = next_writable-eq-some x.buffer f in
    subst (λ b. Inv chunks (record x { buffer = b; producer = claimed s c cs })) (sym h)
      (claim-Inv v e n g)
Step-Inv (receive e) v = receive-Inv v e
Step-Inv {chunks} {x} (hand_over {c} {cs} {s} e f) v =
    subst (λ b. Inv chunks (record x { buffer = b; producer = idle cs }))
      (sym (publish-eq-some x.buffer (length c) (ground (arith, v.produced)) f)) (hand_over-Inv v e)
Step-Inv (close e) v = close-Inv v e
Step-Inv (cut e n) v = close-Inv v e
Step-Inv (give_up e) v = give_up-Inv v e
Step-Inv {chunks} {x} (get {s} {n} {b} e o f) v =
    let (rest, g, l, h) = wait_ready-eq-slot x.buffer f in
    subst (λ m. Inv chunks (record x { buffer = b; consumer = holding s m })) (sym l)
      (subst (λ b. Inv chunks (record x { buffer = b; consumer = holding s (at x.buffer.len s) }))
        (sym h) (get-Inv v e o g))
Step-Inv (write e) v = write-Inv v e
Step-Inv {chunks} {x} (give_back {s} e f) v =
    subst (λ b. Inv chunks (record x { buffer = b; consumer = waiting }))
      (sym (done_with-eq-some x.buffer (ground (arith, v.consumed)) f)) (give_back-Inv v e)
Step-Inv {chunks} {x} (stop e n f) v =
    let (g, h) = wait_ready-eq-closed x.buffer f in stop-Inv v e g h
Step-Inv {x} (block_free e n f) v = block_free-Inv v (next_writable-eq-none x.buffer f)
Step-Inv (stir_free e) v = stir_free-Inv v
Step-Inv {x} (block_ready e n f) v =
    let (g, h) = wait_ready-eq-waits x.buffer f in block_ready-Inv v g h
Step-Inv (stir_ready e) v = stir_ready-Inv v

start-Inv : (capacity : ℕ) (chunks : List (List ℕ)) → Inv chunks (start capacity chunks)
unfolding init
start-Inv capacity chunks = record {
  owned =
      λ t. elim t as (λ t. owners (start capacity chunks) t ≡ 1) [ slot0 ↦ refl | slot1 ↦ refl ];
  produced = refl;
  consumed = tt;
  asleep_free = λ t. absurd cc;
  asleep_ready = λ t. absurd cc;
  stream = refl;
}

pub Reach-Inv :
    {capacity : ℕ} {chunks : List (List ℕ)} {x : System} → Reach capacity chunks x → Inv chunks x
Reach-Inv {capacity} {chunks} here = start-Inv capacity chunks
Reach-Inv (next r s) = Step-Inv s (Reach-Inv r)
