-- ===== src/Slots/Sleep.antt =====
-- Going to sleep on a condition variable, and waking up, keep the invariant of `Slots.Invariant`.
use mefsc.Common.{ℕ, ◌≡◌, Bool, true, false, List, []}
use mefsc.Slots.{Buffer, sleep_free, sleep_ready, notify_free, notify_ready}
use mefsc.Slots.Threads.{
  Producer, idle, claimed, filled, finished, failed, Consumer, waiting, holding, wrote, exited,
  System,
}
use mefsc.Slots.Invariant.{Inv, Produced, Consumed}

-- Sleep changes nothing for the two threads.
module _ (b : Buffer) (free ready : Bool) where
  Produced-asleep :
      (q : Producer) → Produced b q → Produced (record b { cv_free = free; cv_ready = ready }) q
  Produced-asleep (idle cs) h = h
  Produced-asleep (claimed s c cs) h = h
  Produced-asleep (filled s c cs) h = h
  Produced-asleep (finished cs) h = h
  Produced-asleep (failed s c cs) h = h

  Consumed-asleep :
      (q : Consumer) → Consumed b q → Consumed (record b { cv_free = free; cv_ready = ready }) q
  Consumed-asleep waiting h = h
  Consumed-asleep (holding s n) h = h
  Consumed-asleep (wrote s) h = h
  Consumed-asleep exited h = h

module _ {chunks : List (List ℕ)} {x : System} (v : Inv chunks x) where
  pub block_free-Inv : x.buffer.free ≡ [] → Inv chunks (record x { buffer = sleep_free x.buffer })
  block_free-Inv e = record {
    owned = v.owned;
    produced = Produced-asleep x.buffer true x.buffer.cv_ready x.producer v.produced;
    consumed = Consumed-asleep x.buffer true x.buffer.cv_ready x.consumer v.consumed;
    asleep_free = λ t. e;
    asleep_ready = v.asleep_ready;
    stream = v.stream;
  }

  pub stir_free-Inv : Inv chunks (record x { buffer = notify_free x.buffer })
  stir_free-Inv = record {
    owned = v.owned;
    produced = Produced-asleep x.buffer false x.buffer.cv_ready x.producer v.produced;
    consumed = Consumed-asleep x.buffer false x.buffer.cv_ready x.consumer v.consumed;
    asleep_free = λ t. absurd cc;
    asleep_ready = v.asleep_ready;
    stream = v.stream;
  }

  pub block_ready-Inv :
      x.buffer.ready ≡ []
      → x.buffer.done ≡ false
      → Inv chunks (record x { buffer = sleep_ready x.buffer })
  block_ready-Inv e f = record {
    owned = v.owned;
    produced = Produced-asleep x.buffer x.buffer.cv_free true x.producer v.produced;
    consumed = Consumed-asleep x.buffer x.buffer.cv_free true x.consumer v.consumed;
    asleep_free = v.asleep_free;
    asleep_ready = λ t. (e, f);
    stream = v.stream;
  }

  pub stir_ready-Inv : Inv chunks (record x { buffer = notify_ready x.buffer })
  stir_ready-Inv = record {
    owned = v.owned;
    produced = Produced-asleep x.buffer x.buffer.cv_free false x.producer v.produced;
    consumed = Consumed-asleep x.buffer x.buffer.cv_free false x.consumer v.consumed;
    asleep_free = v.asleep_free;
    asleep_ready = λ t. absurd cc;
    stream = v.stream;
  }
