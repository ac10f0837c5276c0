-- ===== src/Server/Pool/Examples.antt =====
-- Two runs of the server: one in which a worker takes a connection, and one that does not end.
use mefsc.Common.{◌+◌, ◌-◌, ◌%◌, ◌^◌, ◌≡◌, refl, true, false, List, [], ◌∷◌, ◌++◌, arith, replicate}
use mefsc.Server.Pool.{
  Worker, ready, asleep, handling, Main, Works, Mains, System, work, run_main, type_q, start,
  set_open, Reach, here, next,
}
use mefsc.Server.Pool.Totals.{total, serves, sleepy, count}
use mefsc.Server.Pool.Invariant.{Inv, Reach-Inv}
use mefsc.Server.Pool.Exclusive.{main_has, handling-alone}
use mefsc.Server.Pool.Wakeups.{queue-attended}
use mefsc.Server.Pool.Counters.{put, got, live_connections-balance, queue-in_order}
use mefsc.Server.Pool.Shutdown.{Run, joining-Stuck}

-- The other workers.
abbrev others : List Worker
others = replicate 7 ready

-- The connection 5 is in the queue.
abbrev queued : System
queued = record start {
  shared = record (set_open 5 true start.shared) { clients = 5 ∷ []; queue = 5 ∷ [] };
  main = Main.notified;
}

abbrev to_queued : Reach queued
to_queued =
    next
      (next
        (next (next (next here (run_main (Mains.loops refl))) (run_main (Mains.accepts 5 refl)))
          (run_main (Mains.lists refl)))
        (run_main (Mains.pushes refl)))
      (run_main (Mains.notifies_none (tt, (tt, (tt, (tt, (tt, (tt, (tt, (tt, tt))))))))))

-- A worker has taken it.
abbrev handled : System
handled = record queued {
  shared = record (set_open 5 true start.shared) { clients = 5 ∷ [] };
  workers = handling 5 ∷ others;
}

abbrev to_handled : Reach handled
to_handled =
    next
      (next (next to_queued (work [] others refl (Works.goes_on refl)))
        (work [] others refl (Works.enters refl refl)))
      (work [] others refl (Works.takes refl refl))

Reach-Inv_example : Inv handled
Reach-Inv_example = Reach-Inv to_handled

handling-alone_example :
    (handled.shared.is_open 5 ≡ true)
    × (count 5 handled.shared.queue ≡ 0)
    × (main_has 5 handled.main ≡ 0)
    × (total (serves 5) ([] ++ others) ≡ 0)
handling-alone_example = handling-alone 5 [] others to_handled refl

queue-attended_example :
    (l : List Worker) × (w : Worker) × (r : List Worker) × (queued.workers ≡ l ++ (w ∷ r))
    × (sleepy w ≡ 0)
queue-attended_example = queue-attended 5 [] to_queued refl (λ e. absurd (cc))

-- The worker refuses the connection, before `main` has counted it.
abbrev to_refused : Reach (record handled {
  shared = record handled.shared { live_connections = 2 ^ 64 - 1 };
  workers = ready ∷ others;
})
to_refused = next to_handled (work [] others refl Works.refuses)

live_connections-balance_example : (2 ^ 64 - 1 + 1) % 2 ^ 64 ≡ 0
live_connections-balance_example = live_connections-balance to_refused

queue-in_order_example : got to_handled ++ [] ≡ put to_handled
queue-in_order_example = queue-in_order to_handled

-- A worker that is about to sleep when the server stops.
abbrev stuck : System
stuck = record start {
  shared = record start.shared { alive = false };
  main = Main.joining;
  workers = asleep ∷ others;
}

to_stuck : Reach stuck
to_stuck =
    next
      (next
        (next
          (next
            (next
              (next (next here (run_main (Mains.loops refl)))
                (work [] others refl (Works.goes_on refl)))
              (work [] others refl (Works.waits refl refl)))
            type_q)
          (run_main (Mains.accept_breaks refl)))
        (run_main Mains.notifies_all))
      (work [] others refl Works.dozes)

joining-Stuck_example : stuck.main ≡ Main.joining
joining-Stuck_example =
    joining-Stuck {x = stuck} (Run.next Run.here type_q tt)
      (record { waits = refl; quiet = refl; sleeper = omega arith })
