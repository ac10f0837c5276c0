-- ===== src/Server/Pool/Shutdown.antt =====
-- A wake-up that is lost at the end of the server.
use mefsc.Common.{ℕ, ◌≤◌, ◌<◌, ◌≡◌, refl, ap, false, List, [], ◌∷◌, arith, All}
use mefsc.Server.Pool.{
  Worker, Main, Shared, Works, Mains, System, Step, work, run_main, signal, ring, type_q,
  HasReturned,
}
use mefsc.Server.Pool.Totals.{total, total-middle}

abbrev is_asleep : Worker → ℕ
is_asleep Worker.asleep = 1
is_asleep w = 0

-- `main` waits for the pool, nobody is about to notify, and a worker sleeps.
pub record Stuck (x : System) : Type 0 where
  pub waits : x.main ≡ Main.joining
  pub quiet : x.ringing ≡ false
  pub sleeper : 0 < total is_asleep x.workers

-- Neither a signal nor a spurious wake-up.
abbrev IsPlainWork : {b b' : Shared} {w w' : Worker} → Works b w b' w' → Type 0
IsPlainWork Works.wakes_spuriously = ⊥
IsPlainWork s = Unit

abbrev pub IsPlain : {x y : System} → Step x y → Type 0
IsPlain (work l r e s) = IsPlainWork s
IsPlain signal = ⊥
IsPlain s = Unit

pub data Run (x : System) : System → Type 0 where
  here : Run x x
  next : {y z : System} → Run x y → (s : Step y z) → IsPlain s → Run x z

Works-is_asleep :
    {b b' : Shared} {w w' : Worker} (s : Works b w b' w')
    → IsPlainWork s
    → is_asleep w ≤ is_asleep w'
Works-is_asleep (Works.goes_on e) p = omega arith
Works-is_asleep (Works.stops e) p = omega arith
Works-is_asleep (Works.waits e f) p = omega arith
Works-is_asleep (Works.enters e f) p = omega arith
Works-is_asleep Works.dozes p = omega arith
Works-is_asleep Works.wakes_spuriously p = elim p [ ]
Works-is_asleep (Works.quits e) p = omega arith
Works-is_asleep (Works.takes e f) p = omega arith
Works-is_asleep Works.fails_keys p = omega arith
Works-is_asleep Works.refuses p = omega arith
Works-is_asleep Works.erases p = omega arith
Works-is_asleep Works.closes p = omega arith
Works-is_asleep Works.leaves p = omega arith

none_asleep : (ws : List Worker) → All HasReturned ws → total is_asleep ws ≡ 0
none_asleep [] h = refl
none_asleep (w ∷ ws) h = omega (arith, none_asleep ws h.1, one w h.0)
  where
    one : (w : Worker) → HasReturned w → is_asleep w ≡ 0
    one Worker.returned u = refl
    one Worker.drowsy u = elim u [ ]
    one Worker.awake u = elim u [ ]
    one Worker.ready u = elim u [ ]
    one Worker.entering u = elim u [ ]
    one Worker.asleep u = elim u [ ]
    one (Worker.handling s) u = elim u [ ]
    one (Worker.erased s) u = elim u [ ]
    one Worker.closed u = elim u [ ]

not_joined :
    {b b' : Shared} {ws ws' : List Worker} {m m' : Main} {A : Type 0}
    → Mains b ws m b' ws' m'
    → m ≡ Main.joining
    → 0 < total is_asleep ws
    → A
not_joined (Mains.loops e) w s = absurd (cc)
not_joined (Mains.ends e) w s = absurd (cc)
not_joined (Mains.accepts t e) w s = absurd (cc)
not_joined (Mains.accept_fails e) w s = absurd (cc)
not_joined (Mains.accept_breaks e) w s = absurd (cc)
not_joined (Mains.breaks e) w s = absurd (cc)
not_joined (Mains.timeout_fails e) w s = absurd (cc)
not_joined (Mains.lists e) w s = absurd (cc)
not_joined (Mains.pushes e) w s = absurd (cc)
not_joined (Mains.notifies l r e) w s = absurd (cc)
not_joined (Mains.notifies_none e) w s = absurd (cc)
not_joined Mains.counts_total w s = absurd (cc)
not_joined Mains.counts_live w s = absurd (cc)
not_joined Mains.notifies_all w s = absurd (cc)
not_joined {ws} (Mains.joins e) w s = absurd (omega (arith, none_asleep ws e))

Step-Stuck : {x y : System} (s : Step x y) → IsPlain s → Stuck x → Stuck y
Step-Stuck {x} (work l r {w} {w'} e s) p v = record {
  waits = v.waits;
  quiet = v.quiet;
  sleeper = omega (
    arith,
    v.sleeper,
    ap (total is_asleep) e,
    total-middle is_asleep l w r,
    total-middle is_asleep l w' r,
    Works-is_asleep s p,
  );
}
Step-Stuck (run_main s) p v = not_joined s v.waits v.sleeper
Step-Stuck signal p v = elim p [ ]
Step-Stuck (ring e) p v = absurd (ground (arith, v.quiet))
Step-Stuck type_q p v = record { waits = v.waits; quiet = v.quiet; sleeper = v.sleeper }

Run-Stuck : {x y : System} → Run x y → Stuck x → Stuck y
Run-Stuck here v = v
Run-Stuck (next r s p) v = Step-Stuck s p (Run-Stuck r v)

-- The server does not stop: once `main` waits in `clean_all` while a worker sleeps and no handler is
-- about to notify, `main` still waits after any further steps, unless there is another signal or a
-- spurious wake-up.
pub joining-Stuck : {x y : System} → Run x y → Stuck x → y.main ≡ Main.joining
joining-Stuck r v = (Run-Stuck r v).waits
