-- ===== src/Server/Pool/Exclusive.antt =====
-- A connection is in one pair of hands at a time.
use mefsc.Common.{
  ℕ, ◌+◌, ◌≤◌, ◌≡◌, refl, ap, ◌∙◌, true, List, [], ◌∷◌, ◌++◌, arith, ◌==◌, ==_refl, if◌then◌else◌,
}
use mefsc.Server.Pool.{
  Worker, entering, asleep, handling, Main, Shared, Works, Mains, System, Step, work, run_main,
  signal, ring, type_q, Reach, here, next,
}
use mefsc.Server.Pool.Totals.{total, total-middle, total-woken, serves, count, count-append, bit}

-- The socket that `main` has taken and not yet queued.
abbrev pub main_has : ℕ → Main → ℕ
main_has s (Main.took t) = if t == s then 1 else 0
main_has s (Main.listed t) = if t == s then 1 else 0
main_has s m = 0

abbrev uses : ℕ → System → ℕ
uses s x = main_has s x.main + (count s x.shared.queue + total (serves s) x.workers)

-- `n` is how often the others have it.
Works-uses :
    {b b' : Shared} {w w' : Worker} (s n : ℕ)
    → Works b w b' w'
    → n + (count s b.queue + serves s w) ≤ bit (b.is_open s)
    → n + (count s b'.queue + serves s w') ≤ bit (b'.is_open s)
Works-uses s n (Works.goes_on e) h = h
Works-uses s n (Works.stops e) h = h
Works-uses s n (Works.waits e f) h = h
Works-uses s n (Works.enters e f) h = h
Works-uses s n Works.dozes h = h
Works-uses s n Works.wakes_spuriously h = h
Works-uses s n (Works.quits e) h = h
Works-uses {b} s n (Works.takes {s = t} {rest} e f) h = omega (arith, ap (count s) f)
Works-uses {b} s n (Works.fails_keys {s = t}) h = omega arith
Works-uses s n Works.refuses h = omega arith
Works-uses s n Works.erases h = h
Works-uses {b} s n (Works.closes {s = t}) h = ground arith
Works-uses s n Works.leaves h = h

Mains-uses :
    {b b' : Shared} {ws ws' : List Worker} {m m' : Main} (s : ℕ)
    → Mains b ws m b' ws' m'
    → main_has s m + (count s b.queue + total (serves s) ws) ≤ bit (b.is_open s)
    → main_has s m' + (count s b'.queue + total (serves s) ws') ≤ bit (b'.is_open s)
Mains-uses s (Mains.loops e) h = h
Mains-uses s (Mains.ends e) h = h
Mains-uses {b} s (Mains.accepts t e) h = ground arith
Mains-uses s (Mains.accept_fails e) h = h
Mains-uses s (Mains.accept_breaks e) h = h
Mains-uses {b} s (Mains.breaks {s = t} e) h = ground arith
Mains-uses {b} s (Mains.timeout_fails {s = t} e) h = ground arith
Mains-uses s (Mains.lists e) h = h
Mains-uses {b} s (Mains.pushes {s = t} e) h = omega (arith, count-append s b.queue (t ∷ []))
Mains-uses {b} {ws} s (Mains.notifies l r e) h = omega (
  arith,
  ap (total (serves s)) e,
  total-middle (serves s) l asleep r,
  total-middle (serves s) l entering r,
)
Mains-uses s (Mains.notifies_none e) h = h
Mains-uses s Mains.counts_total h = h
Mains-uses s Mains.counts_live h = h
Mains-uses {ws} s Mains.notifies_all h = omega (arith, total-woken (serves s) ws refl)
Mains-uses s (Mains.joins e) h = h

Step-uses :
    {x y : System} (s : ℕ)
    → Step x y
    → uses s x ≤ bit (x.shared.is_open s)
    → uses s y ≤ bit (y.shared.is_open s)
Step-uses {x} s (work l r {w} {w'} e t) h = omega (
  arith,
  ap (total (serves s)) e,
  total-middle (serves s) l w r,
  total-middle (serves s) l w' r,
  Works-uses s (main_has s x.main + total (serves s) (l ++ r)) t
      (omega (arith, ap (total (serves s)) e, total-middle (serves s) l w r)),
)
Step-uses s (run_main t) h = Mains-uses s t h
Step-uses s signal h = h
Step-uses {x} s (ring e) h = omega (arith, total-woken (serves s) x.workers refl)
Step-uses s type_q h = h

Reach-uses : {x : System} (s : ℕ) → Reach x → uses s x ≤ bit (x.shared.is_open s)
Reach-uses s here = omega arith
Reach-uses s (next r t) = Step-uses s t (Reach-uses s r)

-- In every reachable state, a connection that a worker handles is open, is not queued, is not in the
-- hands of `main`, and no other worker has it.
pub handling-alone :
    {x : System} (s : ℕ) (l r : List Worker)
    → Reach x
    → x.workers ≡ l ++ (handling s ∷ r)
    → (x.shared.is_open s ≡ true)
      × (count s x.shared.queue ≡ 0)
      × (main_has s x.main ≡ 0)
      × (total (serves s) (l ++ r) ≡ 0)
handling-alone {x} s l r reach e =
    let u : uses s x ≤ bit (x.shared.is_open s) = Reach-uses s reach in
    let m : total (serves s) x.workers ≡ 1 + total (serves s) (l ++ r) =
      ap (total (serves s)) e ∙ total-middle (serves s) l (handling s) r ∙ rw (==_refl s) refl in
    (ground (arith, u, m), ground (arith, u, m), ground (arith, u, m), ground (arith, u, m))
