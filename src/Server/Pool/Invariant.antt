-- ===== src/Server/Pool/Invariant.antt =====
-- What holds in every reachable state of the mutex, the size of the pool and the workers that wait.
use mefsc.Common.{
  ℕ, ◌+◌, ◌≤◌, ◌≡◌, refl, sym, ap, ◌∙◌, false, List, [], ◌∷◌, ◌++◌, arith, length, length-append,
}
use mefsc.Server.Pool.{
  Worker, entering, asleep, Main, Shared, Works, Mains, System, Step, work, run_main, signal, ring,
  type_q, Reach, here, next, is_empty, pool_size,
}
use mefsc.Server.Pool.Totals.{
  total, total-middle, total-woken, length-map-woken, holds, is_drowsy, bit,
}

-- The mutex is locked exactly if one worker holds it; no worker is ever lost; and while a connection
-- is queued, no worker stands between a look at an empty queue and its sleep.
pub record Inv (x : System) : Type 0 where
  pub mutex : total holds x.workers ≡ bit x.shared.locked
  pub size : length x.workers ≡ pool_size
  pub looked : is_empty x.shared.queue ≡ false → total is_drowsy x.workers ≡ 0

is_drowsy-le : (ws : List Worker) → total is_drowsy ws ≤ total holds ws
is_drowsy-le [] = omega arith
is_drowsy-le (w ∷ ws) = omega (arith, is_drowsy-le ws, one w)
  where
    one : (w : Worker) → is_drowsy w ≤ holds w
    one Worker.drowsy = omega arith
    one Worker.awake = omega arith
    one Worker.ready = omega arith
    one Worker.entering = omega arith
    one Worker.asleep = omega arith
    one (Worker.handling s) = omega arith
    one (Worker.erased s) = omega arith
    one Worker.closed = omega arith
    one Worker.returned = omega arith

Works-holds :
    {b b' : Shared} {w w' : Worker}
    → Works b w b' w'
    → holds w ≤ bit b.locked
    → holds w' + bit b.locked ≡ holds w + bit b'.locked
Works-holds (Works.goes_on e) h = omega arith
Works-holds (Works.stops e) h = omega arith
Works-holds (Works.waits e f) h = ground arith
Works-holds (Works.enters e f) h = ground arith
Works-holds Works.dozes h = ground arith
Works-holds Works.wakes_spuriously h = omega arith
Works-holds (Works.quits e) h = ground arith
Works-holds (Works.takes e f) h = ground arith
Works-holds Works.fails_keys h = omega arith
Works-holds Works.refuses h = omega arith
Works-holds Works.erases h = omega arith
Works-holds Works.closes h = omega arith
Works-holds Works.leaves h = omega arith

-- `n` is how many of the other workers are drowsy.
Works-looked :
    {b b' : Shared} {w w' : Worker} (n : ℕ)
    → Works b w b' w'
    → (is_empty b.queue ≡ false → is_drowsy w + n ≡ 0)
    → is_empty b'.queue ≡ false
    → is_drowsy w' + n ≡ 0
Works-looked n (Works.goes_on e) h q = omega (arith, h q)
Works-looked n (Works.stops e) h q = omega (arith, h q)
Works-looked {b} n (Works.waits e f) h q = ground (arith, h)
Works-looked n (Works.enters e f) h q = omega (arith, h q)
Works-looked n Works.dozes h q = omega (arith, h q)
Works-looked n Works.wakes_spuriously h q = omega (arith, h q)
Works-looked n (Works.quits e) h q = omega (arith, h q)
Works-looked {b} n (Works.takes e f) h q = omega (arith, h (ap is_empty f))
Works-looked n Works.fails_keys h q = omega (arith, h q)
Works-looked n Works.refuses h q = omega (arith, h q)
Works-looked n Works.erases h q = omega (arith, h q)
Works-looked n Works.closes h q = omega (arith, h q)
Works-looked n Works.leaves h q = omega (arith, h q)

-- The total over the workers, one of which moves.
moved :
    (f : Worker → ℕ) (l r ws : List Worker) (w : Worker)
    → ws ≡ l ++ (w ∷ r)
    → total f ws ≡ f w + total f (l ++ r)
moved f l r ws w e = ap (total f) e ∙ total-middle f l w r

work-Inv :
    {x : System} (l r : List Worker) {w w' : Worker} {b : Shared}
    → x.workers ≡ l ++ (w ∷ r)
    → Works x.shared w b w'
    → Inv x
    → Inv (record x { shared = b; workers = l ++ (w' ∷ r) })
work-Inv {x} l r {w} {w'} {b} e s v =
    let m = moved holds l r x.workers w e in
    let d = moved is_drowsy l r x.workers w e in
    let h = Works-holds s (ground (arith, v.mutex, m)) in
    record {
      mutex = omega (arith, h, m, v.mutex, total-middle holds l w' r);
      size = omega (arith, ap length e, v.size, length-append l (w ∷ r), length-append l (w' ∷ r));
      looked = λ q.
          total-middle is_drowsy l w' r
          ∙ Works-looked (total is_drowsy (l ++ r)) s (λ q'. sym d ∙ v.looked q') q;
    }

Mains-mutex :
    {b b' : Shared} {ws ws' : List Worker} {m m' : Main}
    → Mains b ws m b' ws' m'
    → total holds ws ≡ bit b.locked
    → total holds ws' ≡ bit b'.locked
Mains-mutex (Mains.loops e) h = h
Mains-mutex (Mains.ends e) h = h
Mains-mutex (Mains.accepts s e) h = h
Mains-mutex (Mains.accept_fails e) h = h
Mains-mutex (Mains.accept_breaks e) h = h
Mains-mutex (Mains.breaks e) h = h
Mains-mutex (Mains.timeout_fails e) h = h
Mains-mutex (Mains.lists e) h = h
Mains-mutex (Mains.pushes e) h = h
Mains-mutex {ws} (Mains.notifies l r e) h =
    omega (arith, h, moved holds l r ws asleep e, total-middle holds l entering r)
Mains-mutex (Mains.notifies_none e) h = h
Mains-mutex Mains.counts_total h = h
Mains-mutex Mains.counts_live h = h
Mains-mutex {ws} Mains.notifies_all h = total-woken holds ws refl ∙ h
Mains-mutex (Mains.joins e) h = h

Mains-size :
    {b b' : Shared} {ws ws' : List Worker} {m m' : Main}
    → Mains b ws m b' ws' m'
    → length ws' ≡ length ws
Mains-size (Mains.loops e) = refl
Mains-size (Mains.ends e) = refl
Mains-size (Mains.accepts s e) = refl
Mains-size (Mains.accept_fails e) = refl
Mains-size (Mains.accept_breaks e) = refl
Mains-size (Mains.breaks e) = refl
Mains-size (Mains.timeout_fails e) = refl
Mains-size (Mains.lists e) = refl
Mains-size (Mains.pushes e) = refl
Mains-size (Mains.notifies l r e) =
    omega (arith, ap length e, length-append l (asleep ∷ r), length-append l (entering ∷ r))
Mains-size (Mains.notifies_none e) = refl
Mains-size Mains.counts_total = refl
Mains-size Mains.counts_live = refl
Mains-size {ws} Mains.notifies_all = length-map-woken ws
Mains-size (Mains.joins e) = refl

-- A push takes the mutex, so no worker is drowsy then.
Mains-looked :
    {b b' : Shared} {ws ws' : List Worker} {m m' : Main}
    → Mains b ws m b' ws' m'
    → total holds ws ≡ bit b.locked
    → (is_empty b.queue ≡ false → total is_drowsy ws ≡ 0)
    → is_empty b'.queue ≡ false
    → total is_drowsy ws' ≡ 0
Mains-looked (Mains.loops e) k h q = h q
Mains-looked (Mains.ends e) k h q = h q
Mains-looked (Mains.accepts s e) k h q = h q
Mains-looked (Mains.accept_fails e) k h q = h q
Mains-looked (Mains.accept_breaks e) k h q = h q
Mains-looked (Mains.breaks e) k h q = h q
Mains-looked (Mains.timeout_fails e) k h q = h q
Mains-looked (Mains.lists e) k h q = h q
Mains-looked {ws} (Mains.pushes e) k h q = omega (arith, k, ap bit e, is_drowsy-le ws)
Mains-looked {ws} (Mains.notifies l r e) k h q =
    omega (arith, h q, moved is_drowsy l r ws asleep e, total-middle is_drowsy l entering r)
Mains-looked (Mains.notifies_none e) k h q = h q
Mains-looked Mains.counts_total k h q = h q
Mains-looked Mains.counts_live k h q = h q
Mains-looked {ws} Mains.notifies_all k h q = total-woken is_drowsy ws refl ∙ h q
Mains-looked (Mains.joins e) k h q = h q

Step-Inv : {x y : System} → Step x y → Inv x → Inv y
Step-Inv (work l r e s) v = work-Inv l r e s v
Step-Inv (run_main s) v = record {
  mutex = Mains-mutex s v.mutex;
  size = Mains-size s ∙ v.size;
  looked = Mains-looked s v.mutex v.looked;
}
Step-Inv signal v = record { mutex = v.mutex; size = v.size; looked = v.looked }
Step-Inv {x} (ring e) v = record {
  mutex = total-woken holds x.workers refl ∙ v.mutex;
  size = length-map-woken x.workers ∙ v.size;
  looked = λ q. total-woken is_drowsy x.workers refl ∙ v.looked q;
}
Step-Inv type_q v = record { mutex = v.mutex; size = v.size; looked = v.looked }

-- In every reachable state `queue_mutex` is locked exactly if one worker holds it, the pool has its
-- eight workers, and no worker that found the queue empty is still on its way to sleep while a
-- connection is queued.
pub Reach-Inv : {x : System} → Reach x → Inv x
Reach-Inv here = record { mutex = refl; size = refl; looked = λ q. refl }
Reach-Inv (next r s) = Step-Inv s (Reach-Inv r)
