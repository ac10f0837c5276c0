-- ===== src/Server/Pool/Wakeups.antt =====
-- No connection is left in the queue while the whole pool sleeps.
use mefsc.Common.{
  ℕ, zero, suc, ◌+◌, ◌≤◌, ◌<◌, ◌≡◌, ◌≢◌, refl, ap, Bool, true, false, List, [], ◌∷◌, ◌++◌, arith,
  length, length-append, map, All,
}
use mefsc.Server.Pool.{
  Worker, entering, asleep, Main, Shared, Works, Mains, System, Step, work, run_main, signal, ring,
  type_q, Reach, here, next, is_empty, woken, IsUp, pool_size,
}
use mefsc.Server.Pool.Totals.{total, total-middle, length-map-woken, sleepy, is_drowsy}
use mefsc.Server.Pool.Invariant.{Inv, Reach-Inv}

abbrev is_pushed : Main → Bool
is_pushed Main.pushed = true
is_pushed m = false

-- Some worker needs no call of `notify`, if there is work and `main` is not about to notify.
abbrev Attended : System → Type 0
Attended x =
    is_empty x.shared.queue ≡ false
    → is_pushed x.main ≡ false
    → total sleepy x.workers < length x.workers

sleepy-le : (ws : List Worker) → total sleepy ws ≤ length ws
sleepy-le [] = omega arith
sleepy-le (w ∷ ws) = omega (arith, sleepy-le ws, one w)
  where
    one : (w : Worker) → sleepy w ≤ 1
    one Worker.drowsy = omega arith
    one Worker.awake = omega arith
    one Worker.ready = omega arith
    one Worker.entering = omega arith
    one Worker.asleep = omega arith
    one (Worker.handling s) = omega arith
    one (Worker.erased s) = omega arith
    one Worker.closed = omega arith
    one Worker.returned = omega arith

sleepy-woken : (ws : List Worker) → total sleepy (map woken ws) ≤ total sleepy ws
sleepy-woken [] = omega arith
sleepy-woken (w ∷ ws) = omega (arith, sleepy-woken ws, one w)
  where
    one : (w : Worker) → sleepy (woken w) ≤ sleepy w
    one Worker.drowsy = omega arith
    one Worker.awake = omega arith
    one Worker.ready = omega arith
    one Worker.entering = omega arith
    one Worker.asleep = omega arith
    one (Worker.handling s) = omega arith
    one (Worker.erased s) = omega arith
    one Worker.closed = omega arith
    one Worker.returned = omega arith

sleepy-up : (ws : List Worker) → All IsUp ws → total sleepy ws ≡ total is_drowsy ws
sleepy-up [] h = refl
sleepy-up (w ∷ ws) h = omega (arith, sleepy-up ws h.1, one w h.0)
  where
    one : (w : Worker) → IsUp w → sleepy w ≡ is_drowsy w
    one Worker.drowsy u = refl
    one Worker.awake u = refl
    one Worker.ready u = refl
    one Worker.entering u = refl
    one Worker.asleep u = elim u [ ]
    one (Worker.handling s) u = refl
    one (Worker.erased s) u = refl
    one Worker.closed u = refl
    one Worker.returned u = refl

-- `n` of the others are sleepy; `k` is the size of the pool.
Works-sleepy :
    {b b' : Shared} {w w' : Worker} (n k : ℕ)
    → Works b w b' w'
    → (is_empty b.queue ≡ false → sleepy w + n < k)
    → is_empty b'.queue ≡ false
    → sleepy w' + n < k
Works-sleepy n k (Works.goes_on e) h q = h q
Works-sleepy n k (Works.stops e) h q = h q
Works-sleepy {b} n k (Works.waits e f) h q = ground (arith, h)
Works-sleepy n k (Works.enters e f) h q = h q
Works-sleepy n k Works.dozes h q = h q
Works-sleepy n k Works.wakes_spuriously h q = omega (arith, h q)
Works-sleepy n k (Works.quits e) h q = h q
Works-sleepy n k (Works.takes e f) h q = h (ap is_empty f)
Works-sleepy n k Works.fails_keys h q = h q
Works-sleepy n k Works.refuses h q = h q
Works-sleepy n k Works.erases h q = h q
Works-sleepy n k Works.closes h q = h q
Works-sleepy n k Works.leaves h q = h q

work-Attended :
    (x : System) (l r : List Worker) {w w' : Worker} {b : Shared}
    → x.workers ≡ l ++ (w ∷ r)
    → Works x.shared w b w'
    → Attended x
    → Attended (record x { shared = b; workers = l ++ (w' ∷ r) })
work-Attended x l r {w} {w'} e s h q p =
    let others : ℕ = total sleepy (l ++ r) in
    let before : is_empty x.shared.queue ≡ false → sleepy w + others < length x.workers =
      λ q'. omega (arith, h q' p, ap (total sleepy) e, total-middle sleepy l w r) in
    omega (
      arith,
      Works-sleepy others (length x.workers) s before q,
      total-middle sleepy l w' r,
      ap length e,
      length-append l (w ∷ r),
      length-append l (w' ∷ r),
    )

Mains-Attended :
    {x : System} {b : Shared} {ws : List Worker} {m : Main}
    → Mains x.shared x.workers x.main b ws m
    → Inv x
    → Attended x
    → Attended (record x { shared = b; workers = ws; main = m })
Mains-Attended {x} s v h q p = go s v.looked v.size h q p
  where
    go :
        {b b' : Shared} {ws ws' : List Worker} {m m' : Main}
        → Mains b ws m b' ws' m'
        → (is_empty b.queue ≡ false → total is_drowsy ws ≡ 0)
        → length ws ≡ pool_size
        → (is_empty b.queue ≡ false → is_pushed m ≡ false → total sleepy ws < length ws)
        → is_empty b'.queue ≡ false
        → is_pushed m' ≡ false
        → total sleepy ws' < length ws'
    go (Mains.loops e) i k h q p = h q refl
    go (Mains.ends e) i k h q p = h q refl
    go (Mains.accepts s e) i k h q p = h q refl
    go (Mains.accept_fails e) i k h q p = h q refl
    go (Mains.accept_breaks e) i k h q p = h q refl
    go (Mains.breaks e) i k h q p = h q refl
    go (Mains.timeout_fails e) i k h q p = h q refl
    go (Mains.lists e) i k h q p = h q refl
    go (Mains.pushes e) i k h q p = absurd (ground arith)
    go {ws} (Mains.notifies l r e) i k h q p = omega (
      arith,
      sleepy-le ws,
      ap (total sleepy) e,
      total-middle sleepy l asleep r,
      total-middle sleepy l entering r,
      ap length e,
      length-append l (asleep ∷ r),
      length-append l (entering ∷ r),
    )
    go {ws} (Mains.notifies_none e) i k h q p = omega (arith, sleepy-up ws e, i q)
    go Mains.counts_total i k h q p = h q refl
    go Mains.counts_live i k h q p = h q refl
    go {ws} Mains.notifies_all i k h q p =
        omega (arith, h q refl, sleepy-woken ws, length-map-woken ws)
    go (Mains.joins e) i k h q p = h q refl

Step-Attended : {x y : System} → Step x y → Inv x → Attended x → Attended y
Step-Attended {x} (work l r e s) v h = work-Attended x l r e s h
Step-Attended (run_main s) v h = Mains-Attended s v h
Step-Attended signal v h = h
Step-Attended {x} (ring e) v h =
    λ q p. omega (arith, h q p, sleepy-woken x.workers, length-map-woken x.workers)
Step-Attended type_q v h = h

Reach-Attended : {x : System} → Reach x → Attended x
Reach-Attended here = λ q p. absurd (ground arith)
Reach-Attended (next r s) = Step-Attended s (Reach-Inv r) (Reach-Attended r)

someone :
    (ws : List Worker)
    → total sleepy ws < length ws
    → (l : List Worker) × (w : Worker) × (r : List Worker) × (ws ≡ l ++ (w ∷ r)) × (sleepy w ≡ 0)
someone [] h = absurd (omega arith)
someone (w ∷ ws) h = split (sleepy w) refl (λ k. someone ws k)
  where
    split :
        (n : ℕ)
        → sleepy w ≡ n
        → (total sleepy ws < length ws
            → (l : List Worker) × (v : Worker) × (r : List Worker) × (ws ≡ l ++ (v ∷ r))
              × (sleepy v ≡ 0))
        → (l : List Worker) × (v : Worker) × (r : List Worker) × (w ∷ ws ≡ l ++ (v ∷ r))
          × (sleepy v ≡ 0)
    split zero e later = ([], w, ws, refl, e)
    split (suc n) e later =
        let (l, v, r, f, z) = later (omega arith) in (w ∷ l, v, r, ap (λ t. w ∷ t) f, z)

-- No lost connection: in every reachable state with a connection in the queue, either `main` is about
-- to notify a worker, or some worker neither sleeps nor is on its way to sleep.
pub queue-attended :
    {x : System} (s : ℕ) (rest : List ℕ)
    → Reach x
    → x.shared.queue ≡ s ∷ rest
    → x.main ≢ Main.pushed
    → (l : List Worker) × (w : Worker) × (r : List Worker) × (x.workers ≡ l ++ (w ∷ r))
      × (sleepy w ≡ 0)
queue-attended {x} s rest r e n =
    someone x.workers (Reach-Attended r (ap is_empty e) (not_pushed x.main n))
  where
    not_pushed : (m : Main) → m ≢ Main.pushed → is_pushed m ≡ false
    not_pushed Main.pushed n = absurd (n refl)
    not_pushed Main.looping n = refl
    not_pushed Main.accepting n = refl
    not_pushed (Main.took t) n = refl
    not_pushed (Main.listed t) n = refl
    not_pushed Main.notified n = refl
    not_pushed Main.counted n = refl
    not_pushed Main.leaving n = refl
    not_pushed Main.joining n = refl
    not_pushed Main.stopped n = refl
