-- ===== src/Server/Pool/Counters.antt =====
-- What the counters count, and the order in which connections are served.
use mefsc.Common.{
  ℕ, ◌+◌, ◌%◌, ◌^◌, ◌≡◌, refl, sym, ap, ◌∙◌, List, [], ◌∷◌, ◌++◌, arith, append-nil, append_assoc,
}
use mefsc.Server.Pool.{
  Worker, Main, Shared, Works, Mains, System, work, run_main, signal, ring, type_q, Reach, here,
  next,
}

-- Calls of `--live_connections`.
abbrev drops : {b b' : Shared} {w w' : Worker} → Works b w b' w' → ℕ
drops Works.refuses = 1
drops Works.leaves = 1
drops s = 0

-- Calls of `++live_connections`, and of `++total_connections`.
abbrev adds_live : {b b' : Shared} {ws ws' : List Worker} {m m' : Main} → Mains b ws m b' ws' m' → ℕ
adds_live Mains.counts_live = 1
adds_live s = 0

abbrev adds_total :
    {b b' : Shared} {ws ws' : List Worker} {m m' : Main} → Mains b ws m b' ws' m' → ℕ
adds_total Mains.counts_total = 1
adds_total s = 0

-- The connection that goes into the queue, and the one that comes out.
abbrev puts : {b b' : Shared} {ws ws' : List Worker} {m m' : Main} → Mains b ws m b' ws' m' → List ℕ
puts (Mains.pushes {s} e) = s ∷ []
puts s = []

abbrev gets : {b b' : Shared} {w w' : Worker} → Works b w b' w' → List ℕ
gets (Works.takes {s} e f) = s ∷ []
gets s = []

-- How often, and which, in a whole run.
abbrev pub dropped : {x : System} → Reach x → ℕ
dropped here = 0
dropped (next r (work l r' e s)) = dropped r + drops s
dropped (next r s) = dropped r

abbrev pub live_added : {x : System} → Reach x → ℕ
live_added here = 0
live_added (next r (run_main s)) = live_added r + adds_live s
live_added (next r s) = live_added r

abbrev pub total_added : {x : System} → Reach x → ℕ
total_added here = 0
total_added (next r (run_main s)) = total_added r + adds_total s
total_added (next r s) = total_added r

abbrev pub put : {x : System} → Reach x → List ℕ
put here = []
put (next r (run_main s)) = put r ++ puts s
put (next r s) = put r

abbrev pub got : {x : System} → Reach x → List ℕ
got here = []
got (next r (work l r' e s)) = got r ++ gets s
got (next r s) = got r

Works-live :
    {b b' : Shared} {w w' : Worker} (s : Works b w b' w')
    → (b'.live_connections + drops s) % 2 ^ 64 ≡ b.live_connections % 2 ^ 64
Works-live (Works.goes_on e) = omega arith
Works-live (Works.stops e) = omega arith
Works-live (Works.waits e f) = omega arith
Works-live (Works.enters e f) = omega arith
Works-live Works.dozes = omega arith
Works-live Works.wakes_spuriously = omega arith
Works-live (Works.quits e) = omega arith
Works-live (Works.takes e f) = omega arith
Works-live Works.fails_keys = omega arith
Works-live Works.refuses = omega arith
Works-live Works.erases = omega arith
Works-live Works.closes = omega arith
Works-live Works.leaves = omega arith

Mains-live :
    {b b' : Shared} {ws ws' : List Worker} {m m' : Main} (s : Mains b ws m b' ws' m')
    → b'.live_connections % 2 ^ 64 ≡ (b.live_connections + adds_live s) % 2 ^ 64
Mains-live (Mains.loops e) = omega arith
Mains-live (Mains.ends e) = omega arith
Mains-live (Mains.accepts s e) = omega arith
Mains-live (Mains.accept_fails e) = omega arith
Mains-live (Mains.accept_breaks e) = omega arith
Mains-live (Mains.breaks e) = omega arith
Mains-live (Mains.timeout_fails e) = omega arith
Mains-live (Mains.lists e) = omega arith
Mains-live (Mains.pushes e) = omega arith
Mains-live (Mains.notifies l r e) = omega arith
Mains-live (Mains.notifies_none e) = omega arith
Mains-live Mains.counts_total = omega arith
Mains-live Mains.counts_live = omega arith
Mains-live Mains.notifies_all = omega arith
Mains-live (Mains.joins e) = omega arith

-- In every reachable state `live_connections` is, modulo 2 ^ 64, the number of its increments less the
-- number of its decrements; if a worker is done before `main` has counted its connection, that wraps.
pub live_connections-balance :
    {x : System} (r : Reach x)
    → (x.shared.live_connections + dropped r) % 2 ^ 64 ≡ live_added r % 2 ^ 64
live_connections-balance here = refl
live_connections-balance (next r (work l r' e s)) =
    omega (arith, live_connections-balance r, Works-live s)
live_connections-balance (next r (run_main s)) =
    omega (arith, live_connections-balance r, Mains-live s)
live_connections-balance (next r signal) = live_connections-balance r
live_connections-balance (next r (ring e)) = live_connections-balance r
live_connections-balance (next r type_q) = live_connections-balance r

Works-queue : {b b' : Shared} {w w' : Worker} (s : Works b w b' w') → gets s ++ b'.queue ≡ b.queue
Works-queue (Works.goes_on e) = refl
Works-queue (Works.stops e) = refl
Works-queue (Works.waits e f) = refl
Works-queue (Works.enters e f) = refl
Works-queue Works.dozes = refl
Works-queue Works.wakes_spuriously = refl
Works-queue (Works.quits e) = refl
Works-queue (Works.takes e f) = sym f
Works-queue Works.fails_keys = refl
Works-queue Works.refuses = refl
Works-queue Works.erases = refl
Works-queue Works.closes = refl
Works-queue Works.leaves = refl

Mains-queue :
    {b b' : Shared} {ws ws' : List Worker} {m m' : Main} (s : Mains b ws m b' ws' m')
    → b'.queue ≡ b.queue ++ puts s
Mains-queue {b} (Mains.loops e) = sym (append-nil b.queue)
Mains-queue {b} (Mains.ends e) = sym (append-nil b.queue)
Mains-queue {b} (Mains.accepts s e) = sym (append-nil b.queue)
Mains-queue {b} (Mains.accept_fails e) = sym (append-nil b.queue)
Mains-queue {b} (Mains.accept_breaks e) = sym (append-nil b.queue)
Mains-queue {b} (Mains.breaks e) = sym (append-nil b.queue)
Mains-queue {b} (Mains.timeout_fails e) = sym (append-nil b.queue)
Mains-queue {b} (Mains.lists e) = sym (append-nil b.queue)
Mains-queue {b} (Mains.pushes e) = refl
Mains-queue {b} (Mains.notifies l r e) = sym (append-nil b.queue)
Mains-queue {b} (Mains.notifies_none e) = sym (append-nil b.queue)
Mains-queue {b} Mains.counts_total = sym (append-nil b.queue)
Mains-queue {b} Mains.counts_live = sym (append-nil b.queue)
Mains-queue {b} Mains.notifies_all = sym (append-nil b.queue)
Mains-queue {b} (Mains.joins e) = sym (append-nil b.queue)

-- First come, first served: in every reachable state the connections that workers have taken, in the
-- order in which they took them, and then the queue, are the connections that were queued, in order.
pub queue-in_order : {x : System} (r : Reach x) → got r ++ x.shared.queue ≡ put r
queue-in_order here = refl
queue-in_order (next r (work l r' {b = b} e s)) =
    append_assoc (got r) (gets s) b.queue ∙ ap (◌++◌ (got r)) (Works-queue s) ∙ queue-in_order r
queue-in_order (next {x} r (run_main s)) =
    ap (◌++◌ (got r)) (Mains-queue s)
    ∙ sym (append_assoc (got r) x.shared.queue (puts s))
    ∙ ap (λ q. q ++ puts s) (queue-in_order r)
queue-in_order (next r signal) = queue-in_order r
queue-in_order (next r (ring e)) = queue-in_order r
queue-in_order (next r type_q) = queue-in_order r
