-- ===== src/Server/Pool/Totals.antt =====
-- Totals over the workers.
use mefsc.Common.{
  ℕ, suc, ◌+◌, ◌≡◌, refl, ap, Bool, true, false, List, [], ◌∷◌, ◌++◌, arith, length, map, ◌==◌,
  if◌then◌else◌,
}
use mefsc.Server.Pool.{
  Worker, ready, entering, drowsy, asleep, awake, handling, erased, closed, returned, woken,
}

abbrev pub total : (Worker → ℕ) → List Worker → ℕ
total f [] = 0
total f (w ∷ ws) = f w + total f ws

-- One worker moves, and the others stay.
pub total-middle :
    (f : Worker → ℕ) (l : List Worker) (w : Worker) (r : List Worker)
    → total f (l ++ (w ∷ r)) ≡ f w + total f (l ++ r)
total-middle f [] w r = refl
total-middle f (v ∷ l) w r = omega (arith, total-middle f l w r)

-- A measure that does not tell a sleeping worker from one that enters.
pub total-woken :
    (f : Worker → ℕ) (ws : List Worker)
    → f asleep ≡ f entering
    → total f (map woken ws) ≡ total f ws
total-woken f [] h = refl
total-woken f (w ∷ ws) h = omega (arith, total-woken f ws h, woken-same w)
  where
    woken-same : (w : Worker) → f (woken w) ≡ f w
    woken-same asleep = omega arith
    woken-same ready = refl
    woken-same entering = refl
    woken-same drowsy = refl
    woken-same awake = refl
    woken-same (handling s) = refl
    woken-same (erased s) = refl
    woken-same closed = refl
    woken-same returned = refl

pub length-map-woken : (ws : List Worker) → length (map woken ws) ≡ length ws
length-map-woken [] = refl
length-map-woken (w ∷ ws) = ap suc (length-map-woken ws)

-- Who holds the mutex.
abbrev pub holds : Worker → ℕ
holds drowsy = 1
holds awake = 1
holds w = 0

abbrev pub is_drowsy : Worker → ℕ
is_drowsy drowsy = 1
is_drowsy w = 0

-- Who needs a call of `notify` to go on.
abbrev pub sleepy : Worker → ℕ
sleepy drowsy = 1
sleepy asleep = 1
sleepy w = 0

-- Who has this socket.
abbrev pub serves : ℕ → Worker → ℕ
serves s (handling t) = if t == s then 1 else 0
serves s (erased t) = if t == s then 1 else 0
serves s w = 0

abbrev pub count : ℕ → List ℕ → ℕ
count s [] = 0
count s (t ∷ ts) = (if t == s then 1 else 0) + count s ts

pub count-append : (s : ℕ) (xs ys : List ℕ) → count s (xs ++ ys) ≡ count s xs + count s ys
count-append s [] ys = omega arith
count-append s (x ∷ xs) ys = omega (arith, count-append s xs ys)

abbrev pub bit : Bool → ℕ
bit true = 1
bit false = 0
