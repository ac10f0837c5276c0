-- ===== src/Server/Pool.antt =====
-- src/server/server.cpp: `main`, `worker`, `handle_signal` and `kill_server`, the threads that accept
-- connections and serve them, over the variables that they share. They take their steps in any order;
-- a step is what a thread does between two points where another can see it. `queue_mutex` is `locked`;
-- a worker that waits on `queue_cv` is `asleep`, and may wake up spuriously. What `handle_conn` does
-- to the shared variables depends on how it ends (`Ending` of `Server.Connection`).
pub mod Totals
pub mod Invariant
pub mod Exclusive
pub mod Wakeups
pub mod Counters
pub mod Shutdown
mod Examples
use mefsc.Common.{
  ℕ, ◌+◌, ◌-◌, ◌%◌, ◌^◌, ◌≡◌, Bool, true, false, not, ◌||◌, List, [], ◌∷◌, ◌++◌, ◌==◌,
  if◌then◌else◌, map, replicate, All,
}

abbrev pub pool_size : ℕ
pool_size = 8

-- Where a thread of the pool stands: `worker`, and inside it `handle_conn`.
pub data Worker : Type 0 where
  ready : Worker  -- at the test of the loop
  entering : Worker  -- about to lock the mutex, or woken up and about to lock it again
  drowsy : Worker  -- with the mutex, and the condition false
  asleep : Worker
  awake : Worker  -- with the mutex, and the condition true
  handling : ℕ → Worker
  erased : ℕ → Worker  -- with the connection taken out of `clients`
  closed : Worker  -- with the socket closed
  returned : Worker

-- Where `main` stands, from its loop on.
pub data Main : Type 0 where
  looping : Main  -- at the test of the loop
  accepting : Main
  took : ℕ → Main  -- with a new socket
  listed : ℕ → Main  -- with the socket in `clients`
  pushed : Main  -- with the socket in the queue
  notified : Main
  counted : Main  -- with `total_connections` counted up
  leaving : Main  -- behind the loop
  joining : Main  -- in `clean_all`
  stopped : Main

pub record Shared : Type 0 where
  pub alive : Bool
  pub locked : Bool
  pub queue : List ℕ
  pub clients : List ℕ
  pub is_open : ℕ → Bool
  pub total_connections : ℕ
  pub live_connections : ℕ

abbrev pub set_open : ℕ → Bool → Shared → Shared
set_open s v b = record b { is_open = λ t. if t == s then v else b.is_open t }

-- `clients` is a map: a key is there once.
abbrev pub insert_client : ℕ → List ℕ → List ℕ
insert_client s [] = s ∷ []
insert_client s (t ∷ ts) = let rest = t ∷ insert_client s ts in if t == s then t ∷ ts else rest

abbrev pub erase_client : ℕ → List ℕ → List ℕ
erase_client s [] = []
erase_client s (t ∷ ts) = let rest = erase_client s ts in if t == s then rest else t ∷ rest

-- `++n` and `--n` on `std::atomic<size_t>`.
abbrev pub increment : ℕ → ℕ
increment n = (n + 1) % 2 ^ 64

abbrev pub decrement : ℕ → ℕ
decrement n = (n + 2 ^ 64 - 1) % 2 ^ 64

abbrev pub is_empty : List ℕ → Bool
is_empty [] = true
is_empty (s ∷ rest) = false

-- What a worker waits for.
abbrev pub condition : Shared → Bool
condition b = not (is_empty b.queue) || not b.alive

pub data Works (b : Shared) : Worker → Shared → Worker → Type 0 where
  goes_on : b.alive ≡ true → Works b ready b entering
  stops : b.alive ≡ false → Works b ready b returned
  waits :
      b.locked ≡ false → condition b ≡ false → Works b entering (record b { locked = true }) drowsy
  enters :
      b.locked ≡ false → condition b ≡ true → Works b entering (record b { locked = true }) awake
  dozes : Works b drowsy (record b { locked = false }) asleep
  wakes_spuriously : Works b asleep b entering
  quits : b.alive ≡ false → Works b awake (record b { locked = false }) returned
  takes :
      {s : ℕ} {rest : List ℕ}
      → b.alive ≡ true
      → b.queue ≡ s ∷ rest
      → Works b awake (record b { locked = false; queue = rest }) (handling s)
  fails_keys : {s : ℕ} → Works b (handling s) b ready
  refuses :
      {s : ℕ}
      → Works b (handling s) (record b { live_connections = decrement b.live_connections }) ready
  erases :
      {s : ℕ} → Works b (handling s) (record b { clients = erase_client s b.clients }) (erased s)
  closes : {s : ℕ} → Works b (erased s) (set_open s false b) closed
  leaves : Works b closed (record b { live_connections = decrement b.live_connections }) ready

-- `notify_all`.
abbrev pub woken : Worker → Worker
woken asleep = entering
woken w = w

abbrev pub IsUp : Worker → Type 0
IsUp asleep = ⊥
IsUp w = Unit

abbrev pub HasReturned : Worker → Type 0
HasReturned returned = Unit
HasReturned w = ⊥

pub data Mains (b : Shared) (ws : List Worker) : Main → Shared → List Worker → Main → Type 0 where
  loops : b.alive ≡ true → Mains b ws looping b ws accepting
  ends : b.alive ≡ false → Mains b ws looping b ws leaving
  accepts : (s : ℕ) → b.is_open s ≡ false → Mains b ws accepting (set_open s true b) ws (took s)
  accept_fails : b.alive ≡ true → Mains b ws accepting b ws looping
  accept_breaks : b.alive ≡ false → Mains b ws accepting b ws leaving
  breaks : {s : ℕ} → b.alive ≡ false → Mains b ws (took s) (set_open s false b) ws leaving
  timeout_fails : {s : ℕ} → b.alive ≡ true → Mains b ws (took s) (set_open s false b) ws looping
  lists :
      {s : ℕ}
      → b.alive ≡ true
      → Mains b ws (took s) (record b { clients = insert_client s b.clients }) ws (listed s)
  pushes :
      {s : ℕ}
      → b.locked ≡ false
      → Mains b ws (listed s) (record b { queue = b.queue ++ (s ∷ []) }) ws pushed
  notifies :
      (l r : List Worker)
      → ws ≡ l ++ (asleep ∷ r)
      → Mains b ws pushed b (l ++ (entering ∷ r)) notified
  notifies_none : All IsUp ws → Mains b ws pushed b ws notified
  counts_total :
      Mains b ws notified
        (record b { total_connections = increment b.total_connections })
        ws
        counted
  counts_live :
      Mains b ws counted (record b { live_connections = increment b.live_connections }) ws looping
  notifies_all : Mains b ws leaving b (map woken ws) joining
  joins : All HasReturned ws → Mains b ws joining b ws stopped

-- `ringing`: a signal handler has set the flag and not yet notified.
pub record System : Type 0 where
  pub shared : Shared
  pub ringing : Bool
  pub main : Main
  pub workers : List Worker

pub data Step (x : System) : System → Type 0 where
  work :
      (l r : List Worker) {w w' : Worker} {b : Shared}
      → x.workers ≡ l ++ (w ∷ r)
      → Works x.shared w b w'
      → Step x (record x { shared = b; workers = l ++ (w' ∷ r) })
  run_main :
      {b : Shared} {ws : List Worker} {m : Main}
      → Mains x.shared x.workers x.main b ws m
      → Step x (record x { shared = b; workers = ws; main = m })
  signal : Step x (record x { shared = record x.shared { alive = false }; ringing = true })
  ring : x.ringing ≡ true → Step x (record x { ringing = false; workers = map woken x.workers })
  -- `kill_server`
  type_q : Step x (record x { shared = record x.shared { alive = false } })

abbrev pub start : System
start = record {
  shared = record {
    alive = true;
    locked = false;
    queue = [];
    clients = [];
    is_open = λ s. false;
    total_connections = 0;
    live_connections = 0;
  };
  ringing = false;
  main = looping;
  workers = replicate pool_size ready;
}

pub data Reach : System → Type 0 where
  here : Reach start
  next : {x y : System} → Reach x → Step x y → Reach y
