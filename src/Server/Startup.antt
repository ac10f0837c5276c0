-- ===== src/Server/Startup.antt =====
-- src/server/server.cpp, `main` up to the loop over connections, and src/server/auth.cpp,
-- `initialize_server`. The system calls are parameters; `false` is a call that fails.
mod Examples
use mefsc.Common.{
  ℕ, ◌≡◌, refl, Bool, true, false, not, Option, none, some, ◌==◌, if◌then◌else◌, Bool-cases,
  Option-cases, inl, inr, subst,
}
use mefsc.Outcome.{M, Outcome, pure, return_if, ◌>>=◌, ◌>>◌, bind}

-- The calls on the operating system and on sqlite.
pub record Calls : Type 1 where
  pub Kernel : Type 0
  pub open_database : Kernel → ℕ × Kernel
  pub socket : Kernel → Option ℕ × Kernel
  pub reuse_address : ℕ → Kernel → Bool × Kernel
  pub bind_port : ℕ → Kernel → Bool × Kernel
  pub listen : ℕ → Kernel → Bool × Kernel
  pub close : ℕ → Kernel → Kernel

-- How far a socket has come.
pub data Phase : Type 0 where
  made : Phase
  bound : Phase
  listening : Phase
  closed : Phase

-- What the calls are documented to do to a socket.
pub record Sockets (calls : Calls) : Type 1 where
  pub At : ℕ → Phase → calls.Kernel → Type 0
  pub makes :
      (fd : ℕ) (k : calls.Kernel) → (calls.socket k).0 ≡ some fd → At fd made (calls.socket k).1
  pub reuses : (fd : ℕ) (k : calls.Kernel) → At fd made k → At fd made (calls.reuse_address fd k).1
  pub binds :
      (fd : ℕ) (k : calls.Kernel)
      → At fd made k
      → At fd (if (calls.bind_port fd k).0 then bound else made) (calls.bind_port fd k).1
  pub listens :
      (fd : ℕ) (k : calls.Kernel)
      → At fd bound k
      → At fd (if (calls.listen fd k).0 then listening else bound) (calls.listen fd k).1
  pub closes :
      (fd : ℕ) (phase : Phase) (k : calls.Kernel) → At fd phase k → At fd closed (calls.close fd k)

module _ (calls : Calls) where
  open calls use {Kernel}

  initialize_server : M Kernel ℕ
  initialize_server k =
      let (status, k') = calls.open_database k in Outcome.next (if status == 0 then 0 else 1) k'

  make_socket : M Kernel ℕ
  make_socket k = elim (calls.socket k).0 [
    | none ↦ Outcome.leave 1 (calls.socket k).1
    | some fd ↦ Outcome.next fd (calls.socket k).1
  ]

  -- A call on the socket; where it fails the socket is closed, and `main` returns 1.
  or_close : ℕ → (Kernel → Bool × Kernel) → M Kernel (Unit {0})
  or_close fd f k = elim (f k).0 [
    | true ↦ Outcome.next tt (f k).1
    | false ↦ Outcome.leave 1 (calls.close fd (f k).1)
  ]

  -- Where `listen` fails the socket is closed, and `main` goes on.
  listen_or_close : ℕ → M Kernel ℕ
  listen_or_close fd k = elim (calls.listen fd k).0 [
    | true ↦ Outcome.next fd (calls.listen fd k).1
    | false ↦ Outcome.next fd (calls.close fd (calls.listen fd k).1)
  ]

  -- The socket that `main` goes on to accept connections on.
  pub start_up : M Kernel ℕ
  unfolding initialize_server make_socket or_close listen_or_close
  start_up = do
    status ← initialize_server
    return_if (not (status == 0)) 1
    fd ← make_socket
    or_close fd (calls.reuse_address fd)
    or_close fd (calls.bind_port fd)
    listen_or_close fd

  -- The states of the kernel between the calls.
  abbrev pub opened : Kernel → Kernel
  opened k = (calls.open_database k).1

  abbrev pub asked : Kernel → Kernel
  asked k = (calls.socket (opened k)).1

  abbrev pub reused : ℕ → Kernel → Kernel
  reused fd k = (calls.reuse_address fd (asked k)).1

  abbrev pub tied : ℕ → Kernel → Kernel
  tied fd k = (calls.bind_port fd (reused fd k)).1

  abbrev pub heard : ℕ → Kernel → Kernel
  heard fd k = (calls.listen fd (tied fd k)).1

  -- How far the calls have succeeded.
  abbrev pub Opened : Kernel → Type 0
  Opened k = ((calls.open_database k).0 == 0) ≡ true

  abbrev pub Made : ℕ → Kernel → Type 0
  Made fd k = Opened k × ((calls.socket (opened k)).0 ≡ some fd)

  abbrev pub Reusable : ℕ → Kernel → Type 0
  Reusable fd k = Made fd k × ((calls.reuse_address fd (asked k)).0 ≡ true)

  abbrev pub Bound : ℕ → Kernel → Type 0
  Bound fd k = Reusable fd k × ((calls.bind_port fd (reused fd k)).0 ≡ true)

  module _ (sockets : Sockets calls) where
    open sockets use {At}

    -- How it may end from a state of the kernel.
    pub data Started (k : Kernel) : Outcome Kernel ℕ → Type 0 where
      no_database :
          ((calls.open_database k).0 == 0) ≡ false → Started k (Outcome.leave 1 (opened k))
      no_socket :
          Opened k → (calls.socket (opened k)).0 ≡ none → Started k (Outcome.leave 1 (asked k))
      not_reusable :
          {fd : ℕ}
          → Made fd k
          → (calls.reuse_address fd (asked k)).0 ≡ false
          → At fd closed (calls.close fd (reused fd k))
          → Started k (Outcome.leave 1 (calls.close fd (reused fd k)))
      not_bound :
          {fd : ℕ}
          → Reusable fd k
          → (calls.bind_port fd (reused fd k)).0 ≡ false
          → At fd closed (calls.close fd (tied fd k))
          → Started k (Outcome.leave 1 (calls.close fd (tied fd k)))
      deaf :
          {fd : ℕ}
          → Bound fd k
          → (calls.listen fd (tied fd k)).0 ≡ false
          → At fd closed (calls.close fd (heard fd k))
          → Started k (Outcome.next fd (calls.close fd (heard fd k)))
      accepting :
          {fd : ℕ}
          → Bound fd k
          → (calls.listen fd (tied fd k)).0 ≡ true
          → At fd listening (heard fd k)
          → Started k (Outcome.next fd (heard fd k))

    -- A call that may close the socket, and the rest.
    or_close-cases :
        (Ends : Outcome Kernel ℕ → Type 0) (fd : ℕ) (f : Kernel → Bool × Kernel) (k : Kernel)
        (rest : M Kernel ℕ)
        → ((f k).0 ≡ true → Ends (rest (f k).1))
        → ((f k).0 ≡ false → Ends (Outcome.leave 1 (calls.close fd (f k).1)))
        → Ends (bind (or_close fd f k) λ u. rest)
    unfolding or_close
    or_close-cases Ends fd f k rest on off = elim (Bool-cases (f k).0) [
      | inl e ↦ rw (e, or_close) (on e)
      | inr e ↦ rw (e, or_close) (off e)
    ]

    made_at : (fd : ℕ) (k : Kernel) → Made fd k → At fd made (reused fd k)
    made_at fd k m = sockets.reuses fd (asked k) (sockets.makes fd (opened k) m.1)

    phase_at :
        {b : Bool} {fd : ℕ} {k : Kernel} (phase phase' : Phase) (c : Bool)
        → b ≡ c
        → At fd (if b then phase else phase') k
        → At fd (if c then phase else phase') k
    phase_at {fd} {k} phase phase' c e h = subst (λ x. At fd (if x then phase else phase') k) e h

    listen-Started : (fd : ℕ) (k : Kernel) → Bound fd k → Started k (listen_or_close fd (tied fd k))
    unfolding listen_or_close
    listen-Started fd k b =
        let at_bound : At fd bound (tied fd k) =
          phase_at bound made true b.1 (sockets.binds fd (reused fd k) (made_at fd k b.0.0)) in
        let at_listen = sockets.listens fd (tied fd k) at_bound in
        elim (Bool-cases (calls.listen fd (tied fd k)).0) [
          | inl e ↦
              rw (e, listen_or_close) (accepting b e (phase_at listening bound true e at_listen))
          | inr e ↦
              rw (e, listen_or_close)
                (deaf b e (
                  sockets.closes fd bound (heard fd k)
                    (phase_at listening bound false e at_listen)))
        ]

    -- From the socket on.
    from_socket : M Kernel ℕ
    from_socket = do
      fd ← make_socket
      or_close fd (calls.reuse_address fd)
      or_close fd (calls.bind_port fd)
      listen_or_close fd

    Made-Started :
        (fd : ℕ) (k : Kernel)
        → Made fd k
        → Started k (
            bind
              (or_close fd (calls.reuse_address fd) (asked k))
              λ u. or_close fd (calls.bind_port fd) >> listen_or_close fd)
    Made-Started fd k m =
        or_close-cases (Started k) fd (calls.reuse_address fd) (asked k) _
          (λ r.
            or_close-cases (Started k) fd (calls.bind_port fd) (reused fd k) _
              (λ b. listen-Started fd k ((m, r), b))
              λ b.
                not_bound (m, r) b
                  (sockets.closes fd made (tied fd k) (
                    phase_at bound made false b (sockets.binds fd (reused fd k) (made_at fd k m)))))
          λ r. not_reusable m r (sockets.closes fd made (reused fd k) (made_at fd k m))

    from_socket-Started : (k : Kernel) → Opened k → Started k (from_socket (opened k))
    unfolding from_socket make_socket
    from_socket-Started k o = elim (Option-cases (calls.socket (opened k)).0) [
      | inl e ↦ rw (e, from_socket, make_socket) (no_socket o e)
      | inr (fd, e) ↦ rw (e, from_socket, make_socket) (Made-Started fd k (o, e))
    ]

    -- The start makes its calls in order, and ends at the first of them that fails: where the database cannot
    -- be opened or no socket is had, `main` returns 1; where the socket cannot be made reusable or be bound,
    -- it is closed and `main` returns 1. Where all these succeed, `main` goes on with that socket, which
    -- listens, or, where `listen` has failed, is closed.
    pub start_up-Started : (k : Kernel) → Started k (start_up k)
    unfolding start_up initialize_server from_socket
    start_up-Started k = elim (Bool-cases ((calls.open_database k).0 == 0)) [
      | inl e ↦ rw e (from_socket-Started k e)
      | inr e ↦ rw e (no_database e)
    ]
