-- ===== src/Client/Startup.antt =====
-- src/client/client.cpp, `main` up to the key exchange. The system calls are parameters; `false` is a call
-- that fails.
mod Examples
use mefsc.Common.{
  ℕ, ◌≡◌, refl, ap, Bool, true, false, Option, none, some, List, [], ◌∷◌, Bool-cases, Option-cases,
  inl, inr,
}
use mefsc.CText.{codes}
use mefsc.Outcome.{M, Outcome, bind, pure, or_return, ◌>>=◌, ◌>>◌}

-- The calls on the operating system. `socket` answers the `int` that it returns.
pub record Calls : Type 1 where
  pub Kernel : Type 0
  pub Address : Type 0
  pub socket : Kernel → ℕ × Kernel
  pub inet_pton : List ℕ → Option Address
  pub bind_address : ℕ → Address → Kernel → Bool × Kernel
  pub connect : ℕ → Address → Kernel → Bool × Kernel

-- The first argument, and "127.0.0.1" if there is none.
pub server_ip : List (List ℕ) → List ℕ
server_ip [] = codes "127.0.0.1"
server_ip (ip ∷ args) = ip

-- The second argument is an address to bind to.
pub source_ip : List (List ℕ) → Option (List ℕ)
source_ip (ip ∷ source ∷ args) = some source
source_ip args = none

module _ (calls : Calls) where
  open calls use {Kernel, Address}

  new_socket : M Kernel ℕ
  new_socket k = Outcome.next (calls.socket k).0 (calls.socket k).1

  bind_or_return : ℕ → Address → M Kernel (Unit {0})
  bind_or_return sock address k = elim (calls.bind_address sock address k).0 [
    | true ↦ Outcome.next tt (calls.bind_address sock address k).1
    | false ↦ Outcome.leave 1 (calls.bind_address sock address k).1
  ]

  bind_source : ℕ → Option (List ℕ) → M Kernel (Unit {0})
  unfolding bind_or_return
  bind_source sock none = pure tt
  bind_source sock (some source) = or_return (calls.inet_pton source) 1 >>= bind_or_return sock

  -- The result of `connect` is not looked at.
  connect_to : ℕ → Address → M Kernel (Unit {0})
  connect_to sock address k = Outcome.next tt (calls.connect sock address k).1

  -- From the arguments after the program's name to the socket of the connection.
  pub set_up : List (List ℕ) → M Kernel ℕ
  unfolding new_socket bind_source connect_to
  set_up args = do
    sock ← new_socket
    address ← or_return (calls.inet_pton (server_ip args)) 1
    bind_source sock (source_ip args)
    connect_to sock address
    pure sock

  -- How it may end from a state of the kernel.
  pub data Started (args : List (List ℕ)) (k : Kernel) : Outcome Kernel ℕ → Type 0 where
    no_server :
        calls.inet_pton (server_ip args) ≡ none
        → Started args k (Outcome.leave 1 (calls.socket k).1)
    no_source :
        {source : List ℕ} {address : Address}
        → calls.inet_pton (server_ip args) ≡ some address
        → source_ip args ≡ some source
        → calls.inet_pton source ≡ none
        → Started args k (Outcome.leave 1 (calls.socket k).1)
    not_bound :
        {k' : Kernel} {source : List ℕ} {address from : Address}
        → calls.inet_pton (server_ip args) ≡ some address
        → source_ip args ≡ some source
        → calls.inet_pton source ≡ some from
        → calls.bind_address (calls.socket k).0 from (calls.socket k).1 ≡ (false, k')
        → Started args k (Outcome.leave 1 k')
    tried_unbound :
        {k' : Kernel} {address : Address} (connected : Bool)
        → calls.inet_pton (server_ip args) ≡ some address
        → source_ip args ≡ none
        → calls.connect (calls.socket k).0 address (calls.socket k).1 ≡ (connected, k')
        → Started args k (Outcome.next (calls.socket k).0 k')
    tried_bound :
        {k' k'' : Kernel} {source : List ℕ} {address from : Address} (connected : Bool)
        → calls.inet_pton (server_ip args) ≡ some address
        → source_ip args ≡ some source
        → calls.inet_pton source ≡ some from
        → calls.bind_address (calls.socket k).0 from (calls.socket k).1 ≡ (true, k')
        → calls.connect (calls.socket k).0 address k' ≡ (connected, k'')
        → Started args k (Outcome.next (calls.socket k).0 k'')

  -- With the server's address at hand.
  source-Started :
      (args : List (List ℕ)) (address : Address) (k : Kernel)
      → calls.inet_pton (server_ip args) ≡ some address
      → Started args k (
          bind
            (bind_source (calls.socket k).0 (source_ip args) (calls.socket k).1)
            λ u. connect_to (calls.socket k).0 address >> pure (calls.socket k).0)
  unfolding bind_source bind_or_return connect_to
  source-Started args address k e =
      let sock : ℕ = (calls.socket k).0 in
      let k1 : Kernel = (calls.socket k).1 in
      elim (Option-cases (source_ip args)) [
        | inl none_given ↦
            rw none_given (tried_unbound (calls.connect sock address k1).0 e none_given refl)
        | inr (source, given) ↦ elim (Option-cases (calls.inet_pton source)) [
          | inl wrong ↦ rw (given, wrong) (no_source e given wrong)
          | inr (from, right) ↦
              let k2 : Kernel = (calls.bind_address sock from k1).1 in
              elim (Bool-cases (calls.bind_address sock from k1).0) [
                | inl t ↦
                    rw (given, right, t, bind_or_return)
                      (tried_bound (calls.connect sock address k2).0 e given right
                        (ap (λ b. (b, k2)) t) refl)
                | inr f ↦
                    rw (given, right, f, bind_or_return)
                      (not_bound e given right (ap (λ b. (b, k2)) f))
              ]
        ]
      ]

  pub set_up-Started : (args : List (List ℕ)) (k : Kernel) → Started args k (set_up args k)
  unfolding set_up new_socket
  set_up-Started args k = elim (Option-cases (calls.inet_pton (server_ip args))) [
    | inl wrong ↦ rw wrong (no_server wrong)
    | inr (address, right) ↦ rw right (source-Started args address k right)
  ]
