-- ===== src/Client/Startup/Examples.antt =====
-- A start where the server does not answer.
use mefsc.Common.{ℕ, ◌+◌, ◌≡◌, refl, true, false, Option, none, some, List, [], ◌∷◌}
use mefsc.CText.{codes}
use mefsc.Outcome.{Outcome}
use mefsc.Client.Startup.{
  Calls, Started, set_up, new_socket, bind_source, bind_or_return, connect_to, server_ip, source_ip,
  set_up-Started,
}

abbrev parsed : List ℕ → Option (List ℕ)
parsed [] = none
parsed (c ∷ text) = some (c ∷ text)

-- The kernel counts the calls.
abbrev calls : Calls
calls = record {
  Kernel = ℕ;
  Address = List ℕ;
  socket = λ k. (3, k + 1);
  inet_pton = parsed;
  bind_address = λ sock address k. (true, k + 1);
  connect = λ sock address k. (false, k + 1);
}

-- The second address is bound to first.
abbrev two_addresses : List (List ℕ)
two_addresses = codes "10.0.0.1" ∷ codes "10.0.0.2" ∷ []

set_up-Started_example : Started calls two_addresses 0 (set_up calls two_addresses 0)
set_up-Started_example = set_up-Started calls two_addresses 0

-- `main` goes on without a connection.
goes_on : set_up calls [] 0 ≡ Outcome.next 3 2
unfolding set_up new_socket bind_source bind_or_return connect_to server_ip source_ip
goes_on = refl
