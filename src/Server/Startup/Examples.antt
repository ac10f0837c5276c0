-- ===== src/Server/Startup/Examples.antt =====
-- A start where `listen` fails.
use mefsc.Common.{◌≡◌, refl, true, false, some}
use mefsc.Outcome.{Outcome}
use mefsc.Server.Startup.{
  Calls, Phase, made, bound, closed, Sockets, Started, start_up, initialize_server, make_socket,
  or_close, listen_or_close, start_up-Started,
}

-- The kernel is how far the one socket has come.
abbrev calls : Calls
calls = record {
  Kernel = Phase;
  open_database = λ k. (0, k);
  socket = λ k. (some 3, made);
  reuse_address = λ fd k. (true, k);
  bind_port = λ fd k. (true, bound);
  listen = λ fd k. (false, k);
  close = λ fd k. closed;
}

sockets : Sockets calls
sockets = record {
  At = λ fd phase k. k ≡ phase;
  makes = λ fd k e. refl;
  reuses = λ fd k e. e;
  binds = λ fd k e. refl;
  listens = λ fd k e. e;
  closes = λ fd phase k e. refl;
}

start_up-Started_example : Started calls sockets closed (start_up calls closed)
start_up-Started_example = start_up-Started calls sockets closed

-- `main` goes on to accept connections on the closed socket.
goes_on : start_up calls closed ≡ Outcome.next 3 closed
unfolding start_up initialize_server make_socket or_close listen_or_close
goes_on = refl
