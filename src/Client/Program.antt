-- ===== src/Client/Program.antt =====
-- src/client/client.cpp: `send_credentials`, `WTFS_Handler`, `authed_comms` and what `main` does over its
-- connection. What the user types is a list of turns; at the end of the input `get_stuff` loops. `exit`
-- is an early return of the whole program.
pub mod Refused
pub mod Requests
pub mod Turns
pub mod Handlers
pub mod Replied
pub mod Sessions
pub mod Whole
pub mod Toy
mod Examples
use mefsc.Common.{ℕ, Bool, true, false, List, [], ◌∷◌, ◌++◌, ◌==◌, if◌then◌else◌}
use mefsc.Constants.{
  minus, ack_suc, new_action, no_action, confusion, read_from_filesystem, write_to_filesystem,
  list_files, delete_file,
}
use mefsc.Platform.{Platform, World, W, Received, got, recv_error}
use mefsc.Outcome.{
  M, Outcome, hangs, pure, return, return_if, fail, call, attempt, on_error, ◌>>=◌, ◌>>◌,
}
use mefsc.Outcome
use mefsc.Session.{wrap_and_send}
use mefsc.Keys.{client_crypt_gen}
use mefsc.Server.{int_after, random_bytes}
use mefsc.Client.{CommsAgent, SenderAgent, notify_server_of_action, send_intention}
use mefsc.Client.Upload.{new_sender, encrypt_and_send_to_server}
use mefsc.Client.Download as Download
use mefsc.Client.Listing as Listing

-- What the user types for one action: the intention, the name of a file where one is asked for, and
-- whether another action follows.
pub record Turn : Type 0 where
  pub intention : ℕ
  pub file_name : List ℕ
  pub again : Bool

-- What uninitialised locals hold: the key of a new sender, an `int`, and the buffers of a download.
pub record StaleClient : Type 0 where
  pub key : List ℕ
  pub int : ℕ
  pub header : List ℕ
  pub salt : List ℕ

module _ ⦃p : Platform⦄ (fuel : ℕ) where
  -- One `recv` into the `int`, which stays as it was on an error.
  after_status : ℕ → W → Received × p.net.Sock → Outcome W ℕ
  after_status old w (got bytes, s) = Outcome.next (int_after bytes old) (record w { sock = s })
  after_status old w (recv_error e, s) = Outcome.next old (record w { sock = s; errno = e })

  recv_status : ℕ → M W ℕ
  recv_status old w = after_status old w (p.net.recv 4 w.sock)

  -- The answer is the nonce as it is left.
  pub send_credentials : List ℕ → List ℕ → List ℕ → List ℕ → M W (List ℕ)
  send_credentials client_tx username password nonce = do
    nonce1 ← wrap_and_send client_tx nonce (username ++ (0 ∷ []))
    nonce2 ← wrap_and_send client_tx nonce1 (password ++ (0 ∷ []))
    auth_stat ← recv_status (minus 1)
    return_if (auth_stat == minus 1) (minus 1)
    pure nonce2

  module _ (rounds : ℕ) (stale : StaleClient) (ca : CommsAgent) (password : List ℕ) where
    wtfs_handler : SenderAgent → List ℕ → M W ℕ
    wtfs_handler sa file_name = do
      status ← encrypt_and_send_to_server ca rounds sa file_name password
      pure (if status == 0 then 0 else 1)

    -- The handler of an intention, whose status is only logged.
    pub handle : Turn → SenderAgent → List ℕ → M W (Unit {0})
    unfolding wtfs_handler
    handle t sa ra_nonce =
        if t.intention == read_from_filesystem
        then (do
          status ←
              Download.rffs_handler fuel ca rounds ra_nonce t.file_name password stale.header
                stale.salt
          pure tt)
        else if t.intention == write_to_filesystem
        then (do status ← wtfs_handler sa t.file_name; pure tt)
        else if t.intention == list_files
        then (do names ← attempt (Listing.lffs_handler fuel ca stale.int); pure tt)
        else (do deleted ← attempt (Listing.dffs_handler fuel ca stale.int t.file_name); pure tt)

    pub is_intention : ℕ → Bool
    is_intention n =
        if n == read_from_filesystem
        then true
        else if n == write_to_filesystem
        then true
        else if n == list_files
        then true
        else n == delete_file

    -- An intention that is none of the four is not sent.
    perform : Turn → SenderAgent → List ℕ → List ℕ → M W (List ℕ)
    unfolding is_intention handle
    perform t sa ra_nonce nonce = elim (is_intention t.intention) [
      | true ↦ send_intention ca t.intention nonce >>= λ nonce'. handle t sa ra_nonce >> pure nonce'
      | false ↦ pure nonce
    ]

    -- One round of the loop, with agents of its own.
    pub turn : Turn → List ℕ → M W (List ℕ)
    unfolding perform
    turn t nonce = do
      nonce' ← notify_server_of_action ca new_action nonce
      sa ← new_sender password stale.key
      ra_nonce ← random_bytes 8
      return_if (t.intention == confusion) (minus 1)
      perform t sa ra_nonce nonce'

    last_words : List ℕ → M W ℕ
    last_words nonce = do nonce' ← notify_server_of_action ca no_action nonce; pure 0

    go_on : Bool → M W ℕ → List ℕ → M W ℕ
    go_on true rest nonce = rest
    go_on false rest nonce = last_words nonce

    pub turns_of : List Turn → List ℕ → M W ℕ
    unfolding turn go_on
    turns_of [] nonce = fail hangs
    turns_of (t ∷ ts) nonce = turn t nonce >>= λ nonce'. go_on t.again (turns_of ts nonce') nonce'

    pub authed_comms : List Turn → List ℕ → M W ℕ
    authed_comms turns nonce = call (turns_of turns nonce)

  -- `main`, from the connection on. The status of `authed_comms` is not looked at.
  pub client : ℕ → StaleClient → List ℕ → List ℕ → List Turn → M W ℕ
  client rounds stale username password turns = call do
    (rx, tx) ← on_error (client_crypt_gen fuel) 1
    nonce ← random_bytes 8
    nonce' ← send_credentials tx username password nonce
    let ca : CommsAgent = record { client_tx = tx; client_rx = rx }
    status ← authed_comms rounds stale ca password turns nonce'
    pure 0
