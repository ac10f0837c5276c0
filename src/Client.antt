-- ===== src/Client.antt =====
-- src/client/authed_entry.cpp and src/client/client.cpp: the client.
-- What the user types is an argument. Output to the terminal is left out, but for the names that a
-- listing shows; wiping keys from memory is left out.
pub mod Upload
pub mod Download
pub mod Listing
pub mod Program
pub mod Startup
pub mod Input
mod Examples
use mefsc.Common.{ℕ, List, le_bytes}
use mefsc.Platform.{Platform, W}
use mefsc.Outcome.{M, pure, ◌>>=◌, ◌>>◌}
use mefsc.Session.{wrap_and_send}

-- The keys of a `Comms_Agent`; its socket is the connection of the `World`.
pub record CommsAgent : Type 0 where
  pub client_tx : List ℕ
  pub client_rx : List ℕ

-- The fields of a `Sender_Agent` that outlive one statement.
pub record SenderAgent : Type 0 where
  pub nonce : List ℕ
  pub key : List ℕ
  pub salt : List ℕ

module _ ⦃p : Platform⦄ (ca : CommsAgent) where
  -- `notify_server_of_action` and `send_intention` send one `int`; the nonce is left counted up.
  pub notify_server_of_action : ℕ → List ℕ → M W (List ℕ)
  notify_server_of_action action nonce = wrap_and_send ca.client_tx nonce (le_bytes 4 action)

  pub send_intention : ℕ → List ℕ → M W (List ℕ)
  send_intention intent nonce = wrap_and_send ca.client_tx nonce (le_bytes 4 intent)
