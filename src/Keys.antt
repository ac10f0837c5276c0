-- ===== src/Keys.antt =====
-- src/encryption_utils/encryption_utils.cpp: `server_crypt_gen` and `client_crypt_gen`, by which the two
-- ends of a new connection agree on session keys. An early return is the status; otherwise it is 0,
-- and the answer is the key to receive with and the key to transmit with.
pub mod Agreement
pub mod Silent
mod Examples
use mefsc.Common.{ℕ, Option, none, some, List}
use mefsc.Constants.{kx_publickeybytes}
use mefsc.Platform.{Platform, World, W}
use mefsc.Outcome.{M, Outcome, pure, return, or_return, ◌>>=◌}
use mefsc.Outcome
use mefsc.Wire.{recv_fully, send_bytes}

module _ ⦃p : Platform⦄ where
  open p.sodium use {kx_keypair, kx_server_session_keys, kx_client_session_keys}

  new_keypair : M W (List ℕ × List ℕ)
  new_keypair w = let (keys, rng) = kx_keypair w.rng in Outcome.next keys (record w { rng = rng })

  -- The public key goes out, whatever `send` answers, and the peer's is read.
  swap_keys : ℕ → List ℕ → M W (List ℕ)
  unfolding send_bytes recv_fully
  swap_keys fuel public = do
    sent ← send_bytes public
    received ← recv_fully fuel kx_publickeybytes
    or_return received 2

  unfoldable pub server_crypt_gen : ℕ → M W (List ℕ × List ℕ)
  unfolding new_keypair swap_keys
  server_crypt_gen fuel = do
    (public, secret) ← new_keypair
    client_pk ← swap_keys fuel public
    or_return (kx_server_session_keys public secret client_pk) 1

  unfoldable pub client_crypt_gen : ℕ → M W (List ℕ × List ℕ)
  unfolding new_keypair swap_keys
  client_crypt_gen fuel = do
    (public, secret) ← new_keypair
    server_pk ← swap_keys fuel public
    or_return (kx_client_session_keys public secret server_pk) 1
