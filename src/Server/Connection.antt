-- ===== src/Server/Connection.antt =====
-- src/server/server.cpp, `handle_conn`: one connection, from the key exchange to the last action. What
-- the function does to the tables that the threads share is told by how it ends, `Ending`, and done in
-- `Server.Pool`.
pub mod Serving
pub mod Performs
pub mod Refines
pub mod Whole
pub mod Sessions
pub mod Untouched
mod Examples
use mefsc.Common.{
  ℕ, zero, suc, true, false, Option, none, some, List, le_bytes, ◌==◌, if◌then◌else◌,
}
use mefsc.Constants.{
  ack_suc, ack_fail, invalid_read_intent, read_from_filesystem, write_to_filesystem, list_files,
  delete_file,
}
use mefsc.Platform.{Platform, W}
use mefsc.Platform.Database.{Database}
use mefsc.Outcome.{M, Outcome, hangs, pure, fail, attempt, on_first, bind, ◌>>=◌, ◌>>◌}
use mefsc.Wire.{send_bytes}
use mefsc.Keys.{server_crypt_gen}
use mefsc.Server.{Operator, Stale, fs_operator, receive_notice_of_new_action, read_intent}
use mefsc.Server.Upload.{wtfs_handler}
use mefsc.Server.Download.{rffs_handler}
use mefsc.Server.Listing.{lffs_handler, dffs_handler}
use mefsc.Server.Login.{StaleLogin, verify_credentials}

-- The three places where the function returns.
pub data Ending : Type 0 where
  keys_failed : Ending
  refused : Ending
  finished : Ending

module _ ⦃p : Platform⦄ (fuel : ℕ) (rounds : ℕ) (stale : Stale) where
  -- The status of a handler is not looked at.
  ignoring : M W ℕ → M W (Unit {0})
  ignoring handler = do status ← handler; pure tt

  -- The branches on the intent; an invalid one does nothing.
  pub perform : Operator → ℕ → M W (Unit {0})
  unfolding ignoring
  perform op intent =
      if intent == invalid_read_intent
      then pure tt
      else if intent == read_from_filesystem
      then ignoring (rffs_handler fuel stale op rounds)
      else if intent == write_to_filesystem
      then ignoring (wtfs_handler fuel stale op rounds)
      else if intent == list_files
      then ignoring (lffs_handler fuel stale op)
      else if intent == delete_file
      then ignoring (dffs_handler fuel stale op)
      else pure tt

  -- One round: an action is performed if it is announced.
  serve_round : M W (Unit {0}) → Operator → ℕ → M W (Unit {0})
  serve_round again op notice = elim (notice == 0) [
    | true ↦ read_intent fuel stale op >>= λ intent. perform op intent >> again
    | false ↦ pure tt
  ]

  -- The loop, with at most `actions` rounds.
  pub serve : ℕ → Operator → M W (Unit {0})
  serve zero op = fail hangs
  serve (suc actions) op =
      receive_notice_of_new_action fuel stale op >>= serve_round (serve actions op) op

  module _ (db : Database) (stale_login : StaleLogin) where
    open db use {Db}

    accepted : ℕ → List ℕ → List ℕ → List ℕ → M (W × Db) Ending
    accepted actions username rx tx = do
      sent ← on_first (send_bytes (le_bytes 4 ack_suc))
      op ← on_first (fs_operator username rx tx)
      on_first (serve actions op)
      pure finished

    rejected : M (W × Db) Ending
    rejected = do sent ← on_first (send_bytes (le_bytes 4 ack_fail)); pure refused

    verified : ℕ → List ℕ → List ℕ → ℕ × List ℕ → M (W × Db) Ending
    verified actions rx tx (status, username) = elim (status == 0) [
      | true ↦ accepted actions username rx tx
      | false ↦ rejected
    ]

    keyed : ℕ → Option (List ℕ × List ℕ) → M (W × Db) Ending
    keyed actions none = pure keys_failed
    keyed actions (some (rx, tx)) =
        verify_credentials db fuel stale_login rx >>= verified actions rx tx

    pub handle_conn : ℕ → M (W × Db) Ending
    unfolding server_crypt_gen keyed
    handle_conn actions = on_first (attempt (server_crypt_gen fuel)) >>= keyed actions
