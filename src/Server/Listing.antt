-- ===== src/Server/Listing.antt =====
-- src/server/read_write_handlers.cpp: `LFFS_Handler__Server` and `DFFS_Handler__Server`.
pub mod Sends
pub mod Deletes
mod Examples
use mefsc.Common.{ℕ, none, some, List, [], ◌∷◌, ◌++◌, length, le_bytes, replicate}
use mefsc.Constants.{ack_suc, ack_fail, max_file_name_length, pre_ext_file_name_len}
use mefsc.Platform.{Platform, W, Removed, removed, not_found, remove_throws}
use mefsc.Outcome.{M, Outcome, fault, throws, pure, call, ◌>>=◌, ◌>>◌}
use mefsc.Session.{wrap_and_send}
use mefsc.CText.{overwrite}
use mefsc.Server.{Operator, Stale, random_bytes, expect}
use mefsc.Server.Upload.{text_of}

module _ ⦃p : Platform⦄ (fuel : ℕ) (stale : Stale) (op : Operator) where
  open p.storage use {list_directory, remove, Disk}

  -- A message under a nonce of its own.
  pub send_fresh : List ℕ → M W (Unit {0})
  send_fresh bytes = do
    nonce ← random_bytes 8
    nonce' ← wrap_and_send op.server_tx nonce bytes
    pure tt

  -- Each name with its NUL.
  send_names : List (List ℕ) → M W (Unit {0})
  send_names [] = pure tt
  send_names (name ∷ names) = send_fresh (name ++ (0 ∷ [])) >> send_names names

  directory : M W (List (List ℕ))
  directory w = elim (list_directory op.user_dir w.disk) [
    | none ↦ fault throws
    | some names ↦ Outcome.next names w
  ]

  -- The directory is read twice, for the count and for the names. `file_count` is an `int`.
  pub lffs_handler : M W ℕ
  lffs_handler = call do
    counted ← directory
    send_fresh (le_bytes 4 (length counted))
    names ← directory
    send_names names
    pure 0

  removal : W → Removed × Disk → Outcome W ℕ
  removal w (removed, disk) = Outcome.next ack_suc (record w { disk = disk })
  removal w (not_found, disk) = Outcome.next ack_fail (record w { disk = disk })
  removal w (remove_throws, disk) = fault throws

  remove_file : List ℕ → M W ℕ
  remove_file path w = removal w (remove path w.disk)

  -- The name's buffer is 255 zeros at first.
  pub dffs_handler : M W ℕ
  dffs_handler = call do
    unused ← random_bytes 8
    bytes ← expect fuel op.server_rx pre_ext_file_name_len 2 1
    name ← text_of fuel stale op (overwrite bytes (replicate max_file_name_length 0))
    result ← remove_file (op.user_dir ++ name)
    send_fresh (le_bytes 4 result)
    pure 0
