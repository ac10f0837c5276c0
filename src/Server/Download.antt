-- ===== src/Server/Download.antt =====
-- src/server/read_write_handlers.cpp: `RFFS_Handler__Server`, which sends a stored file to the client.
pub mod Resends
pub mod Serves
mod Examples
use mefsc.Common.{
  ℕ, zero, suc, Bool, true, false, Option, none, some, List, ◌++◌, length, take, drop, le_bytes,
  if◌then◌else◌, ltb,
}
use mefsc.Constants.{
  end_chunk, meat_chunk, file_encrypted_chunk_size, pre_ext_file_name_len, secretstream_headerbytes,
  pwhash_saltbytes,
}
use mefsc.Platform.{Platform, W}
use mefsc.Outcome.{M, hangs, pure, return, fail, call, ◌>>=◌}
use mefsc.Wire.{send_raw_blob}
use mefsc.Session.{wrap_and_send}
use mefsc.CText.{overwrite}
use mefsc.Server.{Operator, Stale, random_bytes, expect}
use mefsc.Server.Upload.{text_of}

module _ ⦃p : Platform⦄ (fuel : ℕ) (stale : Stale) (op : Operator) where
  open p.storage use {open_read}

  -- One round of the loop: the prefix, then the chunk. Statuses of the sends are not looked at.
  send_chunk : List ℕ → List ℕ → Bool → M W (List ℕ)
  send_chunk nonce chunk eof = do
    nonce' ← wrap_and_send op.server_tx nonce (le_bytes 4 (if eof then end_chunk else meat_chunk))
    status ← send_raw_blob chunk
    pure nonce'

  send_round : (List ℕ → List ℕ → M W (List ℕ)) → List ℕ → List ℕ → Bool → M W (List ℕ)
  send_round again nonce rest eof =
      send_chunk nonce (take file_encrypted_chunk_size rest) eof >>= λ nonce'. elim eof [
        | true ↦ pure nonce'
        | false ↦ again nonce' (drop file_encrypted_chunk_size rest)
      ]

  -- The loop. `file.read` sets `eof` where fewer bytes are left than it wants.
  pub send_chunks : ℕ → List ℕ → List ℕ → M W (List ℕ)
  send_chunks zero nonce rest = fail hangs
  send_chunks (suc rounds) nonce rest =
      send_round (send_chunks rounds) nonce rest (ltb (length rest) file_encrypted_chunk_size)

  -- After a read that falls short the rest of the file is empty and `eof` is set.
  pub send_file : ℕ → List ℕ → List ℕ → M W ℕ
  send_file rounds nonce contents = do
    let salt_on = drop secretstream_headerbytes contents
    nonce1 ←
        wrap_and_send op.server_tx nonce
          (overwrite (take secretstream_headerbytes contents) stale.header)
    nonce2 ←
        wrap_and_send op.server_tx nonce1 (overwrite (take pwhash_saltbytes salt_on) stale.salt)
    nonce3 ← send_chunks rounds nonce2 (drop pwhash_saltbytes salt_on)
    pure 0

  opened_file : ℕ → List ℕ → Option (List ℕ) → M W ℕ
  opened_file rounds nonce none = return 1
  opened_file rounds nonce (some contents) = send_file rounds nonce contents

  open_file : ℕ → List ℕ → List ℕ → M W ℕ
  open_file rounds nonce path w = opened_file rounds nonce (open_read path w.disk) w

  pub rffs_handler : ℕ → M W ℕ
  rffs_handler rounds = call do
    nonce ← random_bytes 8
    bytes ← expect fuel op.server_rx pre_ext_file_name_len 3 2
    name ← text_of fuel stale op (overwrite bytes stale.file_name_buf)
    open_file rounds nonce (op.user_dir ++ name)
