-- ===== src/Server/Upload.antt =====
-- src/server/read_write_handlers.cpp: `init_read` and `WTFS_Handler__Server`, which stores the file that
-- the client sends. The writer thread is left to `Slots`: by `Slots.Safety` the file ends up with the
-- published chunks in order, and so it is written here in one step, after `writer.join()`.
pub mod Stores
pub mod Announce
pub mod Names
mod Examples
use mefsc.Common.{
  ℕ, zero, suc, ◌+◌, ◌%◌, ◌^◌, Bool, true, false, not, ◌&&◌, Option, none, some, List, [], ◌∷◌,
  ◌++◌, length, take, drop, concat, le_bytes, of_le, ◌==◌, if◌then◌else◌, ltb,
}
use mefsc.Constants.{
  end_chunk, meat_chunk, file_encrypted_chunk_size, max_file_name_length, pre_ext_file_name_len,
  secretstream_headerbytes, pwhash_saltbytes,
}
use mefsc.Platform.{Platform, World, W}
use mefsc.Outcome.{
  M, Outcome, hangs, undefined, pure, return, return_if, fail, call, on_error, bind, ◌>>=◌, ◌>>◌,
}
use mefsc.Outcome
use mefsc.Wire.{recv_raw_blob}
use mefsc.Session.{Wrapper, Unwrapped, read_wrapper, unwrap}
use mefsc.CText.{overwrite, c_str, ext}
use mefsc.Server.{Operator, Stale, int_after}

-- What `init_read` leaves in its caller's buffers.
pub record Announced : Type 0 where
  pub file_name_buf : List ℕ
  pub header : List ℕ
  pub salt : List ℕ

-- `file_name_buf[n] = '\0'`.
abbrev pub terminate : ℕ → List ℕ → List ℕ
terminate n buffer = take n buffer ++ (0 ∷ drop (suc n) buffer)

-- The value of a `bool` that was false, after bytes are copied to its front.
abbrev pub bool_after : List ℕ → Bool
bool_after bytes = not (of_le (take 1 (overwrite bytes (0 ∷ []))) == 0)

-- `decrypted_file_name_length` is set by a successful `unwrap` alone.
abbrev pub name_length : Stale → Unwrapped → ℕ
name_length stale u = if u.status == 0 then length u.decrypted_data else stale.file_name_length

module _ ⦃p : Platform⦄ (fuel : ℕ) (stale : Stale) (op : Operator) where
  open p.storage use {write_file}

  -- The file name. Only the status 2 of `unwrap` counts as a failure.
  file_name_of : Unwrapped → M W (List ℕ)
  file_name_of u = do
    return_if (u.status == 2) 8
    return_if (ltb max_file_name_length ((name_length stale u + 4) % 2 ^ 64)) 7
    if ltb (name_length stale u) file_encrypted_chunk_size then pure tt else fail undefined
    pure (terminate (name_length stale u) (overwrite u.decrypted_data stale.file_name_buf))

  pub read_file_name : M W (List ℕ)
  read_file_name = do
    file_name_wrap ← read_wrapper fuel
    return_if file_name_wrap.corrupted 9
    file_name_of (unwrap op.server_rx pre_ext_file_name_len file_name_wrap)

  -- The header of the encrypted file. A failed `unwrap` counts if it marked the wrapper.
  header_of : Unwrapped → M W (List ℕ)
  header_of u = do
    return_if (not (u.status == 0) && u.wrapper.corrupted) 3
    pure (overwrite u.decrypted_data stale.header)

  pub read_header : M W (List ℕ)
  read_header = do
    header_wrap ← read_wrapper fuel
    return_if header_wrap.corrupted 4
    header_of (unwrap op.server_rx secretstream_headerbytes header_wrap)

  salt_of : Unwrapped → M W (List ℕ)
  salt_of u = do return_if (not (u.status == 0)) 1; pure (overwrite u.decrypted_data stale.salt)

  pub read_salt : M W (List ℕ)
  read_salt = do
    salt_wrap ← read_wrapper fuel
    return_if salt_wrap.corrupted 2
    salt_of (unwrap op.server_rx pwhash_saltbytes salt_wrap)

  -- Does the client have the file at all?
  confirmed : Unwrapped → M W (Unit {0})
  confirmed u = do
    return_if (not (u.status == 0)) 6
    return_if (not (bool_after u.decrypted_data)) 5

  -- `init_read`; an early return is its non-zero status.
  pub init_read : M W Announced
  init_read = do
    confirm ← read_wrapper fuel
    confirmed (unwrap op.server_rx 1 confirm)
    name ← read_file_name
    header ← read_header
    salt ← read_salt
    pure (record { file_name_buf = name; header = header; salt = salt })

  -- How the loop goes on after a chunk is published.
  after_chunk :
      (ℕ → List (List ℕ) → M W (ℕ × List (List ℕ))) → ℕ → List (List ℕ) → M W (ℕ × List (List ℕ))
  after_chunk again prefix chunks = elim (prefix == end_chunk) [
    | true ↦ pure (0, chunks)
    | false ↦ elim (prefix == meat_chunk) [ true ↦ again prefix chunks | false ↦ pure (0, chunks) ]
  ]

  receive_chunk :
      (ℕ → List (List ℕ) → M W (ℕ × List (List ℕ))) → ℕ → List (List ℕ) → M W (ℕ × List (List ℕ))
  receive_chunk again prefix chunks = do
    chunk ← recv_raw_blob fuel file_encrypted_chunk_size
    elim chunk [ none ↦ pure (1, chunks) | some c ↦ after_chunk again prefix (chunks ++ (c ∷ [])) ]

  -- What follows the prefix's wrapper, corrupted or not, and its `unwrap`.
  after_prefix :
      (ℕ → List (List ℕ) → M W (ℕ × List (List ℕ)))
      → ℕ
      → List (List ℕ)
      → Bool
      → Unwrapped
      → M W (ℕ × List (List ℕ))
  after_prefix again prefix chunks true u = pure (0, chunks)
  after_prefix again prefix chunks false u = elim (u.status == 0) [
    | true ↦ receive_chunk again (int_after u.decrypted_data prefix) chunks
    | false ↦ pure (0, chunks)
  ]

  -- One round, with the prefix and the published chunks so far: the answer is the status to return
  -- and the chunks.
  receive_round :
      (ℕ → List (List ℕ) → M W (ℕ × List (List ℕ))) → ℕ → List (List ℕ) → M W (ℕ × List (List ℕ))
  receive_round again prefix chunks = do
    prefix_wrap ← read_wrapper fuel
    after_prefix again prefix chunks prefix_wrap.corrupted (unwrap op.server_rx 4 prefix_wrap)

  -- The loop of the handler, with at most `rounds` rounds.
  pub receive_chunks : ℕ → ℕ → List (List ℕ) → M W (ℕ × List (List ℕ))
  receive_chunks zero prefix chunks = fail hangs
  receive_chunks (suc rounds) prefix chunks = receive_round (receive_chunks rounds) prefix chunks

  -- The text of a buffer that is read up to its NUL, which has to be there.
  unfoldable pub text_of : List ℕ → M W (List ℕ)
  text_of buffer = elim (c_str buffer) [ none ↦ fail undefined | some t ↦ pure t ]

  save : List ℕ → List ℕ → M W (Unit {0})
  save path contents w = Outcome.next tt (record w { disk = write_file path contents w.disk })

  pub wtfs_handler : ℕ → M W ℕ
  wtfs_handler rounds = call do
    a ← on_error init_read 1
    name ← text_of a.file_name_buf
    let file_name = op.user_dir ++ (name ++ ext)
    (status, chunks) ← receive_chunks rounds end_chunk []
    save file_name (a.header ++ (a.salt ++ concat chunks))
    pure status
