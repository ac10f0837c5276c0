-- ===== src/Client/Download.antt =====
-- src/client/authed_entry.cpp, class `Receiver_Agent`, and `RFFS_Handler` of src/client/client.cpp: the
-- client fetches a file and decrypts it. The writer thread is left to `Slots`, as in `Server.Upload`.
pub mod Decrypts
pub mod Fetches
pub mod Saves
mod Examples
use mefsc.Common.{
  ℕ, zero, suc, ◌-◌, true, false, not, Option, none, some, List, [], ◌∷◌, ◌++◌, length, take,
  concat, ◌==◌, if◌then◌else◌, ltb,
}
use mefsc.Constants.{
  end_chunk, file_encrypted_chunk_size, secretstream_headerbytes, secretstream_abytes,
  pwhash_saltbytes,
}
use mefsc.Platform.{Platform, W}
use mefsc.Outcome.{
  M, Outcome, hangs, throws, pure, return, return_if, fail, call, on_error, or_return, ◌>>=◌, ◌>>◌,
}
use mefsc.Wire.{recv_raw_blob}
use mefsc.Session.{Unwrapped, read_wrapper, unwrap, wrap_and_send, sub64}
use mefsc.CText.{overwrite}
use mefsc.Server.{int_after}
use mefsc.Client.{CommsAgent}

module _ ⦃p : Platform⦄ (fuel : ℕ) (ca : CommsAgent) where
  open p.sodium use {Stream, pwhash, init_pull, pull}
  open p.storage use {write_file}

  -- Header and salt; the arguments are what the two buffers held. `unwrap` answers for a wrapper that
  -- is corrupted.
  pub init_read : List ℕ → List ℕ → M W (List ℕ × List ℕ)
  init_read header salt = do
    header_wrap ← read_wrapper fuel
    let h = unwrap ca.client_rx secretstream_headerbytes header_wrap
    return_if (not (h.status == 0)) 2
    salt_wrap ← read_wrapper fuel
    let s = unwrap ca.client_rx pwhash_saltbytes salt_wrap
    return_if (not (s.status == 0)) 1
    pure (overwrite h.decrypted_data header, overwrite s.decrypted_data salt)

  -- A prefix whose `unwrap` fails is what that call left of the old one.
  abbrev prefix_after : Unwrapped → ℕ → ℕ
  prefix_after u old = int_after u.decrypted_data old

  -- The message is published with the length of the ciphertext less the overhead; its tag is not read.
  after_pull :
      (Stream → ℕ → List (List ℕ) → M W (ℕ × List (List ℕ)))
      → ℕ
      → List (List ℕ)
      → List ℕ
      → Option ((List ℕ × ℕ) × Stream)
      → M W (ℕ × List (List ℕ))
  after_pull again prefix chunks c none = pure (2, chunks)
  after_pull again prefix chunks c (some ((m, tag), state)) =
      let chunks' : List (List ℕ) =
        chunks ++ (take (sub64 (length c) secretstream_abytes) m ∷ []) in
      elim (prefix == end_chunk) [ true ↦ pure (0, chunks') | false ↦ again state prefix chunks' ]

  receive_round :
      (Stream → ℕ → List (List ℕ) → M W (ℕ × List (List ℕ)))
      → Stream
      → ℕ
      → List (List ℕ)
      → M W (ℕ × List (List ℕ))
  receive_round again state prefix chunks = do
    prefix_wrap ← read_wrapper fuel
    let prefix' = prefix_after (unwrap ca.client_rx 4 prefix_wrap) prefix
    chunk ← recv_raw_blob fuel file_encrypted_chunk_size
    elim chunk [
      | none ↦ pure (1, chunks)
      | some c ↦ after_pull again prefix' chunks c (pull state c)
    ]

  -- The loop: the status to return, and the chunks that are published.
  pub decrypt_chunks : ℕ → Stream → ℕ → List (List ℕ) → M W (ℕ × List (List ℕ))
  decrypt_chunks zero state prefix chunks = fail hangs
  decrypt_chunks (suc rounds) state prefix chunks =
      receive_round (decrypt_chunks rounds) state prefix chunks

  save : List ℕ → List ℕ → M W (Unit {0})
  save path contents w = Outcome.next tt (record w { disk = write_file path contents w.disk })

  -- The file is open already. It gets the published chunks, also where the status is not 0.
  pub decrypt_and_read_from_server : ℕ → List ℕ → List ℕ → List ℕ → List ℕ → M W ℕ
  decrypt_and_read_from_server rounds path password stale_header stale_salt = call do
    (header, salt) ← on_error (init_read stale_header stale_salt) 1
    key ← or_return (pwhash password salt) 1
    state ← or_return (init_pull header key) 2
    (status, chunks) ← decrypt_chunks rounds state end_chunk []
    save path (concat chunks)
    pure status

  -- The name less its last four bytes. A shorter name makes `resize` throw: its argument wraps.
  local_name : List ℕ → M W (List ℕ)
  local_name name = if ltb (length name) 4 then fail throws else pure (take (length name - 4) name)

  -- The status of the download is not looked at.
  pub rffs_handler : ℕ → List ℕ → List ℕ → List ℕ → List ℕ → List ℕ → M W ℕ
  rffs_handler rounds nonce file_name password stale_header stale_salt = do
    nonce' ← wrap_and_send ca.client_tx nonce (file_name ++ (0 ∷ []))
    path ← local_name file_name
    save path []
    status ← decrypt_and_read_from_server rounds path password stale_header stale_salt
    pure 0
