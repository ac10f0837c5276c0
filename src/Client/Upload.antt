-- ===== src/Client/Upload.antt =====
-- src/client/authed_entry.cpp: class `Sender_Agent`, which encrypts a file chunk by chunk and sends it.
pub mod Sealed
pub mod Sending
pub mod Whole
mod Examples
use mefsc.Common.{
  ℕ, zero, suc, Bool, true, false, not, Option, none, some, List, [], ◌∷◌, ◌++◌, length, take, drop,
  le_bytes, if◌then◌else◌, ltb,
}
use mefsc.Constants.{end_chunk, meat_chunk, chunk_size, pwhash_saltbytes}
use mefsc.Platform.{Platform, World, W}
use mefsc.Outcome.{
  M, Outcome, hangs, pure, return, return_if, fail, call, on_error, bind, ◌>>=◌, ◌>>◌,
}
use mefsc.Outcome
use mefsc.Wire.{send_raw_blob}
use mefsc.Session.{wrap_and_send}
use mefsc.Server.{random_bytes}
use mefsc.Client.{CommsAgent, SenderAgent}

abbrev pub or_old : Option (List ℕ) → List ℕ → List ℕ
or_old none old = old
or_old (some k) old = k

abbrev is_some : Option (List ℕ) → Bool
is_some none = false
is_some (some a) = true

abbrev contents_of : Option (List ℕ) → List ℕ
contents_of none = []
contents_of (some c) = c

module _ ⦃p : Platform⦄ where
  open p.sodium use {Stream, pwhash, init_push, push, tag_final}
  open p.storage use {open_read}

  -- A new salt, and the key from it. If `crypto_pwhash` fails the key is left as it was; the callers
  -- do no more than log that.
  unfoldable pub set_crypto : List ℕ → SenderAgent → M W SenderAgent
  set_crypto password sa = do
    salt ← random_bytes pwhash_saltbytes
    pure (record sa { key = or_old (pwhash password salt) sa.key; salt = salt })

  -- The constructor; `old_key` is what the uninitialised key holds.
  unfoldable pub new_sender : List ℕ → List ℕ → M W SenderAgent
  new_sender password old_key = do
    nonce ← random_bytes 8
    set_crypto password (record { nonce = nonce; key = old_key; salt = [] })

  module _ (ca : CommsAgent) where
    -- The answer is the nonce after the messages.
    pub init_send : Bool → List ℕ → List ℕ → List ℕ → List ℕ → M W (List ℕ)
    init_send file_exist nonce file_name header salt = do
      nonce1 ← wrap_and_send ca.client_tx nonce ((if file_exist then 1 else 0) ∷ [])
      return_if (not file_exist) 1
      nonce2 ← wrap_and_send ca.client_tx nonce1 file_name
      nonce3 ← wrap_and_send ca.client_tx nonce2 header
      wrap_and_send ca.client_tx nonce3 salt

    -- One round: the prefix, then the encrypted chunk.
    send_encrypted : List ℕ → List ℕ → Bool → M W (List ℕ)
    send_encrypted nonce ciphertext eof = do
      nonce' ← wrap_and_send ca.client_tx nonce (le_bytes 4 (if eof then end_chunk else meat_chunk))
      status ← send_raw_blob ciphertext
      pure nonce'

    -- One round over what is left of the file; `eof` is what the read left behind.
    encrypt_round :
        (Stream → List ℕ → List ℕ → M W (Unit {0}))
        → Stream
        → List ℕ
        → List ℕ
        → Bool
        → M W (Unit {0})
    encrypt_round again state nonce rest eof =
        let pushed = push state (take chunk_size rest) (if eof then tag_final else 0) in
        send_encrypted nonce pushed.0 eof >>= λ nonce'. elim eof [
          | true ↦ pure tt
          | false ↦ again pushed.1 nonce' (drop chunk_size rest)
        ]

    -- The loop. `file.read` sets `eof` where fewer bytes are left than it wants.
    pub encrypt_chunks : ℕ → Stream → List ℕ → List ℕ → M W (Unit {0})
    encrypt_chunks zero state nonce rest = fail hangs
    encrypt_chunks (suc rounds) state nonce rest =
        encrypt_round (encrypt_chunks rounds) state nonce rest (ltb (length rest) chunk_size)

    start_stream : List ℕ → M W (Stream × List ℕ)
    start_stream key w =
        let (started, rng) = init_push key w.rng in Outcome.next started (record w { rng = rng })

    open_file : List ℕ → M W (Option (List ℕ))
    open_file path w = Outcome.next (open_read path w.disk) w

    pub encrypt_and_send_to_server : ℕ → SenderAgent → List ℕ → List ℕ → M W ℕ
    encrypt_and_send_to_server rounds old file_name password = call do
      sa ← set_crypto password old
      file ← open_file file_name
      (state, header) ← start_stream sa.key
      nonce ← on_error (init_send (is_some file) sa.nonce file_name header sa.salt) 1
      encrypt_chunks rounds state nonce (contents_of file)
      pure 0
