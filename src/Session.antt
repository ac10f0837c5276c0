-- ===== src/Session.antt =====
-- src/encryption_utils/SessionEnc.cpp: a message under the session's keys, with its length and nonce.
-- include/common/SessionEnc.h has the class. `session_encrypted_data` is the first
-- `session_encrypted_data_length` bytes of the array of that name.
pub mod Frames
pub mod Silent
pub mod Toy
pub mod Parts
mod Examples
use mefsc.Common.{
  ℕ, ◌+◌, ◌-◌, ◌%◌, ◌^◌, Bool, true, false, Option, none, some, List, [], ◌++◌, length, le_bytes,
  of_le, ltb, leb, if◌then◌else◌,
}
use mefsc.Constants.{aead_abytes, aead_npubbytes, stream_chunk_size, minus}
use mefsc.Platform.{Platform, W}
use mefsc.Outcome.{M, undefined, pure, fail, ◌>>=◌}
use mefsc.Wire.{recv_fully, send_bytes}

pub data WrapType : Type 0 where
  reader sender : WrapType

-- A field that the constructor leaves uninitialised is empty, or 0.
pub record Wrapper : Type 0 where
  pub corrupted : Bool
  pub session_encrypted_data : List ℕ
  pub nonce : List ℕ
  pub session_encrypted_data_length : ℕ
  pub enc_wrap_type : WrapType

-- What `unwrap` returns, the wrapper after it, and the bytes that it writes to `decrypted_data`,
-- whose number is `*decrypted_data_len` if the status is 0. A failed decryption has the status 1 and may
-- write too; on any other status nothing is written.
pub record Unwrapped : Type 0 where
  pub status : ℕ
  pub wrapper : Wrapper
  pub decrypted_data : List ℕ

abbrev failed_length : ℕ → Wrapper
failed_length n = record {
  corrupted = true;
  session_encrypted_data = [];
  nonce = [];
  session_encrypted_data_length = n;
  enc_wrap_type = reader;
}

-- `a - b` on `unsigned long long`.
abbrev pub sub64 : ℕ → ℕ → ℕ
sub64 a b = (a + 2 ^ 64 - b) % 2 ^ 64

module _ ⦃p : Platform⦄ where
  open p.sodium use {sodium_increment, aead_encrypt, aead_decrypt, aead_spoils}

  -- The nonce counts up in place before each message.
  unfoldable pub encrypt_stream_buffer : List ℕ → List ℕ → List ℕ → Option (List ℕ) × List ℕ
  encrypt_stream_buffer tx nonce message =
      let n : List ℕ = sodium_increment nonce in (aead_encrypt tx n message, n)

  wrap_ciphertext : Option (List ℕ) → List ℕ → M W (Wrapper × List ℕ)
  wrap_ciphertext none nonce = pure (
    record {
      corrupted = true;
      session_encrypted_data = [];
      nonce = [];
      session_encrypted_data_length = 0;
      enc_wrap_type = sender;
    },
    nonce,
  )
  wrap_ciphertext (some c) nonce = elim (leb (length c) stream_chunk_size) [
    | true ↦ pure (
      record {
        corrupted = false;
        session_encrypted_data = c;
        nonce = nonce;
        session_encrypted_data_length = length c;
        enc_wrap_type = sender;
      },
      nonce,
    )
    | false ↦ fail undefined
  ]

  -- The constructor for writers: key, nonce and data; it returns the wrapper and the nonce as it
  -- leaves it. Encrypted data that is longer than the array overruns it.
  unfoldable pub wrap : List ℕ → List ℕ → List ℕ → M W (Wrapper × List ℕ)
  unfolding encrypt_stream_buffer wrap_ciphertext
  wrap client_tx nonce bytes =
      let e = encrypt_stream_buffer client_tx nonce bytes in wrap_ciphertext e.0 e.1

  read_text : ℕ → ℕ → List ℕ → M W Wrapper
  unfolding recv_fully
  read_text fuel n nonce = do
    text ← recv_fully fuel n
    elim text [
      | none ↦ pure (record (failed_length n) { nonce = nonce })
      | some c ↦ pure (record {
        corrupted = false;
        session_encrypted_data = c;
        nonce = nonce;
        session_encrypted_data_length = n;
        enc_wrap_type = reader;
      })
    ]

  read_nonce : ℕ → ℕ → M W Wrapper
  unfolding recv_fully read_text
  read_nonce fuel n = do
    nonce ← recv_fully fuel aead_npubbytes
    elim nonce [ none ↦ pure (failed_length n) | some c ↦ read_text fuel n c ]

  check_length : ℕ → ℕ → M W Wrapper
  unfolding read_nonce
  check_length fuel n = elim (ltb stream_chunk_size n) [
    | true ↦ pure (failed_length n)
    | false ↦ read_nonce fuel n
  ]

  -- The constructor for readers.
  unfoldable pub read_wrapper : ℕ → M W Wrapper
  unfolding recv_fully check_length
  read_wrapper fuel = do
    length_bytes ← recv_fully fuel 8
    elim length_bytes [ none ↦ pure (failed_length 0) | some c ↦ check_length fuel (of_le c) ]

  opened : List ℕ → Wrapper → Option (List ℕ) → Unwrapped
  opened spoilt w none = record {
    status = 1;
    wrapper = record w { corrupted = true };
    decrypted_data = spoilt;
  }
  opened spoilt w (some m) = record { status = 0; wrapper = w; decrypted_data = m }

  unwrap_reader : List ℕ → ℕ → Wrapper → Unwrapped
  unfolding opened
  unwrap_reader rx capacity w =
      let size = sub64 w.session_encrypted_data_length aead_abytes in
      if w.corrupted
      then record { status = 4; wrapper = w; decrypted_data = [] }
      else if ltb stream_chunk_size size
      then record { status = 3; wrapper = w; decrypted_data = [] }
      else if ltb capacity size
      then record { status = 2; wrapper = record w { corrupted = true }; decrypted_data = [] }
      else opened (aead_spoils rx w.nonce w.session_encrypted_data) w
          (aead_decrypt rx w.nonce w.session_encrypted_data)

  unwrap_type : WrapType → List ℕ → ℕ → Wrapper → Unwrapped
  unfolding unwrap_reader
  unwrap_type sender rx capacity w = record { status = minus 1; wrapper = w; decrypted_data = [] }
  unwrap_type reader rx capacity w = unwrap_reader rx capacity w

  -- Key, capacity and wrapper.
  unfoldable pub unwrap : List ℕ → ℕ → Wrapper → Unwrapped
  unfolding unwrap_type
  unwrap rx decrypted_data_capacity w = unwrap_type w.enc_wrap_type rx decrypted_data_capacity w

  send_frame : Wrapper → M W (Option ℕ)
  unfolding send_bytes
  send_frame w =
      send_bytes
        (le_bytes 8 w.session_encrypted_data_length ++ (w.nonce ++ w.session_encrypted_data))

  send_typed : WrapType → Bool → Wrapper → M W (Option ℕ)
  unfolding send_frame
  send_typed reader corrupted w = pure none
  send_typed sender true w = fail undefined
  send_typed sender false w = send_frame w

  -- `none` is -1. A wrapper whose encryption failed has no nonce: its uninitialised bytes are read.
  unfoldable pub send_all : Wrapper → M W (Option ℕ)
  unfolding send_typed
  send_all w = send_typed w.enc_wrap_type w.corrupted w

  -- Three statements that the handlers repeat: build a wrapper for the data, and send it.
  unfoldable pub wrap_and_send : List ℕ → List ℕ → List ℕ → M W (List ℕ)
  unfolding wrap send_all
  wrap_and_send tx nonce bytes = do (w, nonce') ← wrap tx nonce bytes; n ← send_all w; pure nonce'
