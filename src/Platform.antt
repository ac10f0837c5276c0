-- ===== src/Platform.antt =====
-- What the program calls and does not contain: the socket calls of the operating system, the file
-- system, and libsodium. Each is a parameter, a record of the functions that the source calls; what a
-- theorem needs of their documented behaviour is a hypothesis of that theorem (`Platform.Laws`).
pub mod Laws
pub mod Database
pub mod Toy
use mefsc.Common.{Bool, ℕ, Option, List}

-- What `recv` returns: the bytes it delivered (none of them at the end of the stream, where it returns
-- 0 and leaves `errno` alone), or -1 with an error number.
pub data Received : Type 0 where
  got : List ℕ → Received
  recv_error : ℕ → Received

-- What `send` returns: how many bytes it took, or -1 with an error number.
pub data Sent : Type 0 where
  took : ℕ → Sent
  send_error : ℕ → Sent

-- One end of a connection. `Sock` is what the kernel keeps for it.
pub record Net : Type 1 where
  pub Sock : Type 0
  pub eintr : ℕ
  pub recv : ℕ → Sock → Received × Sock
  pub send : List ℕ → Sock → Sent × Sock

-- libsodium. `none` is a call that returns a non-zero status. `Rng` is the state of its random source.
pub record Sodium : Type 1 where
  pub Rng : Type 0
  pub Stream : Type 0
  pub randombytes_buf : ℕ → Rng → List ℕ × Rng
  pub sodium_increment : List ℕ → List ℕ
  -- key, nonce and text
  pub aead_encrypt : List ℕ → List ℕ → List ℕ → Option (List ℕ)
  pub aead_decrypt : List ℕ → List ℕ → List ℕ → Option (List ℕ)
  -- what a decryption that fails leaves in its output
  pub aead_spoils : List ℕ → List ℕ → List ℕ → List ℕ
  -- key; the state of the stream and its header
  pub init_push : List ℕ → Rng → (Stream × List ℕ) × Rng
  -- message and tag
  pub push : Stream → List ℕ → ℕ → List ℕ × Stream
  pub tag_final : ℕ
  -- header and key
  pub init_pull : List ℕ → List ℕ → Option Stream
  pub pull : Stream → List ℕ → Option ((List ℕ × ℕ) × Stream)
  -- a pair of keys, public and secret
  pub kx_keypair : Rng → (List ℕ × List ℕ) × Rng
  -- own public key, own secret key and the peer's public key; the keys to receive and to transmit with
  pub kx_server_session_keys : List ℕ → List ℕ → List ℕ → Option (List ℕ × List ℕ)
  pub kx_client_session_keys : List ℕ → List ℕ → List ℕ → Option (List ℕ × List ℕ)
  -- password and salt
  pub pwhash : List ℕ → List ℕ → Option (List ℕ)
  -- a hash as text, and a password: does it fit?
  pub pwhash_str_verify : List ℕ → List ℕ → Bool

-- What `std::filesystem::remove` does: it says whether there was a file, or throws.
pub data Removed : Type 0 where
  removed : Removed
  not_found : Removed
  remove_throws : Removed

-- The file system. A path is its bytes; `none` is a file that cannot be opened, or a directory that
-- cannot be listed, which throws.
pub record Storage : Type 1 where
  pub Disk : Type 0
  pub create_directories : List ℕ → Disk → Disk
  pub open_read : List ℕ → Disk → Option (List ℕ)
  pub write_file : List ℕ → List ℕ → Disk → Disk
  pub remove : List ℕ → Disk → Removed × Disk
  pub list_directory : List ℕ → Disk → Option (List (List ℕ))

pub record Platform : Type 1 where
  pub net : Net
  pub sodium : Sodium
  pub storage : Storage

-- What one process works on: its connection, the thread's `errno`, the disk and the random source.
pub record World (Sock Disk Rng : Type 0) : Type 0 where
  pub sock : Sock
  pub errno : ℕ
  pub disk : Disk
  pub rng : Rng

abbrev pub W : ⦃p : Platform⦄ → Type 0
W ⦃p⦄ = World p.net.Sock p.storage.Disk p.sodium.Rng
