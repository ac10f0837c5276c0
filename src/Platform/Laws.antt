-- ===== src/Platform/Laws.antt =====
-- Documented behaviour of the platform, as hypotheses. Each stands in the theorems that
-- need it.
use mefsc.Common.{ℕ, ◌+◌, ◌≤◌, ◌<◌, ◌≡◌, some, List, ◌++◌, length}
use mefsc.Constants.{kx_publickeybytes, aead_abytes, secretstream_abytes, secretstream_headerbytes}
use mefsc.Platform.{Net, got, recv_error, took, Sodium, Storage}

-- What is seen of a connection: the bytes from the peer that are not yet received, the bytes sent to
-- the peer, and a bound on the signals that will still interrupt a `recv`.
pub record View (Sock : Type 0) : Type 0 where
  pub pending : Sock → List ℕ
  pub written : Sock → List ℕ
  pub noise : Sock → ℕ

-- One `recv` for `n` bytes that the peer has sent: a signal interrupts it, or it delivers some bytes.
pub data Arrival (net : Net) (view : View net.Sock) (n : ℕ) (s : net.Sock) : Type 0 where
  interrupted :
      (s' : net.Sock)
      → net.recv n s ≡ (recv_error net.eintr, s')
      → view.pending s' ≡ view.pending s
      → view.written s' ≡ view.written s
      → view.noise s' < view.noise s
      → Arrival net view n s
  arrives :
      (c : List ℕ) (s' : net.Sock)
      → net.recv n s ≡ (got c, s')
      → 0 < length c
      → length c ≤ n
      → view.pending s ≡ c ++ view.pending s'
      → view.written s' ≡ view.written s
      → view.noise s' ≤ view.noise s
      → Arrival net view n s

-- A `send` that takes all its bytes.
pub record Delivery (net : Net) (view : View net.Sock) (bytes : List ℕ) (s : net.Sock)
    : Type 0 where
  pub after : net.Sock
  pub result : net.send bytes s ≡ (took (length bytes), after)
  pub same_pending : view.pending after ≡ view.pending s
  pub same_noise : view.noise after ≡ view.noise s
  pub adds : view.written after ≡ view.written s ++ bytes

-- A TCP connection in good order.
pub record Reliable (net : Net) (view : View net.Sock) : Type 0 where
  pub receives : (n : ℕ) (s : net.Sock) → 0 < n → n ≤ length (view.pending s) → Arrival net view n s
  pub sends : (bytes : List ℕ) (s : net.Sock) → Delivery net view bytes s

-- What libsodium documents. `Paired` relates the states of the two ends of a secretstream.
pub record Sound (sodium : Sodium) (Paired : sodium.Stream → sodium.Stream → Type 0) : Type 0 where
  pub increment_length : (n : List ℕ) → length (sodium.sodium_increment n) ≡ length n
  pub random_length : (n : ℕ) (r : sodium.Rng) → length (sodium.randombytes_buf n r).0 ≡ n
  pub encrypts :
      (key nonce m : List ℕ)
      → (c : List ℕ) × (sodium.aead_encrypt key nonce m ≡ some c)
        × (length c ≡ length m + aead_abytes)
        × (sodium.aead_decrypt key nonce c ≡ some m)
  pub push_length :
      (st : sodium.Stream) (m : List ℕ) (tag : ℕ)
      → length (sodium.push st m tag).0 ≡ length m + secretstream_abytes
  pub header_length :
      (key : List ℕ) (r : sodium.Rng)
      → length (sodium.init_push key r).0.1 ≡ secretstream_headerbytes
  pub pairs :
      (key : List ℕ) (r : sodium.Rng)
      → (st : sodium.Stream) × (sodium.init_pull (sodium.init_push key r).0.1 key ≡ some st)
        × Paired (sodium.init_push key r).0.0 st
  pub pulls :
      (st st' : sodium.Stream) (m : List ℕ) (tag : ℕ)
      → Paired st st'
      → (st'' : sodium.Stream) × (sodium.pull st' (sodium.push st m tag).0 ≡ some ((m, tag), st''))
        × Paired (sodium.push st m tag).1 st''

-- What libsodium documents of the key exchange: two ends that exchange their public keys have the
-- same session keys, each to receive what the other transmits.
pub record KeyExchange (sodium : Sodium) : Type 0 where
  pub public_length : (r : sodium.Rng) → length (sodium.kx_keypair r).0.0 ≡ kx_publickeybytes
  pub agrees :
      (r r' : sodium.Rng)
      → (rx : List ℕ) × (tx : List ℕ) × (sodium.kx_server_session_keys
            (sodium.kx_keypair r).0.0
            (sodium.kx_keypair r).0.1
            (sodium.kx_keypair r').0.0
          ≡ some (rx, tx))
        × (sodium.kx_client_session_keys
              (sodium.kx_keypair r').0.0
              (sodium.kx_keypair r').0.1
              (sodium.kx_keypair r).0.0
            ≡ some (tx, rx))

-- A file that is written can be read.
pub record Remembers (storage : Storage) : Type 0 where
  pub reads :
      (path contents : List ℕ) (disk : storage.Disk)
      → storage.open_read path (storage.write_file path contents disk) ≡ some contents

-- Where no signal is to come, `recv` delivers at once what has been sent, as far as it is asked for.
pub record Prompt (net : Net) (view : View net.Sock) : Type 0 where
  pub delivers :
      (n : ℕ) (front rest : List ℕ) (s : net.Sock)
      → length front ≡ n
      → view.pending s ≡ front ++ rest
      → view.noise s ≡ 0
      → (s' : net.Sock) × (net.recv n s ≡ (got front, s'))
        × (view.pending s' ≡ rest)
        × (view.written s' ≡ view.written s)
        × (view.noise s' ≡ 0)
