-- ===== src/Transfer.antt =====
-- The wire format of a file transfer, which the sending and the receiving side of client and server
-- share: a sealed prefix before each chunk, which says whether it is the last one.
pub mod Rounds
pub mod Messages
use mefsc.Common.{ℕ, ◌+◌, ◌≤◌, ◌<◌, ◌≡◌, some, List, [], ◌∷◌, ◌++◌, length, le_bytes}
use mefsc.Constants.{end_chunk, meat_chunk, file_encrypted_chunk_size, secretstream_abytes}
use mefsc.Platform.{Platform}
use mefsc.Wire.Blobs.{blob}
use mefsc.Session.Frames.{Framed}

-- These bytes announce a file: that it exists, its name, the header of its encryption and the salt.
pub record Announcement ⦃p : Platform⦄ (key name header salt bytes : List ℕ) : Type 0 where
  pub exists_frame : List ℕ
  pub name_frame : List ℕ
  pub header_frame : List ℕ
  pub salt_frame : List ℕ
  pub shape : bytes ≡ exists_frame ++ (name_frame ++ (header_frame ++ salt_frame))
  pub exists_framed : Framed key (1 ∷ []) exists_frame
  pub name_framed : Framed key name name_frame
  pub header_framed : Framed key header header_frame
  pub salt_framed : Framed key salt salt_frame

-- These bytes carry these chunks, with prefixes under `key`.
pub data Chunks ⦃p : Platform⦄ (key : List ℕ) : List (List ℕ) → List ℕ → Type 0 where
  last :
      {c f bytes : List ℕ}
      → Framed key (le_bytes 4 end_chunk) f
      → length c ≤ file_encrypted_chunk_size
      → bytes ≡ f ++ blob c
      → Chunks key (c ∷ []) bytes
  more :
      {c f bytes g : List ℕ} {cs : List (List ℕ)}
      → Framed key (le_bytes 4 meat_chunk) f
      → length c ≤ file_encrypted_chunk_size
      → Chunks key cs g
      → bytes ≡ f ++ (blob c ++ g)
      → Chunks key (c ∷ cs) bytes

-- Chunks as the loops over a file cut them: each has `size` bytes, but the last is shorter.
pub data IsCut (size : ℕ) : List (List ℕ) → Type 0 where
  last : {c : List ℕ} → length c < size → IsCut size (c ∷ [])
  more : {c : List ℕ} {cs : List (List ℕ)} → length c ≡ size → IsCut size cs → IsCut size (c ∷ cs)

-- A secretstream that opens these chunks to these messages, one after another.
pub data Opens ⦃p : Platform⦄ : p.sodium.Stream → List (List ℕ) → List (List ℕ) → Type 0 where
  last :
      {c m : List ℕ} {tag : ℕ} {st st' : p.sodium.Stream}
      → p.sodium.pull st c ≡ some ((m, tag), st')
      → length c ≡ length m + secretstream_abytes
      → Opens st (c ∷ []) (m ∷ [])
  more :
      {c m : List ℕ} {tag : ℕ} {cs ms : List (List ℕ)} {st st' : p.sodium.Stream}
      → p.sodium.pull st c ≡ some ((m, tag), st')
      → length c ≡ length m + secretstream_abytes
      → Opens st' cs ms
      → Opens st (c ∷ cs) (m ∷ ms)
