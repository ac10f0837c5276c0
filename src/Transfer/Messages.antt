-- ===== src/Transfer/Messages.antt =====
-- Messages that go over a session one after another, each in a frame.
use mefsc.Common.{ℕ, ◌+◌, ◌≤◌, ◌≡◌, List, [], ◌∷◌, ◌++◌, length}
use mefsc.Constants.{stream_chunk_size, aead_abytes}
use mefsc.Platform.{Platform}
use mefsc.Session.Frames.{Framed}

-- These bytes carry these messages under `key`.
pub data Messages ⦃p : Platform⦄ (key : List ℕ) : List (List ℕ) → List ℕ → Type 0 where
  done : Messages key [] []
  then :
      {m f g bytes : List ℕ} {ms : List (List ℕ)}
      → Framed key m f
      → Messages key ms g
      → bytes ≡ f ++ g
      → Messages key (m ∷ ms) bytes

-- A name as it is sent.
abbrev pub with_nul : List ℕ → List ℕ
with_nul name = name ++ (0 ∷ [])

-- A name that a frame has room for.
abbrev pub HasFrame : List ℕ → Type 0
HasFrame name = length name + 1 + aead_abytes ≤ stream_chunk_size
