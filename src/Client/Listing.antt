-- ===== src/Client/Listing.antt =====
-- src/client/client.cpp: `LFFS_Handler` and `DFFS_Handler`.
pub mod Shows
pub mod Deletes
mod Examples
use mefsc.Common.{
  ℕ, zero, suc, ◌-◌, ◌^◌, Bool, none, some, List, [], ◌∷◌, ◌++◌, replicate, ◌==◌, if◌then◌else◌,
  ltb,
}
use mefsc.Constants.{max_file_name_length, ack_suc}
use mefsc.Platform.{Platform, W}
use mefsc.Outcome.{M, undefined, pure, fail, ◌>>=◌}
use mefsc.Session.{wrap_and_send}
use mefsc.CText.{overwrite, c_str}
use mefsc.Server.{int_after, random_bytes, expect}
use mefsc.Client.{CommsAgent}

-- The rounds of `for (int i = 0; i < n; ++i)`: none for a negative `int`.
abbrev pub rounds_of : ℕ → ℕ
rounds_of n = if ltb n (2 ^ 31) then n else 0

module _ ⦃p : Platform⦄ (fuel : ℕ) (ca : CommsAgent) where
  show_name : List ℕ → M W (List ℕ)
  show_name buffer = elim (c_str buffer) [ none ↦ fail undefined | some t ↦ pure t ]

  -- A name goes into 255 zeros, at most 254 bytes of it.
  pub read_name : M W (List ℕ)
  read_name = do
    bytes ← expect fuel ca.client_rx (max_file_name_length - 1) 1 1
    show_name (overwrite bytes (replicate max_file_name_length 0))

  -- The names that are shown.
  pub read_names : ℕ → M W (List (List ℕ))
  read_names zero = pure []
  read_names (suc n) = do name ← read_name; names ← read_names n; pure (name ∷ names)

  -- An early return is the status 1; otherwise the status is 0 and these names are shown.
  pub lffs_handler : ℕ → M W (List (List ℕ))
  lffs_handler stale_int = do
    bytes ← expect fuel ca.client_rx 4 1 1
    read_names (rounds_of (int_after bytes stale_int))

  -- An early return is the status 1; otherwise the status is 0, and the answer says whether
  -- "deleted successfully" is shown.
  pub dffs_handler : ℕ → List ℕ → M W Bool
  dffs_handler stale_int file_name = do
    nonce ← random_bytes 8
    nonce' ← wrap_and_send ca.client_tx nonce (file_name ++ (0 ∷ []))
    bytes ← expect fuel ca.client_rx 4 1 1
    pure (int_after bytes stale_int == ack_suc)
