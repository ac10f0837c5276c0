-- ===== src/Server.antt =====
-- src/server/read_write_handlers.cpp: the operations that the server performs for a client that has
-- logged in (class `FS_Operator`, include/read_write_handlers.h). The object is the record `Operator`;
-- its `client_sock` is the connection of the `World`. What an uninitialised variable holds is a
-- parameter, `Stale`. Lines for the log are left out.
pub mod Upload
pub mod Download
pub mod Listing
pub mod Actions
pub mod Login
pub mod Connection
pub mod Pool
pub mod Startup
pub mod Toy
mod Examples
use mefsc.Common.{
  ℕ, ◌+◌, ◌≡◌, Bool, true, false, not, List, [], ◌∷◌, ◌++◌, length, le_bytes, of_le, ◌==◌,
  if◌then◌else◌, ltb, ◌<◌, ◌^◌, arith, length-le_bytes, of_le-le_bytes_int,
}
use mefsc.Constants.{new_action, invalid_read_intent}
use mefsc.Platform.{Platform, World, W}
use mefsc.Outcome.{
  M, Outcome, leave, fault, undefined, pure, return, return_if, fail, call, bind, ◌>>=◌, ◌>>◌,
}
use mefsc.Outcome
use mefsc.Session.{Wrapper, Unwrapped, read_wrapper, unwrap}
use mefsc.CText.{overwrite, overwrite_all, base_dir, slash}

pub record Operator : Type 0 where
  pub user_dir : List ℕ
  pub server_rx : List ℕ
  pub server_tx : List ℕ
  pub nonce : List ℕ

-- What the uninitialised locals hold: an `int`, the length and the buffers of `init_read`.
pub record Stale : Type 0 where
  pub int : ℕ
  pub file_name_buf : List ℕ
  pub file_name_length : ℕ
  pub header : List ℕ
  pub salt : List ℕ

-- An `int` that held `old`, after bytes are copied to its front.
abbrev pub int_after : List ℕ → ℕ → ℕ
int_after bytes old = of_le (overwrite bytes (le_bytes 4 old))

pub int_after-le_bytes : (n old : ℕ) → n < 2 ^ 32 → int_after (le_bytes 4 n) old ≡ n
int_after-le_bytes n old h =
    rw
      (overwrite_all (le_bytes 4 n) (le_bytes 4 old)
        (omega (arith, length-le_bytes 4 n, length-le_bytes 4 old)))
      (of_le-le_bytes_int n h)

module _ ⦃p : Platform⦄ where
  open p.sodium use {Rng, randombytes_buf}
  open p.storage use {create_directories}

  -- A fresh nonce.
  unfoldable pub random_bytes : ℕ → M W (List ℕ)
  random_bytes n w =
      let (bytes, rng) = randombytes_buf n w.rng in Outcome.next bytes (record w { rng = rng })

  -- `FS_Operator(client_sock, username, server_rx, server_tx)`.
  pub fs_operator : List ℕ → List ℕ → List ℕ → M W Operator
  fs_operator username server_rx server_tx w =
      let user_dir : List ℕ = base_dir ++ (username ++ slash) in
      let made = record w { disk = create_directories user_dir w.disk } in
      bind (random_bytes 8 made) λ nonce. pure (record {
        user_dir = user_dir;
        server_rx = server_rx;
        server_tx = server_tx;
        nonce = nonce;
      })

  -- Reads a message: `return corrupt;` if it did not arrive, `return bad;` if it does not open.
  unfoldable pub expect : ℕ → List ℕ → ℕ → ℕ → ℕ → M W (List ℕ)
  expect fuel rx capacity corrupt bad = do
    w ← read_wrapper fuel
    return_if w.corrupted corrupt
    let u = unwrap rx capacity w
    return_if (not (u.status == 0)) bad
    pure u.decrypted_data

  pub receive_notice_of_new_action : ℕ → Stale → Operator → M W ℕ
  receive_notice_of_new_action fuel stale op = call do
    bytes ← expect fuel op.server_rx 4 3 2
    let notice = int_after bytes stale.int
    return (if notice == new_action then 0 else 1)

  pub read_intent : ℕ → Stale → Operator → M W ℕ
  read_intent fuel stale op = call do
    bytes ← expect fuel op.server_rx 4 invalid_read_intent invalid_read_intent
    return (int_after bytes stale.int)
