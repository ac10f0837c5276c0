-- ===== src/Server/Login.antt =====
-- src/server/auth.cpp, `login`, and src/server/server.cpp, `verify_credentials`.
pub mod Accepts
pub mod Silent
pub mod Verified
pub mod Admits
pub mod Toy
mod Examples
use mefsc.Common.{
  ℕ, ◌++◌, Bool, true, false, not, Option, none, some, List, length, take, ◌==◌, if◌then◌else◌,
}
use mefsc.Constants.{file_encrypted_chunk_size}
use mefsc.Platform.{Platform, W}
use mefsc.Platform.Database.{Database}
use mefsc.Outcome.{
  M, Outcome, undefined, pure, return_if, or_return, fail, call, on_first, on_second, ◌>>=◌, ◌>>◌,
}
use mefsc.Outcome
use mefsc.Session.{Unwrapped, read_wrapper, unwrap}
use mefsc.CText.{overwrite, c_str, query}

-- What the uninitialised locals of `verify_credentials` hold.
pub record StaleLogin : Type 0 where
  pub username : List ℕ
  pub password : List ℕ
  pub password_len : ℕ

-- A text that C reads up to its NUL.
abbrev pub known : {S A : Type 0} → Option A → M S A
known none = fail undefined
known (some a) = pure a

module _ ⦃p : Platform⦄ (db : Database) where
  open p.sodium use {pwhash_str_verify}
  open db use {Db, Stmt}

  prepare : M Db Stmt
  prepare d = let (stmt, d') = db.prepare query d in or_return stmt 1 d'

  bind_text : Stmt → List ℕ → M Db (Unit {0})
  bind_text stmt name d = Outcome.next tt (db.bind_text stmt 1 name d)

  step : Stmt → M Db Bool
  step stmt d = let (row, d') = db.step stmt d in Outcome.next row d'

  column_text : Stmt → M Db (List ℕ)
  column_text stmt d = known (db.column_text stmt 0 d) d

  finalize : Stmt → M Db (Unit {0})
  finalize stmt d = Outcome.next tt (db.finalize stmt d)

  -- The buffer with the name, and the bytes of the password. The statement is finalized on success
  -- alone.
  pub login : List ℕ → List ℕ → M Db ℕ
  unfolding prepare bind_text step column_text finalize
  login username password = call do
    stmt ← prepare
    name ← known (c_str username)
    bind_text stmt name
    row ← step stmt
    return_if (not row) 1
    hash ← column_text stmt
    return_if (not (pwhash_str_verify hash password)) 1
    finalize stmt
    pure 0

  -- `password_len` is set by a successful `unwrap`.
  abbrev pub password_of : StaleLogin → Unwrapped → List ℕ
  password_of stale u =
      take (if u.status == 0 then length u.decrypted_data else stale.password_len)
        (overwrite u.decrypted_data stale.password)

  with_password : StaleLogin → List ℕ → List ℕ → Unwrapped → M (W × Db) (ℕ × List ℕ)
  with_password stale decrypted_username username v = do
    status ← on_second (login decrypted_username (password_of stale v))
    pure (status, username)

  with_username : ℕ → StaleLogin → List ℕ → Unwrapped → M (W × Db) (ℕ × List ℕ)
  with_username fuel stale server_rx u = do
    let decrypted_username = overwrite u.decrypted_data stale.username
    username ← known (c_str decrypted_username)
    password_wrapper ← on_first (read_wrapper fuel)
    with_password stale decrypted_username username
        (unwrap server_rx file_encrypted_chunk_size password_wrapper)

  -- The statuses of the two `unwrap` calls are not looked at. The answer is the status of `login`, and
  -- the user's name.
  pub verify_credentials : ℕ → StaleLogin → List ℕ → M (W × Db) (ℕ × List ℕ)
  verify_credentials fuel stale server_rx = do
    username_wrapper ← on_first (read_wrapper fuel)
    with_username fuel stale server_rx (unwrap server_rx file_encrypted_chunk_size username_wrapper)
