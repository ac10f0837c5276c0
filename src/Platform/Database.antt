-- ===== src/Platform/Database.antt =====
-- The calls of sqlite, as a parameter, and what sqlite documents of the one query that is made.
use mefsc.Common.{ℕ, suc, ◌≡◌, Bool, true, false, Option, none, some, List}

-- `Db` is the state of an open database. `prepare` has the text of the query; it answers none on an
-- error. `step` says whether there is a row; a column is none where it is null.
pub record Database : Type 1 where
  pub Db : Type 0
  pub Stmt : Type 0
  pub prepare : List ℕ → Db → Option Stmt × Db
  pub bind_text : Stmt → ℕ → List ℕ → Db → Db
  pub step : Stmt → Db → Bool × Db
  pub column_text : Stmt → ℕ → Db → Option (List ℕ)
  pub finalize : Stmt → Db → Db

-- The statement after each of its calls: prepared, with its parameter bound, and on a row.
pub data Phase : Type 0 where
  prepared : Phase
  bound : List ℕ → Phase
  on_row : List ℕ → Phase

-- The query for the hash of a user, where the table has `users d name` and `open_statements d` counts
-- the statements that are not finalized.
pub record Table (db : Database) (query : List ℕ) : Type 1 where
  pub users : db.Db → List ℕ → Option (List ℕ)
  pub open_statements : db.Db → ℕ
  pub At : db.Stmt → Phase → db.Db → Type 0
  pub prepares :
      (d : db.Db)
      → (stmt : db.Stmt) × (d' : db.Db) × (db.prepare query d ≡ (some stmt, d'))
        × At stmt prepared d'
        × (users d' ≡ users d)
        × (open_statements d' ≡ suc (open_statements d))
  pub binds :
      (stmt : db.Stmt) (name : List ℕ) (d : db.Db)
      → At stmt prepared d
      → At stmt (bound name) (db.bind_text stmt 1 name d)
        × (users (db.bind_text stmt 1 name d) ≡ users d)
        × (open_statements (db.bind_text stmt 1 name d) ≡ open_statements d)
  pub finds :
      (stmt : db.Stmt) (name hash : List ℕ) (d : db.Db)
      → At stmt (bound name) d
      → users d name ≡ some hash
      → (d' : db.Db) × (db.step stmt d ≡ (true, d'))
        × At stmt (on_row hash) d'
        × (users d' ≡ users d)
        × (open_statements d' ≡ open_statements d)
  pub misses :
      (stmt : db.Stmt) (name : List ℕ) (d : db.Db)
      → At stmt (bound name) d
      → users d name ≡ none
      → (d' : db.Db) × (db.step stmt d ≡ (false, d'))
        × (users d' ≡ users d)
        × (open_statements d' ≡ open_statements d)
  pub reads :
      (stmt : db.Stmt) (hash : List ℕ) (d : db.Db)
      → At stmt (on_row hash) d
      → db.column_text stmt 0 d ≡ some hash
  pub finalizes :
      (stmt : db.Stmt) (hash : List ℕ) (d : db.Db)
      → At stmt (on_row hash) d
      → (users (db.finalize stmt d) ≡ users d)
        × (suc (open_statements (db.finalize stmt d)) ≡ open_statements d)
