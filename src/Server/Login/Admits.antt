-- ===== src/Server/Login/Admits.antt =====
-- Whom `verify_credentials` lets in, whatever the peer sends.
use mefsc.Common.{
  ℕ, ◌≡◌, refl, Bool, true, false, some, List, Option-cases, inl, inr, if◌then◌else◌,
}
use mefsc.Constants.{file_encrypted_chunk_size}
use mefsc.Platform.{Platform, W}
use mefsc.Platform.Database.{Database, Table}
use mefsc.Outcome.{Outcome, next, leave, fault, M, bind, beside}
use mefsc.CText.{c_str, overwrite, query}
use mefsc.Session.{read_wrapper, unwrap, Wrapper}
use mefsc.Server.Login.{StaleLogin, password_of, with_password, with_username, verify_credentials}
use mefsc.Server.Login.Accepts.{accepts, login-Answered}

module _ ⦃p : Platform⦄ (db : Database) (table : Table db query) (fuel : ℕ) (stale : StaleLogin)
    (rx : List ℕ) where
  open table use {users}

  -- What the program makes of the first and of the second message.
  abbrev pub name_buffer : Wrapper → List ℕ
  name_buffer first =
      overwrite (unwrap rx file_encrypted_chunk_size first).decrypted_data stale.username

  abbrev pub password_in : Wrapper → List ℕ
  password_in second = password_of db stale (unwrap rx file_encrypted_chunk_size second)

  -- The peer has sent two messages: the name of a user in the table, and a password that fits.
  pub record Presented (w : W) (t : db.Db) : Type 0 where
    pub first : Wrapper
    pub second : Wrapper
    pub w1 : W
    pub w2 : W
    pub name : List ℕ
    pub first_read : read_wrapper fuel w ≡ next first w1
    pub named : c_str (name_buffer first) ≡ some name
    pub second_read : read_wrapper fuel w1 ≡ next second w2
    pub fits : accepts db table (users t name) (password_in second) ≡ true

  -- What a status of 0 means.
  abbrev pub Admits : Type 0 → Outcome (W × db.Db) (ℕ × List ℕ) → Type 0
  Admits P (next (status, name) s) = status ≡ 0 → P
  Admits P (leave c s) = Unit
  Admits P (fault e) = Unit

  Admits-beside :
      {A : Type 0} (P : Type 0) (m : Outcome W A) (t : db.Db) (f : A → M (W × db.Db) (ℕ × List ℕ))
      → ((a : A) (w : W) → m ≡ next a w → Admits P (f a (w, t)))
      → Admits P (bind (beside m t) f)
  Admits-beside P (next a w) t f h = h a w refl
  Admits-beside P (leave c w) t f h = tt
  Admits-beside P (fault e) t f h = tt

  zero-true : (b : Bool) → ◌≡◌ {A = ℕ} (if b then 0 else 1) 0 → b ≡ true
  zero-true true e = refl
  zero-true false e = cc

  with_password-Admits :
      (P : Type 0) (buffer name : List ℕ) (second : Wrapper) (w : W) (t : db.Db)
      → c_str buffer ≡ some name
      → (accepts db table (users t name) (password_in second) ≡ true → P)
      → Admits P
          (with_password db stale buffer name (unwrap rx file_encrypted_chunk_size second) (w, t))
  unfolding with_password
  with_password-Admits P buffer name second w t h k =
      let a = login-Answered db table buffer (password_in second) name t h in
      rw a.result λ e. k (zero-true (accepts db table (users t name) (password_in second)) e)

  with_username-Admits :
      (P : Type 0) (first : Wrapper) (w : W) (t : db.Db)
      → ((name : List ℕ) (second : Wrapper) (w' : W)
          → c_str (name_buffer first) ≡ some name
          → read_wrapper fuel w ≡ next second w'
          → accepts db table (users t name) (password_in second) ≡ true
          → P)
      → Admits P (with_username db fuel stale rx (unwrap rx file_encrypted_chunk_size first) (w, t))
  unfolding with_username
  with_username-Admits P first w t k = elim (Option-cases (c_str (name_buffer first))) [
    | inl e ↦ rw e tt
    | inr (name, e) ↦ rw e (
        Admits-beside P (read_wrapper fuel w) t _ λ second w' r.
          with_password-Admits P (name_buffer first) name second w' t e (k name second w' e r))
  ]

  -- Whatever the peer sends: a status of 0 means that it has presented a name and a password that the table
  -- accepts.
  pub verify_credentials-Admits :
      (w : W) (t : db.Db) → Admits (Presented w t) (verify_credentials db fuel stale rx (w, t))
  unfolding verify_credentials
  verify_credentials-Admits w t =
      Admits-beside (Presented w t) (read_wrapper fuel w) t _ λ first w1 r1.
        with_username-Admits (Presented w t) first w1 t λ name second w2 e r2 fits. record {
          first = first;
          second = second;
          w1 = w1;
          w2 = w2;
          name = name;
          first_read = r1;
          named = e;
          second_read = r2;
          fits = fits;
        }
