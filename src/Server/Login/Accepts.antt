-- ===== src/Server/Login/Accepts.antt =====
-- `login` against the table of users: what it answers, and the statement that it leaves open.
use mefsc.Common.{
  ℕ, ◌+◌, ◌≡◌, refl, ap, ◌∙◌, Bool, false, Option, none, some, List, arith, if◌then◌else◌,
  Bool-cases, Option-cases, inl, inr,
}
use mefsc.Platform.{Platform}
use mefsc.Platform.Database.{Database, Table}
use mefsc.Outcome.{Outcome}
use mefsc.CText.{c_str, query}
use mefsc.Server.Login.{login}

module _ ⦃p : Platform⦄ (db : Database) (table : Table db query) where
  open table use {users, open_statements}

  -- The specification: the user is in the table and the password fits the hash.
  abbrev pub accepts : Option (List ℕ) → List ℕ → Bool
  accepts none password = false
  accepts (some hash) password = p.sodium.pwhash_str_verify hash password

  -- What a call leaves: the status, the users as they were, and perhaps one more open statement.
  pub record Answered (username password name : List ℕ) (d : db.Db) : Type 0 where
    pub after : db.Db
    pub result :
        login db username password d
        ≡ Outcome.next (if accepts (users d name) password then 0 else 1) after
    pub same_users : users after ≡ users d
    pub leaked :
        open_statements after
        ≡ open_statements d + (if accepts (users d name) password then 0 else 1)

  -- With a NUL behind the name, `login` returns 0 exactly if the user is in the table and the password
  -- fits, and 1 otherwise. The table stays; a statement is left open for each refusal, and none
  -- otherwise.
  pub login-Answered :
      (username password name : List ℕ) (d : db.Db)
      → c_str username ≡ some name
      → Answered username password name d
  unfolding login
  login-Answered username password name d h =
      let (stmt, d1, e1, a1, u1, n1) = table.prepares d in
      let (a2, u2, n2) = table.binds stmt name d1 a1 in
      let d2 : db.Db = db.bind_text stmt 1 name d1 in
      elim (Option-cases (users d name)) [
        | inl gone ↦
            let (d3, e3, u3, n3) =
              table.misses stmt name d2 a2 (ap (λ f. f name) (u2 ∙ u1) ∙ gone) in
            record {
              after = d3;
              result = rw (e1, h, e3, gone) refl;
              same_users = u3 ∙ u2 ∙ u1;
              leaked = rw gone (omega (arith, n1, n2, n3));
            }
        | inr (hash, found) ↦
            let (d3, e3, a3, u3, n3) =
              table.finds stmt name hash d2 a2 (ap (λ f. f name) (u2 ∙ u1) ∙ found) in
            let c : db.column_text stmt 0 d3 ≡ some hash = table.reads stmt hash d3 a3 in
            elim (Bool-cases (p.sodium.pwhash_str_verify hash password)) [
              | inl fits ↦
                  let (u4, n4) = table.finalizes stmt hash d3 a3 in
                  record {
                    after = db.finalize stmt d3;
                    result = rw (e1, h, e3, c, found, fits) refl;
                    same_users = u4 ∙ u3 ∙ u2 ∙ u1;
                    leaked = rw (found, fits) (omega (arith, n1, n2, n3, n4));
                  }
              | inr wrong ↦ record {
                after = d3;
                result = rw (e1, h, e3, c, found, wrong) refl;
                same_users = u3 ∙ u2 ∙ u1;
                leaked = rw (found, wrong) (omega (arith, n1, n2, n3));
              }
            ]
      ]
