-- ===== src/Server/Login/Toy.antt =====
-- A database in memory for the examples: a table of users, a count of open statements, and where the
-- last statement stands.
use mefsc.Common.{ℕ, suc, ◌-◌, ◌<◌, ◌≡◌, refl, Bool, true, false, Option, none, some, List, arith}
use mefsc.Platform.Database.{Database, Table, Phase, prepared, bound, on_row}
use mefsc.Platform.Toy.{find}
use mefsc.CText.{query}

pub record Tables : Type 0 where
  pub users : List (List ℕ × List ℕ)
  pub opened : ℕ
  pub phase : Phase

abbrev found : Tables → Option (List ℕ) → Bool × Tables
found d none = (false, d)
found d (some hash) = (true, record d { phase = on_row hash })

abbrev advance : Phase → Tables → Bool × Tables
advance (bound name) d = found d (find name d.users)
advance p d = (false, d)

abbrev column : Phase → Option (List ℕ)
column (on_row hash) = some hash
column p = none

abbrev pub tables : Database
tables = record {
  Db = Tables;
  Stmt = Unit {0};
  prepare = λ text d. (some tt, record d { opened = suc d.opened; phase = prepared });
  bind_text = λ stmt n name d. record d { phase = bound name };
  step = λ stmt d. advance d.phase d;
  column_text = λ stmt n d. column d.phase;
  finalize = λ stmt d. record d { opened = d.opened - 1 };
}

pub table : Table tables query
table = record {
  users = λ d name. find name d.users;
  open_statements = λ d. d.opened;
  At = λ stmt p d. (d.phase ≡ p) × (0 < d.opened);
  prepares = λ d. (
    tt,
    record d { opened = suc d.opened; phase = prepared },
    refl,
    (refl, omega arith),
    refl,
    refl,
  );
  binds = λ stmt name d a. ((refl, a.1), refl, refl);
  finds = λ stmt name hash d a u.
      (record d { phase = on_row hash }, rw (a.0, u) refl, (refl, a.1), refl, refl);
  misses = λ stmt name d a u. (d, rw (a.0, u) refl, refl, refl);
  reads = λ stmt hash d a. rw a.0 refl;
  finalizes = λ stmt hash d a. (refl, omega (arith, a.1));
}

pub users-find : (d : Tables) (name : List ℕ) → table.users d name ≡ find name d.users
unfolding table
users-find d name = refl
