-- ===== src/Server/Toy.antt =====
-- A server for the examples: arrays of the declared sizes, an empty disk, and the user "a", whose password
-- is "b".
use mefsc.Common.{ℕ, ◌≡◌, ◌≢◌, refl, ap, true, List, [], ◌∷◌, arith, replicate, length-replicate}
use mefsc.Platform.Toy.{toy, storage}
use mefsc.Platform.Database.{prepared}
use mefsc.Store.{IsSealed}
use mefsc.Store.Folder.{files}
use mefsc.Server.{Stale}
use mefsc.Server.Upload.Announce.{Sized}
use mefsc.Server.Login.{StaleLogin}
use mefsc.Server.Login.Accepts.{accepts}
use mefsc.Server.Login.Toy.{Tables, tables, table, users-find}

abbrev pub stale : Stale
stale = record {
  int = 0;
  file_name_buf = replicate 65553 170;
  file_name_length = 0;
  header = replicate 24 170;
  salt = replicate 16 170;
}

pub sized : Sized stale
sized = record {
  name_size = length-replicate {A = ℕ} 65553 170;
  header_size = refl;
  salt_size = refl;
}

pub no_files-IsSealed : (dir : List ℕ) → IsSealed 5 (files storage dir [])
no_files-IsSealed dir name contents h e = absurd (ground (arith, e))

abbrev pub locals : StaleLogin
locals = record { username = []; password = []; password_len = 0 }

abbrev pub one_user : Tables
one_user = record { users = ((97 ∷ []), (98 ∷ 0 ∷ [])) ∷ []; opened = 0; phase = prepared }

abbrev letter : ℕ
letter = 97

pub a_is_no_nul : letter ≢ 0
a_is_no_nul e = omega (arith, e)

pub password_fits : accepts tables table (table.users one_user (97 ∷ [])) (98 ∷ 0 ∷ []) ≡ true
password_fits = ap (λ o. accepts tables table o (98 ∷ 0 ∷ [])) (users-find one_user (97 ∷ []))
