-- ===== src/Server/Login/Examples.antt =====
-- Logins against a table with one user, "a", whose password is "b".
use mefsc.Common.{ℕ, ◌≡◌, ◌≢◌, [], ◌∷◌, ◌++◌, arith, refl}
use mefsc.Platform.{W}
use mefsc.Platform.Database.{prepared}
use mefsc.Platform.Toy.{toy, view, reliable, world}
use mefsc.Outcome.{Outcome}
use mefsc.Wire.Receive.{Received}
use mefsc.CText.{c_str}
use mefsc.Session.Toy.{key, frame_of, framed}
use mefsc.Server.Login.{StaleLogin, verify_credentials}
use mefsc.Server.Login.Toy.{Tables, tables, table}
use mefsc.Server.Login.Accepts.{Answered, login-Answered}
use mefsc.Server.Login.Verified.{verdict, verify_credentials-Framed}

abbrev one_user : Tables
one_user = record { users = ((97 ∷ []), (98 ∷ 0 ∷ [])) ∷ []; opened = 2; phase = prepared }

login-Answered_example : Answered tables table (97 ∷ 0 ∷ []) (98 ∷ 0 ∷ []) (97 ∷ []) one_user
unfolding c_str
login-Answered_example =
    login-Answered tables table (97 ∷ 0 ∷ []) (98 ∷ 0 ∷ []) (97 ∷ []) one_user refl

abbrev locals : StaleLogin
locals = record { username = []; password = []; password_len = 0 }

abbrev logging_in : W
logging_in = world (frame_of (97 ∷ 0 ∷ []) ++ (frame_of (99 ∷ 0 ∷ []) ++ (1 ∷ []))) 1

abbrev letter : ℕ
letter = 97

a_is_no_nul : letter ≢ 0
a_is_no_nul = λ e. omega (arith, e)

-- The wrong password.
verify_credentials-Framed_example :
    (w : W) × (d : Tables) × (verify_credentials tables 70000 locals key (logging_in, one_user)
      ≡ Outcome.next
          (verdict view reliable tables table 70000 locals key (97 ∷ []) (99 ∷ []) one_user)
          (w, d))
    × Received view logging_in (1 ∷ []) w
    × (table.users d ≡ table.users one_user)
verify_credentials-Framed_example =
    verify_credentials-Framed view reliable tables table 70000 locals key (97 ∷ []) (99 ∷ [])
      (framed (97 ∷ 0 ∷ []) (omega arith)) (framed (99 ∷ 0 ∷ []) (omega arith)) (1 ∷ []) logging_in
      one_user (a_is_no_nul, tt) refl (omega arith)
