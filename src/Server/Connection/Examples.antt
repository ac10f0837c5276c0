-- ===== src/Server/Connection/Examples.antt =====
-- Connections in memory.
use mefsc.Common.{ℕ, List, [], ◌∷◌, ◌++◌, arith, refl, le_bytes, ◌⊎◌}
use mefsc.Constants.{new_action, no_action, list_files}
use mefsc.Platform.{W}
use mefsc.Platform.Toy.{toy, view, reliable, world}
use mefsc.Wire.Receive.{Gives}
use mefsc.Session.Toy.{key, frame_of, int_framed}
use mefsc.Server.{Operator, Stale}
use mefsc.Server.Login.Silent.{pair_disk}
use mefsc.Wire.Silent.{Keeps}
use mefsc.Server.Login.Toy.{Tables, tables, table, users-find}
use mefsc.Platform.Database.{prepared}
use mefsc.Server.Connection.{handle_conn, serve}
use mefsc.Server.Connection.Serving.{serve-without_intent}
use mefsc.Server.Connection.Sessions.{connection}
use mefsc.Server.Toy.{locals}
use mefsc.Server.Connection.Untouched.{handle_conn-unharmed, LoggedIn}

abbrev operator : Operator
operator = record { user_dir = []; server_rx = key; server_tx = []; nonce = [] }

abbrev stale : Stale
stale = record { int = 5; file_name_buf = []; file_name_length = 0; header = []; salt = [] }

abbrev number : ℕ → List ℕ
number n = frame_of (le_bytes 4 n)

abbrev leaving : W
leaving = world (number no_action ++ (1 ∷ [])) 1

-- An announced action without an intent, and then a listing.
abbrev desynchronised : W
desynchronised = world (number new_action ++ (number new_action ++ (number list_files ++ []))) 0

serve-without_intent_example :
    Gives view (serve 70000 3 stale 3 operator desynchronised) tt desynchronised []
serve-without_intent_example =
    serve-without_intent view reliable 70000 3 stale operator 1 list_files (int_framed new_action)
      (int_framed new_action) (int_framed list_files) [] desynchronised (omega arith)
      (λ e. omega (arith, e)) refl (omega arith)

abbrev no_users : Tables
no_users = record { users = []; opened = 0; phase = prepared }

handle_conn-unharmed_example :
    Keeps pair_disk connection.disk
      (handle_conn 70000 5 stale tables locals 3 (connection, no_users))
    ⊎ LoggedIn 70000 5 stale tables table locals connection no_users
handle_conn-unharmed_example =
    handle_conn-unharmed 70000 5 stale tables table locals 3 connection no_users

nobody_in : ¬ LoggedIn 70000 5 stale tables table locals connection no_users
nobody_in l = absurd (ground (arith, l.presented.fits, users-find no_users l.presented.name))
