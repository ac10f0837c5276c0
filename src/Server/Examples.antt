-- ===== src/Server/Examples.antt =====
-- The messages that start an action, on the connection in memory.
use mefsc.Common.{ℕ, ◌∷◌, ◌≡◌, some, replicate, [], ◌++◌, refl, le_bytes}
use mefsc.Platform.{W}
use mefsc.Platform.Toy.{seen, toy, world}
use mefsc.Session.Toy.{key, frame_of}
use mefsc.Server.{Operator, Stale, fs_operator, random_bytes}

abbrev operator : Operator
operator = record { user_dir = []; server_rx = key; server_tx = []; nonce = [] }

abbrev stale : Stale
stale = record { int = 5; file_name_buf = []; file_name_length = 0; header = []; salt = [] }

abbrev carrying : ℕ → W
carrying n = world (frame_of (le_bytes 4 n) ++ []) 1

-- The directory of the user "a".
made :
    seen (fs_operator (97 ∷ []) key key (world [] 0))
    ≡ some (
      record {
        user_dir = 77 ∷ 69 ∷ 70 ∷ 95 ∷ 83 ∷ 47 ∷ 97 ∷ 47 ∷ [];
        server_rx = key;
        server_tx = key;
        nonce = replicate 8 7;
      },
      [],
    )
unfolding fs_operator random_bytes
made = refl
