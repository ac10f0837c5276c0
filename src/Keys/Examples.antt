-- ===== src/Keys/Examples.antt =====
-- The key exchange on the connection in memory.
use mefsc.Common.{ℕ, ◌++◌, List, [], ◌∷◌, arith, refl, replicate}
use mefsc.Platform.{W}
use mefsc.Platform.Toy.{toy, view, reliable, key_exchange, world}
use mefsc.Wire.Talk.{Talks}
use mefsc.Keys.{server_crypt_gen, client_crypt_gen}
use mefsc.Keys.Agreement.{public_key, server_crypt_gen-client_crypt_gen}

-- The server's random source says 7, and the client's 9.
abbrev at_server : W
at_server = world (replicate 32 9 ++ (1 ∷ [])) 1

abbrev at_client : W
at_client = record (world (replicate 32 7 ++ []) 0) { rng = 9 }

server_crypt_gen-client_crypt_gen_example :
    (rx : List ℕ) × (tx : List ℕ) × Talks view
      (server_crypt_gen 50 at_server)
      (rx, tx)
      at_server
      (public_key at_server)
      (1 ∷ [])
    × Talks view (client_crypt_gen 50 at_client) (tx, rx) at_client (public_key at_client) []
server_crypt_gen-client_crypt_gen_example =
    server_crypt_gen-client_crypt_gen view reliable 50 key_exchange at_server at_client (1 ∷ []) []
      refl refl (omega arith) (omega arith)
