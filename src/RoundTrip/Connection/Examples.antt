-- ===== src/RoundTrip/Connection/Examples.antt =====
-- Both programs in memory: the server's random source says 7, and the client's 9.
use mefsc.Common.{ℕ, refl, List, [], ◌∷◌, ◌++◌, arith, replicate, le_bytes}
use mefsc.Constants.{ack_suc}
use mefsc.Platform.{W}
use mefsc.Platform.Toy.{toy, view, reliable, world, sound, prompt, key_exchange}
use mefsc.Store.{Request}
use mefsc.Store.Toy.{folder, empty-Holds}
use mefsc.Server.Login.Toy.{tables, table}
use mefsc.Server.Toy.{stale, sized, no_files-IsSealed, locals, one_user, a_is_no_nul, password_fits}
use mefsc.Server.Connection.Whole.{Connected, home}
use mefsc.Client.Program.Requests.{AreRequestsOf}
use mefsc.Client.Program.Whole.{Ran, client-Ran}
use mefsc.Client.Program.Toy.{
  stale_client, stale_client-IsClient, turns, replies, down, carries, disk, suits,
}
use mefsc.RoundTrip.Connection.{handle_conn-client}

abbrev server_pk : List ℕ
server_pk = replicate 32 7

abbrev client_pk : List ℕ
client_pk = replicate 32 9

-- The server's keys, to receive and to transmit with.
abbrev rx : List ℕ
rx = server_pk ++ client_pk

abbrev tx : List ℕ
tx = client_pk ++ server_pk

abbrev client : W
client = record (world (server_pk ++ (le_bytes 4 ack_suc ++ (down ++ (1 ∷ [])))) 0) {
  disk = disk;
  rng = 9;
}

abbrev run :
    Ran sound view reliable prompt 70000 5 stale_client rx
      (97 ∷ [])
      (98 ∷ [])
      turns
      replies
      client
      (1 ∷ [])
      disk
run =
    client-Ran sound view reliable prompt 70000 5 stale_client server_pk tx rx (97 ∷ []) (98 ∷ [])
      (1 ∷ []) turns replies client refl refl (omega arith) (omega arith) suits (carries tx)
      stale_client-IsClient refl refl (omega arith)

-- What the client sends, and one more byte.
abbrev up : List ℕ
up = client_pk ++ ((run.name_frame ++ run.password_frame) ++ run.sent)

abbrev server : W
server = world (up ++ (9 ∷ [])) 1

handle_conn-client_example :
    (qs : List Request) × AreRequestsOf 5 (98 ∷ []) disk turns replies disk qs
    × Connected sound view reliable 70000 5 stale sized tables table locals
        (97 ∷ [])
        (folder (home (97 ∷ [])))
        3
        tx
        qs
        server
        one_user
        (9 ∷ [])
handle_conn-client_example =
    handle_conn-client sound key_exchange view reliable prompt 70000 5 stale sized tables table
      locals (97 ∷ []) (folder (home (97 ∷ []))) stale_client (98 ∷ []) turns replies rx tx up
      (1 ∷ []) (9 ∷ []) 3 client run.after server one_user refl (omega arith) (omega arith)
      (a_is_no_nul, tt) password_fits suits (carries tx) stale_client-IsClient refl refl run.result
      run.spoken.added refl (omega arith) (empty-Holds (home (97 ∷ [])))
      (no_files-IsSealed (home (97 ∷ []))) (omega arith)
