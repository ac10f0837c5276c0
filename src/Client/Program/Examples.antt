-- ===== src/Client/Program/Examples.antt =====
-- The client's session on the toy platform.
use mefsc.Common.{ℕ, ◌≡◌, ◌++◌, refl, false, some, List, [], ◌∷◌, arith, le_bytes, replicate}
use mefsc.Constants.{minus, ack_fail, ack_suc, confusion, no_action, new_action}
use mefsc.Keys.{client_crypt_gen}
use mefsc.Session.Frames.{frame}
use mefsc.Platform.{W}
use mefsc.Platform.Toy.{toy, view, reliable, sound, prompt, world, seen, answer}
use mefsc.Outcome.{Outcome}
use mefsc.Session.{wrap_and_send}
use mefsc.Session.Toy.{key, nonce}
use mefsc.Transfer.Messages.{Messages}
use mefsc.Server.{random_bytes}
use mefsc.Client.{CommsAgent, notify_server_of_action}
use mefsc.Client.Upload.{set_crypto, new_sender}
use mefsc.Client.Program.{
  Turn, StaleClient, send_credentials, is_intention, perform, turn, last_words, go_on, turns_of,
  authed_comms, client,
}
use mefsc.Client.Program.Refused.{send_credentials-refused}
use mefsc.Client.Program.Sessions.{Asked, turns_of-Asked}
use mefsc.Client.Program.Whole.{Ran, client-Ran}
use mefsc.Client.Program.Toy.{
  stale_client, stale_client-IsClient, turns, replies, down, carries, disk, suits,
}

-- The answer of one signal, and then the status.
abbrev refused : W
refused = world (le_bytes 4 ack_fail ++ (1 ∷ [])) 1

send_credentials-refused_example :
    (w : W) × (bytes : List ℕ) × (send_credentials 40 key (97 ∷ []) (98 ∷ []) nonce refused
      ≡ Outcome.leave (minus 1) w)
    × Messages key ((97 ∷ 0 ∷ []) ∷ (98 ∷ 0 ∷ []) ∷ []) bytes
    × (w.sock.outbox ≡ bytes)
send_credentials-refused_example =
    send_credentials-refused sound view reliable 40 key (97 ∷ []) (98 ∷ []) nonce (1 ∷ []) refused
      refl (omega arith) (omega arith) refl

abbrev agent : CommsAgent
agent = record { client_tx = key; client_rx = key }

abbrev stale : StaleClient
stale = record { key = []; int = 5; header = []; salt = [] }

abbrev invalid : Turn
invalid = record { intention = 7; file_name = []; again = false }

-- An invalid intention: the two notices, and no intention.
not_sent :
    seen (authed_comms 40 1 stale agent (98 ∷ []) (invalid ∷ []) nonce (world [] 0))
    ≡ some (
      0,
      answer 5 (le_bytes 4 new_action)
          ++ frame (7 ∷ replicate 7 5) (le_bytes 4 no_action ++ replicate 16 0),
    )
unfolding authed_comms turns_of turn go_on perform is_intention last_words notify_server_of_action
    new_sender set_crypto random_bytes wrap_and_send le_bytes
not_sent = refl

-- The intention that stands for confusion: the status is -1, and the server is not told.
confused :
    seen (
      authed_comms 40 1 stale agent
        (98 ∷ [])
        (record invalid { intention = confusion } ∷ [])
        nonce
        (world [] 0))
    ≡ some (minus 1, answer 5 (le_bytes 4 new_action))
unfolding authed_comms turns_of turn go_on perform is_intention notify_server_of_action new_sender
    set_crypto random_bytes wrap_and_send le_bytes
confused = refl

-- A server that hangs up before it has sent its key.
no_keys : seen (client 40 1 stale [] [] [] (world [] 0)) ≡ some (1, replicate 32 7)
unfolding client client_crypt_gen
no_keys = refl

-- The replies to an upload and a listing.
abbrev answered : W
answered = record (world (down ++ (1 ∷ [])) 1) { disk = disk }

turns_of-Asked_example :
    Asked sound view reliable 70000 5 stale_client agent
      (98 ∷ [])
      turns
      replies
      nonce
      answered
      (1 ∷ [])
      disk
turns_of-Asked_example =
    turns_of-Asked sound view reliable 70000 5 stale_client agent (98 ∷ []) turns replies nonce
      (1 ∷ []) answered suits (carries key) refl stale_client-IsClient refl (omega arith)

-- The same behind the server's key and its acceptance.
abbrev accepted : W
accepted = record (world (replicate 32 7 ++ (le_bytes 4 ack_suc ++ (down ++ (1 ∷ [])))) 0) {
  disk = disk;
  rng = 9;
}

client-Ran_example :
    Ran sound view reliable prompt 70000 5 stale_client
      (replicate 32 7 ++ replicate 32 9)
      (97 ∷ [])
      (98 ∷ [])
      turns
      replies
      accepted
      (1 ∷ [])
      disk
client-Ran_example =
    client-Ran sound view reliable prompt 70000 5 stale_client (replicate 32 7)
      (replicate 32 9 ++ replicate 32 7) (replicate 32 7 ++ replicate 32 9) (97 ∷ []) (98 ∷ [])
      (1 ∷ []) turns replies accepted refl refl (omega arith) (omega arith) suits
      (carries (replicate 32 9 ++ replicate 32 7)) stale_client-IsClient refl refl (omega arith)
