-- ===== src/Client/Examples.antt =====
-- The messages that start an action, as the client sends them on the toy platform.
use mefsc.Common.{◌≡◌, refl, some, [], ◌∷◌, le_bytes}
use mefsc.Constants.{new_action, list_files}
use mefsc.Platform.Toy.{toy, world, seen, answer}
use mefsc.Session.{wrap_and_send}
use mefsc.Session.Toy.{key, nonce}
use mefsc.Client.{CommsAgent, notify_server_of_action, send_intention}

abbrev agent : CommsAgent
agent = record { client_tx = key; client_rx = [] }

notified :
    seen (notify_server_of_action agent new_action nonce (world [] 0))
    ≡ some (6 ∷ 5 ∷ 5 ∷ 5 ∷ 5 ∷ 5 ∷ 5 ∷ 5 ∷ [], answer 5 (88 ∷ 0 ∷ 0 ∷ 0 ∷ []))
unfolding notify_server_of_action wrap_and_send le_bytes
notified = refl

intended :
    seen (send_intention agent list_files nonce (world [] 0))
    ≡ some (6 ∷ 5 ∷ 5 ∷ 5 ∷ 5 ∷ 5 ∷ 5 ∷ 5 ∷ [], answer 5 (3 ∷ 0 ∷ 0 ∷ 0 ∷ []))
unfolding send_intention wrap_and_send le_bytes
intended = refl
