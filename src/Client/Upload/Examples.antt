-- ===== src/Client/Upload/Examples.antt =====
-- The client's side of an upload on the connection in memory.
use mefsc.Common.{ℕ, ◌≡◌, some, le_bytes, refl, List, [], ◌∷◌, arith, replicate}
use mefsc.Constants.{chunk_size}
use mefsc.Server.{random_bytes}
use mefsc.Session.{wrap_and_send}
use mefsc.Platform.Toy.{seen, answer, toy, view, reliable, sound, world}
use mefsc.Session.Toy.{key, nonce}
use mefsc.Client.{CommsAgent}
use mefsc.Client.Upload.{
  encrypt_and_send_to_server, set_crypto, new_sender, open_file, start_stream, init_send,
  encrypt_chunks,
}
use mefsc.Client.Upload.Sealed.{plain_chunks, seal}
use mefsc.Client.Upload.Sending.{Carries, encrypt_chunks-Chunks}

abbrev agent : CommsAgent
agent = record { client_tx = key; client_rx = [] }

abbrev contents : List ℕ
contents = 1 ∷ 2 ∷ 3 ∷ []

encrypt_chunks-Chunks_example :
    Carries sound view reliable agent
      (encrypt_chunks agent 2 0 nonce contents (world [] 0))
      (seal 0 (plain_chunks 2 chunk_size contents))
      (world [] 0)
encrypt_chunks-Chunks_example =
    encrypt_chunks-Chunks sound view reliable agent 2 0 nonce contents (world [] 0) refl
      (omega arith)

-- A file that cannot be opened: the client says so and returns 1.
no_file :
    seen (
      encrypt_and_send_to_server agent 1
        (record { nonce = nonce; key = []; salt = [] })
        (97 ∷ [])
        (5 ∷ [])
        (world [] 0))
    ≡ some (1, answer 5 (0 ∷ []))
unfolding encrypt_and_send_to_server set_crypto random_bytes open_file start_stream init_send
    wrap_and_send le_bytes
no_file = refl

-- A new sender has the key for its salt.
new_key :
    seen (new_sender (5 ∷ []) [] (world [] 0))
    ≡ some (record { nonce = replicate 8 7; key = 5 ∷ []; salt = replicate 16 8 }, [])
unfolding new_sender set_crypto random_bytes
new_key = refl
