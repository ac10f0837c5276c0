-- ===== src/RoundTrip/Examples.antt =====
-- A file of three bytes, from the client to the server and back.
use mefsc.Common.{ℕ, ◌≤◌, ◌≡◌, refl, List, [], ◌∷◌, ◌++◌, arith, length, concat, le_bytes}
use mefsc.Constants.{chunk_size, file_encrypted_chunk_size}
use mefsc.Platform.{W}
use mefsc.Platform.Toy.{toy, view, reliable, sound, world}
use mefsc.Wire.Receive.{Gives}
use mefsc.Session.Toy.{key, nonce}
use mefsc.Transfer.{IsCut}
use mefsc.Server.{Operator, Stale}
use mefsc.Server.Upload.{receive_chunks}
use mefsc.Server.Upload.Stores.{receive_chunks-Chunks}
use mefsc.Server.Download.{send_chunks}
use mefsc.Server.Download.Resends.{Resends, send_chunks-Chunks}
use mefsc.Client.{CommsAgent}
use mefsc.Client.Upload.{encrypt_chunks}
use mefsc.Client.Upload.Sealed.{
  plain_chunks, plain_chunks-IsCut, length-plain_chunks, seal, seal-IsCut, length-seal,
}
use mefsc.Client.Upload.Sending.{Carries, encrypt_chunks-Chunks}
use mefsc.Client.Download.{decrypt_chunks}
use mefsc.RoundTrip.{decrypt_chunks-encrypt_chunks}
use mefsc.Server.Listing as ServerListing
use mefsc.Server.Listing.Sends.{Tells, lffs_handler-Tells}
use mefsc.Client.Listing as ClientListing
use mefsc.RoundTrip.Listing.{lffs_handler-lffs_handler}

abbrev agent : CommsAgent
agent = record { client_tx = key; client_rx = 9 ∷ [] }

abbrev operator : Operator
operator = record { user_dir = []; server_rx = key; server_tx = 9 ∷ []; nonce = [] }

abbrev stale : Stale
stale = record { int = 0; file_name_buf = []; file_name_length = 0; header = []; salt = [] }

abbrev contents : List ℕ
contents = 1 ∷ 2 ∷ 3 ∷ []

abbrev messages : List (List ℕ)
messages = plain_chunks 2 chunk_size contents

abbrev stored : List (List ℕ)
stored = seal 0 messages

abbrev idle : W
idle = world [] 0

fits : length stored ≤ 2
fits = omega (arith, length-seal 0 messages, length-plain_chunks 2 chunk_size contents)

sending :
    Carries sound view reliable agent (encrypt_chunks agent 2 0 nonce contents idle) stored idle
sending = encrypt_chunks-Chunks sound view reliable agent 2 0 nonce contents idle refl (omega arith)

abbrev receiver : W
receiver = world (sending.0 ++ []) 1

receiving :
    Gives view (receive_chunks 70000 stale operator 2 77 [] receiver) (0, stored) receiver []
receiving =
    receive_chunks-Chunks view reliable 70000 stale operator 2 77 [] [] receiver sending.2 fits refl
      (omega arith)

cut : IsCut file_encrypted_chunk_size stored
cut =
    seal-IsCut sound chunk_size 0 messages (plain_chunks-IsCut 2 chunk_size contents (omega arith))

resending :
    Resends sound view reliable 70000 stale operator
      (send_chunks 70000 stale operator 2 nonce (concat stored) idle)
      stored
      idle
resending = send_chunks-Chunks sound view reliable 70000 stale operator 2 nonce idle refl cut fits

abbrev downloader : W
downloader = world (resending.1 ++ []) 2

decrypt_chunks-encrypt_chunks_example :
    (ms : List (List ℕ)) × Gives view
      (decrypt_chunks 70000 agent 2 0 77 [] downloader)
      (0, ms)
      downloader
      []
    × (concat ms ≡ contents)
decrypt_chunks-encrypt_chunks_example =
    decrypt_chunks-encrypt_chunks sound view reliable 70000 stale operator agent 2 0 0 nonce nonce
      resending.0 contents 77 77 idle receiver idle downloader refl refl refl refl refl
      (omega arith) sending.1 refl (omega arith) receiving resending.2 refl (omega arith)

-- The server's directory has one file, "a".
abbrev stocked : W
stocked = record idle { disk = (97 ∷ [], []) ∷ [] }

telling :
    Tells sound view reliable 70000 stale operator
      (ServerListing.lffs_handler 70000 stale operator stocked)
      0
      stocked
      (le_bytes 4 1 ∷ (97 ∷ 0 ∷ []) ∷ [])
telling =
    lffs_handler-Tells sound view reliable 70000 stale operator ((97 ∷ []) ∷ []) stocked refl
      (omega arith, tt)

abbrev viewer : W
viewer = world (telling.0 ++ (1 ∷ [])) 1

lffs_handler-lffs_handler_example :
    Gives view (ClientListing.lffs_handler 70000 agent 5 viewer) ((97 ∷ []) ∷ []) viewer (1 ∷ [])
lffs_handler-lffs_handler_example =
    lffs_handler-lffs_handler sound view reliable 70000 stale operator agent 5 ((97 ∷ []) ∷ [])
      stocked viewer refl refl (omega arith) ((omega arith, (λ e. omega (arith, e), tt)), tt)
      telling.2 refl (omega arith)
