-- ===== src/Client/Download/Examples.antt =====
-- A download of one encrypted chunk.
use mefsc.Common.{
  ℕ, ◌≡◌, Option, none, some, of_le, ℕ, List, [], ◌∷◌, ◌++◌, arith, refl, replicate, le_bytes,
  length-le_bytes,
}
use mefsc.Constants.{end_chunk}
use mefsc.Platform.{W}
use mefsc.Outcome.{Outcome, next, leave, fault}
use mefsc.Wire.{recv_raw_blob}
use mefsc.Session.{read_wrapper, unwrap, wrap_and_send}
use mefsc.Platform.Toy.{toy, view, reliable, world}
use mefsc.Wire.Blobs.{blob}
use mefsc.Session.Toy.{nonce, key, frame_of, framed}
use mefsc.Transfer.{Chunks, Opens}
use mefsc.Client.{CommsAgent}
use mefsc.Client.Download.{
  rffs_handler, local_name, save, decrypt_and_read_from_server, init_read, receive_round,
  after_pull, decrypt_chunks,
}
use mefsc.Client.Download.Fetches.{Fetched, decrypt_and_read_from_server-Fetched}

abbrev agent : CommsAgent
agent = record { client_tx = []; client_rx = key }

abbrev chunk : List ℕ
chunk = 3 ∷ (replicate 16 0 ++ (8 ∷ 9 ∷ []))

abbrev bytes : List ℕ
bytes = frame_of (le_bytes 4 end_chunk) ++ blob chunk

chunks : Chunks key (chunk ∷ []) bytes
chunks =
    Chunks.last (framed (le_bytes 4 end_chunk) (omega (arith, length-le_bytes 4 end_chunk)))
      (omega arith) refl

abbrev download : W
download = world (bytes ++ (6 ∷ [])) 2

-- The whole download of that chunk: the file has the name without its last four bytes.
abbrev offered : W
offered = world (frame_of (replicate 24 3) ++ (frame_of (replicate 16 4) ++ bytes)) 0

abbrev file_name : List ℕ
file_name = 97 ∷ 46 ∷ 101 ∷ 110 ∷ 99 ∷ []

abbrev files : Outcome W ℕ → Option (ℕ × List (List ℕ × List ℕ))
files (next c w) = some (c, w.disk)
files (leave c w) = none
files (fault e) = none

downloaded :
    files (rffs_handler 60 agent 1 nonce file_name (5 ∷ []) [] [] offered)
    ≡ some (0, (97 ∷ [], 8 ∷ 9 ∷ []) ∷ (97 ∷ [], []) ∷ [])
unfolding rffs_handler local_name save decrypt_and_read_from_server init_read decrypt_chunks
    receive_round after_pull wrap_and_send recv_raw_blob read_wrapper unwrap of_le le_bytes
downloaded = refl

abbrev offering : W
offering = world (frame_of (replicate 24 3) ++ (frame_of (replicate 16 4) ++ (bytes ++ (6 ∷ [])))) 1

decrypt_and_read_from_server-Fetched_example :
    Fetched view reliable 70000 agent 1 (97 ∷ []) (5 ∷ []) [] [] (8 ∷ 9 ∷ []) offering (6 ∷ [])
decrypt_and_read_from_server-Fetched_example =
    decrypt_and_read_from_server-Fetched view reliable 70000 agent 1 (97 ∷ []) (5 ∷ []) [] []
      (replicate 24 3) (replicate 16 4) (5 ∷ []) 0 offering (framed (replicate 24 3) (omega arith))
      (framed (replicate 16 4) (omega arith)) chunks refl refl (omega arith) (omega arith) refl refl
      (Opens.last refl refl) (omega arith) refl (omega arith)
