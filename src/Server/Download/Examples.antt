-- ===== src/Server/Download/Examples.antt =====
-- A stored file of one chunk, as the server sends it.
use mefsc.Common.{
  ℕ, ◌≡◌, ◌++◌, Option, none, some, take, replicate, le_bytes, of_le, List, [], ◌∷◌, arith, refl,
  length-replicate,
}
use mefsc.Platform.{W}
use mefsc.CText.{c_str}
use mefsc.Wire.{send_raw_blob}
use mefsc.Session.{read_wrapper, unwrap, wrap_and_send}
use mefsc.Server.{random_bytes, expect}
use mefsc.Server.Upload.{text_of}
use mefsc.Platform.Toy.{seen, answer, toy, view, reliable, sound, world}
use mefsc.Session.Toy.{frame_of, framed, key}
use mefsc.Transfer.{IsCut}
use mefsc.Server.{Operator, Stale}
use mefsc.Server.Download.{
  rffs_handler, open_file, opened_file, send_file, send_round, send_chunk, send_chunks,
}
use mefsc.Server.Upload.Announce.{Sized}
use mefsc.Server.Download.Serves.{Served, rffs_handler-Served}

abbrev operator : Operator
operator = record { user_dir = []; server_rx = []; server_tx = key; nonce = [] }

abbrev stale : Stale
stale = record { int = 0; file_name_buf = []; file_name_length = 0; header = []; salt = [] }

abbrev chunks : List (List ℕ)
chunks = (4 ∷ 5 ∷ []) ∷ []

-- A stored file with its header and salt, and the request for it.
abbrev asked : W
asked = record (world (frame_of (97 ∷ 0 ∷ [])) 1) {
  disk = (97 ∷ [], replicate 24 3 ++ (replicate 16 4 ++ (1 ∷ 2 ∷ []))) ∷ [];
}

abbrev asked_operator : Operator
asked_operator = record { user_dir = []; server_rx = key; server_tx = key; nonce = [] }

abbrev front : Option (ℕ × List ℕ) → List ℕ
front none = []
front (some (c, sent)) = take 56 sent

sent_file : front (seen (rffs_handler 40 stale asked_operator 1 asked)) ≡ answer 7 (replicate 24 3)
unfolding rffs_handler open_file opened_file send_file send_chunks send_round send_chunk
    random_bytes expect text_of c_str read_wrapper unwrap wrap_and_send send_raw_blob le_bytes of_le
sent_file = refl

-- A file that is not there: the status is 1 and nothing is sent.
no_file : seen (rffs_handler 40 stale asked_operator 1 (record asked { disk = [] })) ≡ some (1, [])
unfolding rffs_handler open_file opened_file random_bytes expect text_of c_str read_wrapper unwrap
    of_le le_bytes
no_file = refl

-- The same request, with more to come.
abbrev sized_stale : Stale
sized_stale = record {
  int = 0;
  file_name_buf = replicate 65553 170;
  file_name_length = 0;
  header = replicate 24 170;
  salt = replicate 16 170;
}

sized : Sized sized_stale
sized = record {
  name_size = length-replicate {A = ℕ} 65553 170;
  header_size = refl;
  salt_size = refl;
}

abbrev asking : W
asking = record asked { sock = (world (frame_of (97 ∷ 0 ∷ []) ++ (6 ∷ [])) 1).sock }

rffs_handler-Served_example :
    Served sound view reliable 70000 sized_stale asked_operator sized 1
      (replicate 24 3)
      (replicate 16 4)
      ((1 ∷ 2 ∷ []) ∷ [])
      asking
      (6 ∷ [])
rffs_handler-Served_example =
    rffs_handler-Served sound view reliable 70000 sized_stale asked_operator sized 1 (97 ∷ [])
      (replicate 24 3) (replicate 16 4) asking (framed (97 ∷ 0 ∷ []) (omega arith)) (omega arith)
      (λ e. omega (arith, e), tt) refl refl refl (IsCut.last (omega arith)) (omega arith) refl
      (omega arith)
