-- ===== src/Server/Upload/Examples.antt =====
-- An upload of a file in two chunks, as the server stores it.
use mefsc.Common.{
  ℕ, refl, List, [], ◌∷◌, ◌++◌, arith, replicate, length-replicate, le_bytes, length-le_bytes,
}
use mefsc.Constants.{end_chunk, meat_chunk}
use mefsc.Platform.{W}
use mefsc.Platform.Toy.{toy, view, reliable, world}
use mefsc.Wire.Blobs.{blob}
use mefsc.Session.Frames.{Framed}
use mefsc.Session.Toy.{key, frame_of, framed}
use mefsc.Transfer.{Announcement, Chunks}
use mefsc.Server.{Operator, Stale}
use mefsc.Server.Upload.Announce.{Sized, Stored, wtfs_handler-Stored}

abbrev operator : Operator
operator = record { user_dir = 47 ∷ []; server_rx = key; server_tx = []; nonce = [] }

abbrev stale : Stale
stale = record {
  int = 0;
  file_name_buf = replicate 65553 170;
  file_name_length = 0;
  header = replicate 24 170;
  salt = replicate 16 170;
}

sized : Sized stale
sized = record {
  name_size = length-replicate {A = ℕ} 65553 170;
  header_size = refl;
  salt_size = refl;
}

abbrev name : List ℕ
name = 97 ∷ 98 ∷ []

abbrev header : List ℕ
header = replicate 24 3

abbrev salt : List ℕ
salt = replicate 16 4

abbrev announcement_bytes : List ℕ
announcement_bytes = frame_of (1 ∷ []) ++ (frame_of name ++ (frame_of header ++ frame_of salt))

announcement : Announcement key name header salt announcement_bytes
announcement = record {
  exists_frame = frame_of (1 ∷ []);
  name_frame = frame_of name;
  header_frame = frame_of header;
  salt_frame = frame_of salt;
  shape = refl;
  exists_framed = framed (1 ∷ []) (omega arith);
  name_framed = framed name (omega arith);
  header_framed = framed header (omega arith);
  salt_framed = framed salt (omega arith);
}

abbrev chunk1 : List ℕ
chunk1 = 20 ∷ 21 ∷ []

abbrev chunk2 : List ℕ
chunk2 = 22 ∷ []

abbrev chunk_bytes : List ℕ
chunk_bytes =
    frame_of (le_bytes 4 meat_chunk)
    ++ (blob chunk1 ++ (frame_of (le_bytes 4 end_chunk) ++ blob chunk2))

prefix_framed : (n : ℕ) → Framed key (le_bytes 4 n) (frame_of (le_bytes 4 n))
prefix_framed n = framed (le_bytes 4 n) (omega (arith, length-le_bytes 4 n))

chunks : Chunks key (chunk1 ∷ chunk2 ∷ []) chunk_bytes
chunks =
    Chunks.more (prefix_framed meat_chunk) (omega arith)
      (Chunks.last (prefix_framed end_chunk) (omega arith) refl) refl

abbrev upload : W
upload = world (announcement_bytes ++ (chunk_bytes ++ (9 ∷ []))) 2

abbrev transfer : W
transfer = world (chunk_bytes ++ (9 ∷ [])) 1

wtfs_handler-Stored_example :
    Stored view reliable 70000 stale operator 5 name header salt
      (chunk1 ∷ chunk2 ∷ [])
      upload
      (9 ∷ [])
wtfs_handler-Stored_example =
    wtfs_handler-Stored view reliable 70000 stale operator 5 (9 ∷ []) upload sized announcement
      (omega arith) (ground arith) refl refl chunks (omega arith) refl (omega arith)
