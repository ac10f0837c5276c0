-- ===== src/Server/Connection/Sessions.antt =====
-- A whole session in memory, for the examples: an upload of the file "ab" and a listing.
use mefsc.Common.{ℕ, List, [], ◌∷◌, ◌++◌, arith, refl, le_bytes, replicate, All}
use mefsc.Constants.{new_action, no_action, list_files, write_to_filesystem, end_chunk}
use mefsc.Platform.{W}
use mefsc.Platform.Toy.{toy, view, reliable, world, sound}
use mefsc.CText.{ext}
use mefsc.Wire.Blobs.{blob}
use mefsc.Session.Toy.{key, frame_of, framed_by, int_framed_by}
use mefsc.Transfer.{Announcement, Chunks, IsCut}
use mefsc.Store.{Entry, IsEntry, IsPlain, Request, upload, listing, IsFair}
use mefsc.Store.Wire.{AsksAll, Asks}
use mefsc.Store.Toy.{folder, empty-Holds}
use mefsc.Server.{Operator}
use mefsc.Server.Login.Toy.{tables, table}
use mefsc.Server.Toy.{stale, sized, no_files-IsSealed, locals, one_user, a_is_no_nul, password_fits}
use mefsc.Server.Connection.Refines.{Refines, serve-Refines}
use mefsc.Server.Connection.Whole.{Connected, home, handle_conn-Refines}

abbrev name : List ℕ
name = 97 ∷ 98 ∷ []

abbrev entry : Entry
entry = record { header = replicate 24 3; salt = replicate 16 4; chunks = (20 ∷ 21 ∷ []) ∷ [] }

entry-IsEntry : IsEntry 5 entry
entry-IsEntry = record {
  header_length = refl;
  salt_length = refl;
  cut = IsCut.last (omega arith);
  few = omega arith;
}

abbrev requests : List Request
requests = upload name entry ∷ listing ∷ []

abbrev number : ℕ → List ℕ
number n = frame_of (le_bytes 4 n)

abbrev announcement_bytes : List ℕ
announcement_bytes =
    frame_of (1 ∷ []) ++ (frame_of name ++ (frame_of entry.header ++ frame_of entry.salt))

abbrev chunk_bytes : List ℕ
chunk_bytes = number end_chunk ++ blob (20 ∷ 21 ∷ [])

abbrev upload_bytes : List ℕ
upload_bytes = number write_to_filesystem ++ (announcement_bytes ++ chunk_bytes)

abbrev session_bytes : List ℕ
session_bytes =
    number new_action
    ++ (upload_bytes ++ (number new_action ++ (number list_files ++ number no_action)))

module _ (k : List ℕ) where
  announcement : Announcement k name entry.header entry.salt announcement_bytes
  announcement = record {
    exists_frame = frame_of (1 ∷ []);
    name_frame = frame_of name;
    header_frame = frame_of entry.header;
    salt_frame = frame_of entry.salt;
    shape = refl;
    exists_framed = framed_by k (1 ∷ []) (omega arith);
    name_framed = framed_by k name (omega arith);
    header_framed = framed_by k entry.header (omega arith);
    salt_framed = framed_by k entry.salt (omega arith);
  }

  asks : AsksAll k requests session_bytes
  asks =
      AsksAll.then (int_framed_by k new_action)
        (Asks.asks_upload (int_framed_by k write_to_filesystem) announcement
          (Chunks.last (int_framed_by k end_chunk) (omega arith) refl) refl)
        (AsksAll.then (int_framed_by k new_action) (Asks.asks_listing (int_framed_by k list_files))
          (AsksAll.goodbye {notice = no_action} (omega arith) (λ e. omega (arith, e))
            (int_framed_by k no_action))
          refl)
        refl

plain : IsPlain (name ++ ext)
plain = record {
  no_nul = ground arith;
  no_slash = ground arith;
  not_empty = λ e. absurd (ground (arith, e));
  not_here = λ e. absurd (ground (arith, e));
  not_up = λ e. absurd (ground (arith, e));
}

fair : All (IsFair 5) requests
fair = ((omega arith, ground arith, plain, entry-IsEntry), (tt, tt))

abbrev operator : Operator
operator = record { user_dir = 47 ∷ []; server_rx = key; server_tx = key; nonce = replicate 8 1 }

abbrev session : W
session = world (session_bytes ++ (9 ∷ [])) 1

serve-Refines_example :
    Refines sound view reliable 70000 5 stale sized operator
      (folder (47 ∷ []))
      3
      requests
      session
      (9 ∷ [])
serve-Refines_example =
    serve-Refines sound view reliable 70000 5 stale sized operator (folder (47 ∷ [])) 3 requests
      (9 ∷ []) session (asks key) fair (empty-Holds (47 ∷ [])) (no_files-IsSealed (47 ∷ []))
      (omega arith) refl (omega arith)

-- The keys of the server, which receives with the first.
abbrev client_pk : List ℕ
client_pk = replicate 32 9

abbrev rx : List ℕ
rx = replicate 32 7 ++ client_pk

abbrev tx : List ℕ
tx = client_pk ++ replicate 32 7

abbrev pub connection : W
connection =
    world
      (client_pk
        ++ (frame_of (97 ∷ 0 ∷ []) ++ (frame_of (98 ∷ 0 ∷ []) ++ (session_bytes ++ (9 ∷ [])))))
      1

handle_conn-Refines_example :
    Connected sound view reliable 70000 5 stale sized tables table locals
      (97 ∷ [])
      (folder (home (97 ∷ [])))
      3
      tx
      requests
      connection
      one_user
      (9 ∷ [])
handle_conn-Refines_example =
    handle_conn-Refines sound view reliable 70000 5 stale sized tables table locals (97 ∷ [])
      (folder (home (97 ∷ []))) 3 client_pk rx tx (98 ∷ []) (9 ∷ []) requests connection one_user
      refl refl (a_is_no_nul, tt) (framed_by rx (97 ∷ 0 ∷ []) (omega arith))
      (framed_by rx (98 ∷ 0 ∷ []) (omega arith)) password_fits (asks rx) fair
      (empty-Holds (home (97 ∷ []))) (no_files-IsSealed (home (97 ∷ []))) (omega arith) refl
      (omega arith)
