-- ===== src/RoundTrip/File/Examples.antt =====
-- The file "a" of three bytes, uploaded under the password "p" and downloaded again.
use mefsc.Common.{
  ℕ, ◌≢◌, refl, ap, ◌∙◌, List, [], ◌∷◌, ◌++◌, arith, All, replicate, length-replicate,
}
use mefsc.Constants.{chunk_size}
use mefsc.Platform.{W}
use mefsc.Platform.Toy.{toy, view, reliable, sound, remembers, world}
use mefsc.CText.{ext}
use mefsc.Session.Toy.{key, nonce, frame_of, framed}
use mefsc.Transfer.Messages.{with_nul}
use mefsc.Server.{Operator, Stale}
use mefsc.Server.Upload.Announce.{Sized, Stored}
use mefsc.Server.Download.Serves.{Served, all_bytes, rffs_handler-Served}
use mefsc.Client.{CommsAgent, SenderAgent}
use mefsc.Client.Upload.Sealed.{
  plain_chunks, plain_chunks-IsCut, length-plain_chunks, seal, seal-IsCut, length-seal,
}
use mefsc.Client.Upload.Whole.{
  Uploaded, new_salt, new_header, new_stream, encrypt_and_send_to_server-Uploaded,
}
use mefsc.Client.Download.Fetches.{Fetched}
use mefsc.RoundTrip.Upload.{wtfs_handler-encrypt_and_send_to_server}
use mefsc.RoundTrip.File.{
  All-append, ext_has_no_nul, decrypt_and_read_from_server-encrypt_and_send_to_server,
}

abbrev agent : CommsAgent
agent = record { client_tx = key; client_rx = 9 ∷ [] }

abbrev operator : Operator
operator = record { user_dir = []; server_rx = key; server_tx = 9 ∷ []; nonce = [] }

abbrev contents : List ℕ
contents = 1 ∷ 2 ∷ 3 ∷ []

abbrev messages : List (List ℕ)
messages = plain_chunks 2 chunk_size contents

-- A file "a" under the password "p".
abbrev has_file : W
has_file = record (world [] 0) { disk = (97 ∷ [], contents) ∷ [] }

abbrev fresh : SenderAgent
fresh = record { nonce = nonce; key = []; salt = [] }

abbrev stale_arrays : Stale
stale_arrays = record {
  int = 0;
  file_name_buf = replicate 65553 170;
  file_name_length = 0;
  header = replicate 24 170;
  salt = replicate 16 170;
}

sized : Sized stale_arrays
sized = record {
  name_size = length-replicate {A = ℕ} 65553 170;
  header_size = refl;
  salt_size = refl;
}

uploaded : Uploaded sound view reliable agent 2 fresh (97 ∷ []) (112 ∷ []) contents has_file
uploaded =
    encrypt_and_send_to_server-Uploaded sound view reliable agent 2 fresh (97 ∷ []) (112 ∷ [])
      contents has_file refl refl (omega arith) (omega arith)

abbrev storing : W
storing = world ((uploaded.announcement ++ uploaded.chunks) ++ []) 1

a_has_no_nul : All (λ (b : ℕ). b ≢ 0) (97 ∷ [])
a_has_no_nul = (λ e. omega (arith, e), tt)

abbrev sealed : List (List ℕ)
sealed = seal (new_stream (112 ∷ []) fresh has_file) messages

wtfs_handler-encrypt_and_send_to_server_example :
    Stored view reliable 70000 stale_arrays operator 2
      (97 ∷ [])
      (new_header (112 ∷ []) fresh has_file)
      (new_salt (112 ∷ []) fresh has_file)
      sealed
      storing
      []
wtfs_handler-encrypt_and_send_to_server_example =
    wtfs_handler-encrypt_and_send_to_server sound view reliable 70000 stale_arrays operator agent 2
      fresh (97 ∷ []) (112 ∷ []) contents has_file storing refl sized refl refl (omega arith)
      a_has_no_nul (omega arith) uploaded.talks refl (omega arith)

stored :
    Stored view reliable 70000 stale_arrays operator 2
      (97 ∷ [])
      (new_header (112 ∷ []) fresh has_file)
      (new_salt (112 ∷ []) fresh has_file)
      sealed
      storing
      []
stored =
    wtfs_handler-encrypt_and_send_to_server sound view reliable 70000 stale_arrays operator agent 2
      fresh (97 ∷ []) (112 ∷ []) contents has_file storing refl sized refl refl (omega arith)
      a_has_no_nul (omega arith) uploaded.talks refl (omega arith)

-- The client asks for "a.enc".
abbrev asked : W
asked = record (world (frame_of (with_nul (97 ∷ ext)) ++ []) 1) { disk = stored.after.disk }

served :
    Served sound view reliable 70000 stale_arrays operator sized 2
      (new_header (112 ∷ []) fresh has_file)
      (new_salt (112 ∷ []) fresh has_file)
      sealed
      asked
      []
served =
    rffs_handler-Served sound view reliable 70000 stale_arrays operator sized 2 (97 ∷ ext)
      (new_header (112 ∷ []) fresh has_file) (new_salt (112 ∷ []) fresh has_file) asked
      (framed (with_nul (97 ∷ ext)) (omega arith)) (omega arith)
      (All-append (λ b. b ≢ 0) (97 ∷ []) ext a_has_no_nul ext_has_no_nul)
      (ap (toy.storage.open_read (97 ∷ ext)) stored.disk
        ∙ remembers.reads (97 ∷ ext) _ storing.disk)
      refl refl
      (seal-IsCut sound chunk_size (new_stream (112 ∷ []) fresh has_file) messages
        (plain_chunks-IsCut 2 chunk_size contents (omega arith)))
      (omega (
        arith,
        length-seal (new_stream (112 ∷ []) fresh has_file) messages,
        length-plain_chunks 2 chunk_size contents,
      ))
      refl (omega arith)

abbrev fetching : W
fetching =
    world (all_bytes sound view reliable 70000 stale_arrays operator sized served.sent ++ (1 ∷ []))
      2

decrypt_and_read_from_server-encrypt_and_send_to_server_example :
    Fetched view reliable 70000 agent 2 (97 ∷ []) (112 ∷ []) [] [] contents fetching (1 ∷ [])
decrypt_and_read_from_server-encrypt_and_send_to_server_example =
    decrypt_and_read_from_server-encrypt_and_send_to_server sound remembers view reliable 70000
      stale_arrays operator agent 2 fresh (97 ∷ []) (112 ∷ []) contents (112 ∷ []) (97 ∷ []) [] []
      [] [] has_file storing stored.after asked fetching refl refl sized refl refl (omega arith)
      a_has_no_nul (omega arith) refl (omega arith) (omega arith) uploaded.talks refl (omega arith)
      stored.result refl (framed (with_nul (97 ∷ ext)) (omega arith)) refl (omega arith)
      served.talks refl (omega arith)
