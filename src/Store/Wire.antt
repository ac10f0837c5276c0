-- ===== src/Store/Wire.antt =====
-- How requests and replies go over the connection of a session: `key` is the key of the client's
-- messages for the requests, and of the server's messages for the replies.
use mefsc.Common.{
  ℕ, ◌^◌, ◌<◌, ◌≡◌, ◌≢◌, List, [], ◌∷◌, ◌++◌, length, map, le_bytes, sym, append-nil, arith,
}
use mefsc.Constants.{new_action, read_from_filesystem, write_to_filesystem, list_files, delete_file}
use mefsc.Platform.{Platform}
use mefsc.Session.Frames.{Framed}
use mefsc.Transfer.{Announcement, Chunks}
use mefsc.Transfer.Messages.{Messages, with_nul}
use mefsc.Store.{
  Entry, Request, upload, download, listing, delete, Reply, nothing, file, names, status,
}

-- The number of a request.
abbrev pub intent_of : Request → ℕ
intent_of (upload name e) = write_to_filesystem
intent_of (download name) = read_from_filesystem
intent_of listing = list_files
intent_of (delete name) = delete_file

pub intent_of-lt : (q : Request) → intent_of q < 2 ^ 32
intent_of-lt (upload name e) = omega arith
intent_of-lt (download name) = omega arith
intent_of-lt listing = omega arith
intent_of-lt (delete name) = omega arith

module _ ⦃p : Platform⦄ (key : List ℕ) where
  abbrev pub IsInt : ℕ → List ℕ → Type 0
  IsInt n f = Framed key (le_bytes 4 n) f

  -- The intent, and what follows it.
  pub data Asks : Request → List ℕ → Type 0 where
    asks_upload :
        {name f a c bytes : List ℕ} {e : Entry}
        → IsInt write_to_filesystem f
        → Announcement key name e.header e.salt a
        → Chunks key e.chunks c
        → bytes ≡ f ++ (a ++ c)
        → Asks (upload name e) bytes
    asks_download :
        {name f g bytes : List ℕ}
        → IsInt read_from_filesystem f
        → Framed key (with_nul name) g
        → bytes ≡ f ++ g
        → Asks (download name) bytes
    asks_listing : {f : List ℕ} → IsInt list_files f → Asks listing f
    asks_delete :
        {name f g bytes : List ℕ}
        → IsInt delete_file f
        → Framed key (with_nul name) g
        → bytes ≡ f ++ g
        → Asks (delete name) bytes

  -- The frame of the intent, and what follows it.
  abbrev pub intent_frame : {q : Request} {bytes : List ℕ} → Asks q bytes → List ℕ
  intent_frame (asks_upload {f = f} i a c e) = f
  intent_frame (asks_download {f = f} i g e) = f
  intent_frame (asks_listing {f} i) = f
  intent_frame (asks_delete {f = f} i g e) = f

  abbrev pub after_intent : {q : Request} {bytes : List ℕ} → Asks q bytes → List ℕ
  after_intent (asks_upload {a = a} {c} i g t e) = a ++ c
  after_intent (asks_download {g = g} i h e) = g
  after_intent (asks_listing i) = []
  after_intent (asks_delete {g = g} i h e) = g

  pub Asks-shape :
      {q : Request} {bytes : List ℕ} (a : Asks q bytes) → bytes ≡ intent_frame a ++ after_intent a
  Asks-shape (asks_upload i a c e) = e
  Asks-shape (asks_download i g e) = e
  Asks-shape (asks_listing {f} i) = sym (append-nil f)
  Asks-shape (asks_delete i g e) = e

  pub intent_framed :
      {q : Request} {bytes : List ℕ} (a : Asks q bytes) → IsInt (intent_of q) (intent_frame a)
  intent_framed (asks_upload i a c e) = i
  intent_framed (asks_download i g e) = i
  intent_framed (asks_listing i) = i
  intent_framed (asks_delete i g e) = i

  -- Each request behind a notice, and a notice of something else at the end.
  pub data AsksAll : List Request → List ℕ → Type 0 where
    goodbye :
        {notice : ℕ} {f : List ℕ}
        → notice < 2 ^ 32
        → notice ≢ new_action
        → IsInt notice f
        → AsksAll [] f
    then :
        {f g h bytes : List ℕ} {q : Request} {qs : List Request}
        → IsInt new_action f
        → Asks q g
        → AsksAll qs h
        → bytes ≡ f ++ (g ++ h)
        → AsksAll (q ∷ qs) bytes

  pub data Carries : Reply → List ℕ → Type 0 where
    carries_nothing : Carries nothing []
    carries_file :
        {f g c bytes : List ℕ} {e : Entry}
        → Framed key e.header f
        → Framed key e.salt g
        → Chunks key e.chunks c
        → bytes ≡ f ++ (g ++ c)
        → Carries (file e) bytes
    carries_names :
        {ns : List (List ℕ)} {bytes : List ℕ}
        → Messages key (le_bytes 4 (length ns) ∷ map with_nul ns) bytes
        → Carries (names ns) bytes
    carries_status : {n : ℕ} {f : List ℕ} → IsInt n f → Carries (status n) f

  pub data CarriesAll : List Reply → List ℕ → Type 0 where
    done : CarriesAll [] []
    then :
        {f g bytes : List ℕ} {r : Reply} {rs : List Reply}
        → Carries r f
        → CarriesAll rs g
        → bytes ≡ f ++ g
        → CarriesAll (r ∷ rs) bytes
