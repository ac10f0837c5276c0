-- ===== src/Store.antt =====
-- What the server promises to a client that is logged in, with no word about bytes on a connection: a
-- store of sealed files by name, and what each request does to it.
pub mod Sealed
pub mod Folder
pub mod Wire
pub mod Toy
use mefsc.Common.{
  ℕ, ◌+◌, ◌≤◌, ◌≡◌, ◌≢◌, Option, none, some, List, [], ◌∷◌, ◌++◌, length, concat, All,
}
use mathlib.Core.List.{Memᴰ}
use mefsc.Constants.{
  file_encrypted_chunk_size, secretstream_headerbytes, pwhash_saltbytes, pre_ext_file_name_len,
  ack_suc, ack_fail,
}
use mefsc.CText.{ext}
use mefsc.Transfer.{IsCut}

-- A sealed file.
pub record Entry : Type 0 where
  pub header : List ℕ
  pub salt : List ℕ
  pub chunks : List (List ℕ)

-- As it is stored.
abbrev pub contents_of : Entry → List ℕ
contents_of e = e.header ++ (e.salt ++ concat e.chunks)

-- Its parts have their lengths, and it has at most `rounds` chunks.
pub record IsEntry (rounds : ℕ) (e : Entry) : Type 0 where
  pub header_length : length e.header ≡ secretstream_headerbytes
  pub salt_length : length e.salt ≡ pwhash_saltbytes
  pub cut : IsCut file_encrypted_chunk_size e.chunks
  pub few : length e.chunks ≤ rounds

-- A name that stands for a file of one directory.
pub record IsPlain (name : List ℕ) : Type 0 where
  pub no_nul : All (λ b. b ≢ 0) name
  pub no_slash : All (λ b. b ≢ 47) name
  pub not_empty : name ≢ []
  pub not_here : name ≢ 46 ∷ []
  pub not_up : name ≢ 46 ∷ 46 ∷ []

-- The contents of the files of a directory.
abbrev pub Files : Type 0
Files = List ℕ → Option (List ℕ)

-- Nothing but the file of one name changes.
pub record IsUpdate (s : Files) (name : List ℕ) (contents : Option (List ℕ)) (t : Files)
    : Type 0 where
  pub there : t name ≡ contents
  pub elsewhere : (other : List ℕ) → IsPlain other → name ≢ other → t other ≡ s other

pub record IsSame (s t : Files) : Type 0 where
  pub same : (name : List ℕ) → IsPlain name → t name ≡ s name

-- The names of the files, in any order.
pub record Lists (s : Files) (names : List (List ℕ)) : Type 0 where
  pub sound : (name : List ℕ) → IsPlain name → Memᴰ name names → s name ≢ none
  pub complete : (name : List ℕ) → IsPlain name → s name ≢ none → Memᴰ name names

pub data Request : Type 0 where
  upload : List ℕ → Entry → Request
  download : List ℕ → Request
  listing : Request
  delete : List ℕ → Request

pub data Reply : Type 0 where
  nothing : Reply
  file : Entry → Reply
  names : List (List ℕ) → Reply
  status : ℕ → Reply

-- What a request may do: the reply, and the files after it.
pub data Does (rounds : ℕ) (s : Files) : Request → Reply → Files → Type 0 where
  uploads :
      {name : List ℕ} {e : Entry} {t : Files}
      → IsUpdate s (name ++ ext) (some (contents_of e)) t
      → Does rounds s (upload name e) nothing t
  sends :
      {name : List ℕ} {e : Entry} {t : Files}
      → s name ≡ some (contents_of e)
      → IsEntry rounds e
      → IsSame s t
      → Does rounds s (download name) (file e) t
  sends_nothing :
      {name : List ℕ} {t : Files}
      → s name ≡ none
      → IsSame s t
      → Does rounds s (download name) nothing t
  lists :
      {ns : List (List ℕ)} {t : Files}
      → Lists s ns
      → IsSame s t
      → Does rounds s listing (names ns) t
  deletes :
      {name contents : List ℕ} {t : Files}
      → s name ≡ some contents
      → IsUpdate s name none t
      → Does rounds s (delete name) (status ack_suc) t
  deletes_nothing :
      {name : List ℕ} {t : Files}
      → s name ≡ none
      → IsSame s t
      → Does rounds s (delete name) (status ack_fail) t

-- One request after another.
pub data DoesAll (rounds : ℕ) : Files → List Request → List Reply → Files → Type 0 where
  done : {s t : Files} → IsSame s t → DoesAll rounds s [] [] t
  then :
      {s t u : Files} {q : Request} {r : Reply} {qs : List Request} {rs : List Reply}
      → Does rounds s q r t
      → DoesAll rounds t qs rs u
      → DoesAll rounds s (q ∷ qs) (r ∷ rs) u

-- The requests that the server takes.
abbrev pub IsFair : ℕ → Request → Type 0
IsFair rounds (upload name e) =
    (length name ≤ pre_ext_file_name_len)
    × All (λ b. b ≢ 0) name
    × IsPlain (name ++ ext)
    × IsEntry rounds e
IsFair rounds (download name) = (length name + 1 ≤ pre_ext_file_name_len) × IsPlain name
IsFair rounds listing = Unit
IsFair rounds (delete name) = (length name + 1 ≤ pre_ext_file_name_len) × IsPlain name

-- Every file is sealed.
abbrev pub IsSealed : ℕ → Files → Type 0
IsSealed rounds s =
    (name contents : List ℕ)
    → IsPlain name
    → s name ≡ some contents
    → (e : Entry) × IsEntry rounds e × (contents ≡ contents_of e)
