-- ===== src/Client/Program/Requests.antt =====
-- One turn of the client's user, as a request of the store.
use mefsc.Common.{
  suc, ℕ, ◌+◌, ◌*◌, ◌^◌, ◌≤◌, ◌<◌, ◌≡◌, ◌≢◌, refl, ap, true, false, some, List, [], ◌∷◌, ◌++◌,
  length, concat, All,
}
use mefsc.Constants.{
  chunk_size, pre_ext_file_name_len, secretstream_headerbytes, pwhash_saltbytes,
  read_from_filesystem, write_to_filesystem, list_files, delete_file,
}
use mefsc.Platform.{Platform}
use mefsc.CText.{ext}
use mefsc.Transfer.{Opens}
use mefsc.Store.{
  Entry, IsEntry, IsPlain, Request, upload, download, listing, delete, Reply, nothing, file, names,
  status,
}
use mefsc.Client.Listing.Shows.{IsShort}
use mefsc.Client.Download.Saves.{local_path}
use mefsc.Client.Program.{Turn, StaleClient}

module _ ⦃p : Platform⦄ (rounds : ℕ) (password : List ℕ) where
  open p.storage use {Disk, open_read, write_file}
  open p.sodium use {Stream, pwhash, init_pull}

  -- An entry opens to a file, under the password.
  pub record Unseals (e : Entry) (contents : List ℕ) : Type 0 where
    pub key : List ℕ
    pub stream : Stream
    pub messages : List (List ℕ)
    pub keyed : pwhash password e.salt ≡ some key
    pub started : init_pull e.header key ≡ some stream
    pub opens : Opens stream e.chunks messages
    pub whole : concat messages ≡ contents

  -- The client's disk after a file is fetched: the file is emptied first.
  abbrev pub fetched : List ℕ → List ℕ → Disk → Disk
  fetched name contents d =
      write_file (local_path name) contents (write_file (local_path name) [] d)

  -- On a disk of the client, a turn that can be answered with a reply, and the disk after it.
  pub data Suits : Disk → Turn → Reply → Disk → Type 0 where
    suits_upload :
        {d : Disk} {t : Turn} {contents : List ℕ}
        → t.intention ≡ write_to_filesystem
        → open_read t.file_name d ≡ some contents
        → length contents < rounds * chunk_size
        → length t.file_name ≤ pre_ext_file_name_len
        → All (λ b. b ≢ 0) t.file_name
        → IsPlain (t.file_name ++ ext)
        → Suits d t nothing d
    suits_download :
        {d : Disk} {t : Turn} {e : Entry} {contents : List ℕ}
        → t.intention ≡ read_from_filesystem
        → 4 ≤ length t.file_name
        → length t.file_name + 1 ≤ pre_ext_file_name_len
        → IsPlain t.file_name
        → IsEntry rounds e
        → Unseals e contents
        → Suits d t (file e) (fetched t.file_name contents d)
    suits_listing :
        {d : Disk} {t : Turn} {ns : List (List ℕ)}
        → t.intention ≡ list_files
        → length ns < 2 ^ 31
        → All IsShort ns
        → Suits d t (names ns) d
    suits_delete :
        {d : Disk} {t : Turn} {n : ℕ}
        → t.intention ≡ delete_file
        → length t.file_name + 1 ≤ pre_ext_file_name_len
        → IsPlain t.file_name
        → n < 2 ^ 32
        → Suits d t (status n) d

  -- The request that a turn stands for: an upload's entry opens to the file again, under any key that
  -- the password gives.
  abbrev pub IsRequestOf : Disk → Turn → Request → Type 0
  IsRequestOf d t (upload name e) =
      (t.intention ≡ write_to_filesystem)
      × (name ≡ t.file_name)
      × ((key : List ℕ)
          → pwhash password e.salt ≡ some key
          → (contents : List ℕ) × (open_read name d ≡ some contents) × Unseals e contents)
  IsRequestOf d t (download name) = (t.intention ≡ read_from_filesystem) × (name ≡ t.file_name)
  IsRequestOf d t listing = t.intention ≡ list_files
  IsRequestOf d t (delete name) = (t.intention ≡ delete_file) × (name ≡ t.file_name)

-- The uninitialised buffers of a download have their declared sizes.
pub record IsClient (stale : StaleClient) : Type 0 where
  pub header_size : length stale.header ≤ secretstream_headerbytes
  pub salt_size : length stale.salt ≤ pwhash_saltbytes

module _ ⦃p : Platform⦄ (rounds : ℕ) (password : List ℕ) where
  open p.storage use {Disk}

  -- The turns of a session, of which the last is not followed by another, with the replies to them, and the
  -- client's disk before and after.
  pub data SuitsAll : Disk → List Turn → List Reply → Disk → Type 0 where
    suits_last :
        {d d' : Disk} {t : Turn} {r : Reply}
        → Suits rounds password d t r d'
        → t.again ≡ false
        → SuitsAll d (t ∷ []) (r ∷ []) d'
    suits_then :
        {d d' d'' : Disk} {t : Turn} {r : Reply} {ts : List Turn} {rs : List Reply}
        → Suits rounds password d t r d'
        → t.again ≡ true
        → SuitsAll d' ts rs d''
        → SuitsAll d (t ∷ ts) (r ∷ rs) d''

  -- The requests that such turns stand for, each on the disk that it finds.
  pub data AreRequestsOf : Disk → List Turn → List Reply → Disk → List Request → Type 0 where
    are_last :
        {d d' : Disk} {t : Turn} {r : Reply} {q : Request}
        → Suits rounds password d t r d'
        → IsRequestOf rounds password d t q
        → AreRequestsOf d (t ∷ []) (r ∷ []) d' (q ∷ [])
    are_then :
        {d d' d'' : Disk} {t : Turn} {r : Reply} {ts : List Turn} {rs : List Reply} {q : Request}
        {qs : List Request}
        → Suits rounds password d t r d'
        → IsRequestOf rounds password d t q
        → AreRequestsOf d' ts rs d'' qs
        → AreRequestsOf d (t ∷ ts) (r ∷ rs) d'' (q ∷ qs)

  -- A request for each turn.
  pub AreRequestsOf-length :
      {d d' : Disk} {ts : List Turn} {rs : List Reply} {qs : List Request}
      → AreRequestsOf d ts rs d' qs
      → length qs ≡ length ts
  AreRequestsOf-length (are_last s r) = refl
  AreRequestsOf-length (are_then s r rs) = ap suc (AreRequestsOf-length rs)
