-- ===== src/Client/Program/Toy.antt =====
-- A session in memory, under any key: the user uploads the file "ab" and lists the files.
use mefsc.Common.{ℕ, refl, sym, append-nil, true, false, List, [], ◌∷◌, ◌++◌, arith, le_bytes}
use mefsc.Constants.{write_to_filesystem, list_files}
use mefsc.Platform.Toy.{toy}
use mefsc.CText.{ext}
use mefsc.Session.Toy.{frame_of, framed_by, int_framed_by}
use mefsc.Transfer.Messages.{Messages, done, then}
use mefsc.Store.{IsPlain, Reply, nothing, names}
use mefsc.Store.Wire.{CarriesAll, carries_nothing, carries_names}
use mefsc.Client.Program.{Turn, StaleClient}
use mefsc.Client.Program.Requests.{
  SuitsAll, suits_upload, suits_listing, suits_then, suits_last, IsClient,
}

abbrev pub stale_client : StaleClient
stale_client = record { key = []; int = 5; header = []; salt = [] }

pub stale_client-IsClient : IsClient stale_client
stale_client-IsClient = record { header_size = omega arith; salt_size = omega arith }

abbrev pub name : List ℕ
name = 97 ∷ 98 ∷ []

abbrev upload_ab : Turn
upload_ab = record { intention = write_to_filesystem; file_name = name; again = true }

abbrev list_all : Turn
list_all = record { intention = list_files; file_name = []; again = false }

abbrev pub turns : List Turn
turns = upload_ab ∷ list_all ∷ []

abbrev pub replies : List Reply
replies = nothing ∷ names ((name ++ ext) ∷ []) ∷ []

abbrev pub down : List ℕ
down = frame_of (le_bytes 4 1) ++ frame_of (name ++ (ext ++ (0 ∷ [])))

carried : (k : List ℕ) → Messages k (le_bytes 4 1 ∷ (name ++ (ext ++ (0 ∷ []))) ∷ []) down
unfolding le_bytes
carried k =
    then (int_framed_by k 1)
      (then (framed_by k (name ++ (ext ++ (0 ∷ []))) (omega arith)) done refl) refl

pub carries : (k : List ℕ) → CarriesAll k replies down
carries k =
    CarriesAll.then carries_nothing
      (CarriesAll.then (carries_names (carried k)) CarriesAll.done (sym (append-nil down))) refl

abbrev pub disk : List (List ℕ × List ℕ)
disk = (name, 20 ∷ 21 ∷ []) ∷ []

plain : IsPlain (name ++ ext)
plain = record {
  no_nul = ground arith;
  no_slash = ground arith;
  not_empty = λ e. absurd (ground (arith, e));
  not_here = λ e. absurd (ground (arith, e));
  not_up = λ e. absurd (ground (arith, e));
}

pub suits : SuitsAll 5 (98 ∷ []) disk turns replies disk
suits =
    suits_then
      (suits_upload {contents = 20 ∷ 21 ∷ []} refl refl (omega arith) (omega arith) (ground arith)
        plain)
      refl (suits_last (suits_listing refl (omega arith) ((omega arith, ground arith), tt)) refl)
