-- ===== src/Store/Folder.antt =====
-- What is used of a file system: one directory with plain files.
use mefsc.Common.{ℕ, ◌≤◌, ◌≡◌, none, some, List, ◌++◌, length, All}
use mefsc.Constants.{max_file_name_length}
use mefsc.Platform.{Storage, removed, not_found}
use mefsc.Store.{Files, IsPlain, IsUpdate, IsSame, Lists}

-- The files of the directory `dir`, whose path ends with a slash.
abbrev pub files : (storage : Storage) → List ℕ → storage.Disk → Files
files storage dir d name = storage.open_read (dir ++ name) d

-- `Holds d`: on the disk `d` there is the directory, with nothing but files that can be read. No file
-- system has a name of more than 255 bytes.
pub record Folder (storage : Storage) (dir : List ℕ) : Type 1 where
  pub Holds : storage.Disk → Type 0
  pub writes :
      (name contents : List ℕ) (d : storage.Disk)
      → Holds d
      → IsPlain name
      → length name ≤ max_file_name_length
      → Holds (storage.write_file (dir ++ name) contents d)
        × IsUpdate
            (files storage dir d)
            name
            (some contents)
            (files storage dir (storage.write_file (dir ++ name) contents d))
  pub removes :
      (name contents : List ℕ) (d : storage.Disk)
      → Holds d
      → IsPlain name
      → files storage dir d name ≡ some contents
      → (d' : storage.Disk) × (storage.remove (dir ++ name) d ≡ (removed, d'))
        × Holds d'
        × IsUpdate (files storage dir d) name none (files storage dir d')
  pub misses :
      (name : List ℕ) (d : storage.Disk)
      → Holds d
      → IsPlain name
      → files storage dir d name ≡ none
      → (d' : storage.Disk) × (storage.remove (dir ++ name) d ≡ (not_found, d'))
        × Holds d'
        × IsSame (files storage dir d) (files storage dir d')
  pub lists :
      (d : storage.Disk)
      → Holds d
      → (names : List (List ℕ)) × (storage.list_directory dir d ≡ some names)
        × All (λ name. length name ≤ max_file_name_length) names
        × Lists (files storage dir d) names
