-- ===== src/Server/Listing/Examples.antt =====
-- A listing and a deletion on the toy platform, whose disk has no file that could be removed.
use mefsc.Common.{◌≡◌, refl, some, [], ◌∷◌, ◌++◌, replicate, le_bytes, of_le, arith}
use mefsc.Constants.{ack_fail}
use mefsc.Platform.{W, not_found}
use mefsc.Platform.Toy.{toy, world, seen, answer, view, reliable, sound}
use mefsc.CText.{c_str}
use mefsc.Session.{read_wrapper, unwrap, wrap_and_send}
use mefsc.Session.Toy.{key, frame_of, framed}
use mefsc.Server.{Operator, Stale, random_bytes, expect}
use mefsc.Server.Upload.{text_of}
use mefsc.Server.Listing.{
  send_fresh, send_names, directory, lffs_handler, removal, remove_file, dffs_handler,
}
use mefsc.Server.Listing.Deletes.{Deleted, dffs_handler-Deleted}

abbrev operator : Operator
operator = record { user_dir = []; server_rx = key; server_tx = key; nonce = [] }

abbrev stale : Stale
stale = record { int = 5; file_name_buf = []; file_name_length = 0; header = []; salt = [] }

-- The number of files, then the one name with its NUL.
one_file :
    seen (lffs_handler 40 stale operator (record (world [] 0) { disk = (97 ∷ [], []) ∷ [] }))
    ≡ some (0, answer 7 (1 ∷ 0 ∷ 0 ∷ 0 ∷ []) ++ answer 8 (97 ∷ 0 ∷ []))
unfolding lffs_handler directory send_fresh send_names random_bytes wrap_and_send le_bytes
one_file = refl

-- A file that does not exist: the answer is -1.
not_deleted :
    seen (dffs_handler 40 stale operator (world (frame_of (97 ∷ 0 ∷ [])) 1))
    ≡ some (0, answer 8 (replicate 4 255))
unfolding dffs_handler remove_file removal send_fresh random_bytes expect text_of c_str read_wrapper
    unwrap wrap_and_send le_bytes of_le
not_deleted = refl

-- The directory of one file, "a".
abbrev stocked : W
stocked = record (world [] 0) { disk = (97 ∷ [], []) ∷ [] }

abbrev deleting : W
deleting = world (frame_of (97 ∷ 0 ∷ []) ++ (1 ∷ [])) 1

dffs_handler-Deleted_example :
    Deleted sound view reliable 70000 stale operator ack_fail [] deleting (1 ∷ [])
dffs_handler-Deleted_example =
    dffs_handler-Deleted sound view reliable 70000 stale operator not_found [] (97 ∷ [])
      (framed (97 ∷ 0 ∷ []) (omega arith)) (1 ∷ []) deleting (omega arith)
      (λ e. omega (arith, e), tt) refl (λ e. absurd (cc)) refl (omega arith)
