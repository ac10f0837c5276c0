-- ===== src/Client/Listing/Examples.antt =====
-- The client's listing and deletion on the toy platform.
use mefsc.Common.{◌≡◌, refl, true, some, [], ◌∷◌, ◌++◌, le_bytes, of_le, arith, ℕ, List, ◌==◌}
use mefsc.Constants.{ack_fail, ack_suc}
use mefsc.Platform.{W}
use mefsc.Platform.Toy.{toy, world, seen, answer, view, reliable, sound}
use mefsc.Wire.Talk.{Talks}
use mefsc.Transfer.Messages.{Messages, done, then}
use mefsc.Session.Frames.{Framed}
use mefsc.CText.{c_str}
use mefsc.Session.{read_wrapper, unwrap, wrap_and_send}
use mefsc.Session.Toy.{key, frame_of, framed, int_framed}
use mefsc.Server.{random_bytes, expect}
use mefsc.Client.{CommsAgent}
use mefsc.Client.Listing.{show_name, read_name, read_names, lffs_handler, dffs_handler}
use mefsc.Client.Listing.Deletes.{dffs_handler-Framed}

abbrev agent : CommsAgent
agent = record { client_tx = key; client_rx = key }

-- The count, then one name.
shown :
    seen
      (lffs_handler 40 agent 0 (world (frame_of (1 ∷ 0 ∷ 0 ∷ 0 ∷ []) ++ frame_of (97 ∷ 0 ∷ [])) 0))
    ≡ some ((97 ∷ []) ∷ [], [])
unfolding lffs_handler read_names read_name show_name expect c_str read_wrapper unwrap of_le
    le_bytes
shown = refl

deleted :
    seen (dffs_handler 40 agent 5 (97 ∷ []) (world (frame_of (0 ∷ 0 ∷ 0 ∷ 0 ∷ [])) 0))
    ≡ some (true, answer 7 (97 ∷ 0 ∷ []))
unfolding dffs_handler random_bytes wrap_and_send expect read_wrapper unwrap of_le le_bytes
deleted = refl

abbrev one_name : List ℕ
one_name = frame_of (le_bytes 4 1) ++ frame_of (97 ∷ 0 ∷ [])

carried : Messages key (le_bytes 4 1 ∷ (97 ∷ 0 ∷ []) ∷ []) one_name
unfolding le_bytes
carried = then (int_framed 1) (then (framed (97 ∷ 0 ∷ []) (omega arith)) done refl) refl

abbrev listing : W
listing = world (one_name ++ (1 ∷ [])) 1

-- The server answers that there is no such file.
abbrev answered : W
answered = world (frame_of (le_bytes 4 ack_fail) ++ []) 0

dffs_handler-Framed_example :
    (f : List ℕ) × Framed key (97 ∷ 0 ∷ []) f
    × Talks view (dffs_handler 70000 agent 5 (97 ∷ []) answered) (ack_fail == ack_suc) answered f []
dffs_handler-Framed_example =
    dffs_handler-Framed sound view reliable 70000 agent 5 ack_fail (97 ∷ []) (int_framed ack_fail)
      [] answered (omega arith) (omega arith) refl (omega arith)
