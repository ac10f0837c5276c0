-- ===== src/Client/Listing/Shows.antt =====
-- What the client shows of a listing.
use mefsc.Common.{
  ℕ, ◌+◌, ◌-◌, ◌^◌, ◌≤◌, ◌<◌, ◌≡◌, ◌≢◌, refl, ap, ◌∙◌, some, List, [], ◌∷◌, ◌++◌, arith, length,
  length-append, drop, replicate, append_assoc, map, All, le_bytes, length-le_bytes, lt→ltb,
}
use mefsc.Constants.{stream_chunk_size, max_file_name_length}
use mefsc.Platform.{Platform, W}
use mefsc.Platform.Laws.{View, Reliable}
use mefsc.Outcome.{bind-next}
use mefsc.Wire.Receive.{Received-trans, Received-refl, Gives}
use mefsc.Session.Frames.{Framed}
use mefsc.CText.{c_str, c_str-append}
use mefsc.Transfer.Messages.{Messages, done, then, with_nul}
use mefsc.Server.{int_after, int_after-le_bytes}
use mefsc.Server.Actions.{expect-Framed}
use mefsc.Client.{CommsAgent}
use mefsc.Client.Listing.{rounds_of, show_name, read_name, read_names, lffs_handler}

-- A name that the client's buffer has room for.
abbrev pub IsShort : List ℕ → Type 0
IsShort name = (length name + 1 < max_file_name_length) × All (λ b. b ≢ 0) name

module _ ⦃p : Platform⦄ (view : View p.net.Sock) (good : Reliable p.net view) (fuel : ℕ)
    (ca : CommsAgent) where
  open view use {pending, noise}

  read_name-Framed :
      (name : List ℕ) {f : List ℕ} (g : Framed ca.client_rx (with_nul name) f) (rest : List ℕ)
      (w : W)
      → IsShort name
      → pending w.sock ≡ f ++ rest
      → stream_chunk_size + 16 + noise w.sock ≤ fuel
      → Gives view (read_name fuel ca w) name w rest
  unfolding read_name show_name
  read_name-Framed name g rest w s e b =
      let (w1, e1, v1) =
        expect-Framed view good fuel (max_file_name_length - 1) 1 1 g rest w
          (omega (arith, s.0, length-append name (0 ∷ []))) e b in
      let zeros : List ℕ = drop (length (with_nul name)) (replicate max_file_name_length 0) in
      let shown : c_str (with_nul name ++ zeros) ≡ some name =
        ap c_str (append_assoc name (0 ∷ []) zeros) ∙ c_str-append name zeros s.1 in
      (w1, bind-next _ e1 (rw (shown, show_name) refl), v1)

  read_names-Messages :
      (names : List (List ℕ)) {bytes : List ℕ} (rest : List ℕ) (w : W)
      → Messages ca.client_rx (map with_nul names) bytes
      → All IsShort names
      → pending w.sock ≡ bytes ++ rest
      → stream_chunk_size + 16 + noise w.sock ≤ fuel
      → Gives view (read_names fuel ca (length names) w) names w rest
  unfolding read_names
  read_names-Messages [] rest w done s e b = (w, refl, Received-refl view e)
  read_names-Messages (name ∷ names) rest w (then {f} {g} framed ms shape) s e b =
      let (w1, e1, v1) =
        read_name-Framed name framed (g ++ rest) w s.0
          (e ∙ ap (λ t. t ++ rest) shape ∙ append_assoc f g rest) b in
      let (w2, e2, v2) =
        read_names-Messages names rest w1 ms s.1 v1.remaining (omega (arith, v1.quieter)) in
      (w2, bind-next _ e1 (bind-next _ e2 refl), Received-trans view v1 v2)

  -- Over a reliable connection: the client shows exactly the names that arrive, in order, if each fits
  -- in its buffer, and leaves what follows.
  pub lffs_handler-Messages :
      (stale : ℕ) (names : List (List ℕ)) {bytes : List ℕ} (rest : List ℕ) (w : W)
      → Messages ca.client_rx (le_bytes 4 (length names) ∷ map with_nul names) bytes
      → length names < 2 ^ 31
      → All IsShort names
      → pending w.sock ≡ bytes ++ rest
      → stream_chunk_size + 16 + noise w.sock ≤ fuel
      → Gives view (lffs_handler fuel ca stale w) names w rest
  unfolding lffs_handler
  lffs_handler-Messages stale names rest w (then {f} {g} framed ms shape) n s e b =
      let (w1, e1, v1) =
        expect-Framed view good fuel 4 1 1 framed (g ++ rest) w
          (omega (arith, length-le_bytes 4 (length names)))
          (e ∙ ap (λ t. t ++ rest) shape ∙ append_assoc f g rest) b in
      let (w2, e2, v2) =
        read_names-Messages names rest w1 ms s v1.remaining (omega (arith, v1.quieter)) in
      let count : rounds_of (int_after (le_bytes 4 (length names)) stale) ≡ length names =
        ap rounds_of (int_after-le_bytes (length names) stale (omega arith))
        ∙ rw (lt→ltb (length names) (2 ^ 31) n) refl in
      (w2, bind-next _ e1 (ap (λ k. read_names fuel ca k w1) count ∙ e2), Received-trans view v1 v2)
