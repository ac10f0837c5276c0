-- ===== src/Server/Listing/Sends.antt =====
-- What the server sends for a listing.
use mefsc.Common.{
  ℕ, ◌+◌, ◌≤◌, ◌≡◌, refl, sym, ap, ◌∙◌, some, List, [], ◌∷◌, ◌++◌, arith, length, length-append,
  append-nil, map, All, le_bytes, length-le_bytes,
}
use mefsc.Constants.{stream_chunk_size, aead_abytes}
use mefsc.Platform.{Platform, W}
use mefsc.Platform.Laws.{View, Reliable, Sound}
use mefsc.Outcome.{Outcome, bind-next, returned}
use mefsc.Wire.Talk.{Talks, Talked-trans, Talked-rest, Talked-nil, Sends-Talks}
use mefsc.Session.Frames.{Framed, wrap_and_send-Framed, sent_frame}
use mefsc.Transfer.Messages.{Messages, done, then, with_nul, HasFrame}
use mefsc.Server.{Operator, Stale, random_bytes}
use mefsc.Server.Listing.{send_fresh, send_names, directory, lffs_handler}

module _ ⦃p : Platform⦄ (view : View p.net.Sock) where
  -- Drawing random bytes says nothing.
  pub random_bytes-Talks :
      (n : ℕ) (w : W)
      → Talks view
          (random_bytes n w)
          (p.sodium.randombytes_buf n w.rng).0
          w
          []
          (view.pending w.sock)
  unfolding random_bytes
  random_bytes-Talks n w = (
    record w { rng = (p.sodium.randombytes_buf n w.rng).1 },
    refl,
    record {
      remaining = refl;
      quieter = omega arith;
      added = sym (append-nil (view.written w.sock));
      same_disk = refl;
    },
  )

module _ ⦃p : Platform⦄ {Paired : p.sodium.Stream → p.sodium.Stream → Type 0}
    (sound : Sound p.sodium Paired) (view : View p.net.Sock) (good : Reliable p.net view) (fuel : ℕ)
    (stale : Stale) (op : Operator) where
  open view use {pending}

  pub send_fresh-Framed :
      (m : List ℕ) (w : W)
      → length m + aead_abytes ≤ stream_chunk_size
      → (f : List ℕ) × Framed op.server_tx m f
        × Talks view (send_fresh fuel stale op m w) tt w f (pending w.sock)
  unfolding send_fresh
  send_fresh-Framed m w h =
      let (w1, e1, v1) = random_bytes-Talks view 8 w in
      let s =
        wrap_and_send-Framed sound view good op.server_tx (p.sodium.randombytes_buf 8 w.rng).0 m w1
          (sound.random_length 8 w.rng) h in
      let (w2, e2, v2) = Sends-Talks view v1.remaining (sent_frame sound view good s) in
      (s.bytes, s.framed, (w2, bind-next _ e1 (bind-next _ e2 refl), Talked-trans view v1 v2))

  -- What a call answers that sends these messages.
  abbrev pub Tells : {A : Type 0} → Outcome W A → A → W → List (List ℕ) → Type 0
  Tells result a w ms =
      (bytes : List ℕ) × Messages op.server_tx ms bytes
      × Talks view result a w bytes (pending w.sock)

  send_names-Tells :
      (names : List (List ℕ)) (w : W)
      → All HasFrame names
      → Tells (send_names fuel stale op names w) tt w (map with_nul names)
  unfolding send_names
  send_names-Tells [] w h = ([], done, (w, refl, Talked-nil view w))
  send_names-Tells (name ∷ names) w h =
      let (f, framed, (w1, e1, v1)) =
        send_fresh-Framed (with_nul name) w (omega (arith, h.0, length-append name (0 ∷ []))) in
      let (g, ms, (w2, e2, v2)) = send_names-Tells names w1 h.1 in
      (
        f ++ g,
        then framed ms refl,
        (w2, bind-next _ e1 e2, Talked-trans view v1 (Talked-rest view v2 v1.remaining)),
      )

  directory-lists :
      (names : List (List ℕ)) (w : W)
      → p.storage.list_directory op.user_dir w.disk ≡ some names
      → directory fuel stale op w ≡ Outcome.next names w
  unfolding directory
  directory-lists names w e = rw (e, directory) refl

  -- Over a reliable connection, for a directory that can be listed and names that fit in a frame, the
  -- handler returns 0 and has sent the number of files and then each name with its NUL; nothing is
  -- received, and the disk stays.
  pub lffs_handler-Tells :
      (names : List (List ℕ)) (w : W)
      → p.storage.list_directory op.user_dir w.disk ≡ some names
      → All HasFrame names
      → Tells (lffs_handler fuel stale op w) 0 w (le_bytes 4 (length names) ∷ map with_nul names)
  unfolding lffs_handler
  lffs_handler-Tells names w e h =
      let (f, framed, (w1, e1, v1)) =
        send_fresh-Framed (le_bytes 4 (length names)) w
          (omega (arith, length-le_bytes 4 (length names))) in
      let (g, ms, (w2, e2, v2)) = send_names-Tells names w1 h in
      let again : p.storage.list_directory op.user_dir w1.disk ≡ some names =
        ap (p.storage.list_directory op.user_dir) v1.same_disk ∙ e in
      (
        f ++ g,
        then framed ms refl,
        (
          w2,
          ap returned (
              bind-next _ (directory-lists names w e) (
                bind-next _ e1
                  (bind-next _ (directory-lists names w1 again) (bind-next _ e2 refl)))),
          Talked-trans view v1 (Talked-rest view v2 v1.remaining),
        ),
      )
