-- ===== src/RoundTrip/Listing.antt =====
-- A listing, from the server's directory to the client's terminal.
use mefsc.Common.{
  ℕ, ◌+◌, ◌^◌, ◌≤◌, ◌<◌, ◌≡◌, sym, ap, ◌∙◌, subst, some, List, [], ◌∷◌, ◌++◌, arith, length, map,
  All, le_bytes,
}
use mefsc.Constants.{stream_chunk_size}
use mefsc.Platform.{Platform, W}
use mefsc.Platform.Laws.{View, Reliable, Sound}
use mefsc.Outcome.{Outcome}
use mefsc.Wire.Receive.{Gives}
use mefsc.Wire.Talk.{Talks}
use mefsc.Transfer.Messages.{Messages, with_nul, HasFrame}
use mefsc.Server.{Operator, Stale}
use mefsc.Server.Listing as ServerListing
use mefsc.Server.Listing.Sends.{lffs_handler-Tells}
use mefsc.Client.{CommsAgent}
use mefsc.Client.Listing as ClientListing
use mefsc.Client.Listing.Shows.{IsShort, lffs_handler-Messages}
use mefsc.RoundTrip.{append_cancel}

module _ ⦃p : Platform⦄ (view : View p.net.Sock) where
  pub Talks-same :
      {A : Type 0} {result : Outcome W A} {a b : A} {w : W} {xs ys rest rest' : List ℕ}
      → Talks view result a w xs rest
      → Talks view result b w ys rest'
      → xs ≡ ys
  Talks-same {w} {xs} {ys} (w1, e1, v1) (w2, e2, v2) =
      let same : w1 ≡ w2 = cc in
      append_cancel (view.written w.sock) xs ys
        (sym v1.added ∙ ap (λ x. view.written x.sock) same ∙ v2.added)

short-HasFrame : (names : List (List ℕ)) → All IsShort names → All HasFrame names
short-HasFrame [] h = tt
short-HasFrame (name ∷ names) h = (omega (arith, h.0.0), short-HasFrame names h.1)

module _ ⦃p : Platform⦄ {Paired : p.sodium.Stream → p.sodium.Stream → Type 0}
    (sound : Sound p.sodium Paired) (view : View p.net.Sock) (good : Reliable p.net view) (fuel : ℕ)
    (stale : Stale) (op : Operator) (ca : CommsAgent) where
  open view use {pending, noise}

  -- Over reliable connections, with the same session key at both ends: if the directory has these
  -- names, each with no NUL and short enough for the client's buffer, and what the client has to
  -- receive starts with what the server's handler sends, then the client shows exactly these names.
  pub lffs_handler-lffs_handler :
      (old : ℕ) (names : List (List ℕ)) {down rest rest' : List ℕ} (ws wc : W)
      → op.server_tx ≡ ca.client_rx
      → p.storage.list_directory op.user_dir ws.disk ≡ some names
      → length names < 2 ^ 31
      → All IsShort names
      → Talks view (ServerListing.lffs_handler fuel stale op ws) 0 ws down rest'
      → pending wc.sock ≡ down ++ rest
      → stream_chunk_size + 16 + noise wc.sock ≤ fuel
      → Gives view (ClientListing.lffs_handler fuel ca old wc) names wc rest
  lffs_handler-lffs_handler old names {down} {rest} ws wc k e n s sends h b =
      let (bytes, ms, sends') =
        lffs_handler-Tells sound view good fuel stale op names ws e (short-HasFrame names s) in
      let ms' : Messages ca.client_rx (le_bytes 4 (length names) ∷ map with_nul names) down =
        subst (λ key. Messages key (le_bytes 4 (length names) ∷ map with_nul names) down) k
          (subst (Messages op.server_tx (le_bytes 4 (length names) ∷ map with_nul names))
            (Talks-same view sends' sends) ms) in
      lffs_handler-Messages view good fuel ca old names rest wc ms' n s h b
