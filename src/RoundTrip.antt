-- ===== src/RoundTrip.antt =====
-- A file goes from the client to the server's disk and back: the loops of src/client/authed_entry.cpp
-- and src/server/read_write_handlers.cpp one after another, each over a connection of its own.
pub mod Listing
pub mod Upload
pub mod File
pub mod Connection
mod Examples
use mefsc.Common.{
  ℕ, zero, suc, ◌+◌, ◌*◌, ◌≤◌, ◌<◌, ◌≡◌, refl, sym, ap, ◌∙◌, subst, inl, inr, true, false, List, [],
  ◌∷◌, ◌++◌, arith, length, concat, drop, take, ltb, Bool-cases,
}
use mefsc.Constants.{chunk_size, file_encrypted_chunk_size, stream_chunk_size, aead_npubbytes}
use mefsc.Platform.{Platform, W}
use mefsc.Platform.Laws.{View, Reliable, Sound}
use mefsc.Outcome.{Outcome}
use mefsc.Wire.Receive.{Gives}
use mefsc.Wire.Blobs.{Sends}
use mefsc.Transfer.{Chunks, IsCut, Opens}
use mefsc.Server.{Operator, Stale}
use mefsc.Server.Upload.{receive_chunks}
use mefsc.Server.Upload.Stores.{receive_chunks-Chunks}
use mefsc.Server.Download.{send_chunks}
use mefsc.Server.Download.Resends.{send_chunks-Chunks}
use mefsc.Client.{CommsAgent}
use mefsc.Client.Upload.{encrypt_chunks}
use mefsc.Client.Upload.Sealed.{
  plain_chunks, concat-plain_chunks, plain_chunks-IsCut, length-plain_chunks, seal, seal-IsCut,
  seal-Opens, length-seal,
}
use mefsc.Client.Upload.Sending.{encrypt_chunks-Chunks}
use mefsc.Client.Download.{decrypt_chunks}
use mefsc.Client.Download.Decrypts.{decrypt_chunks-Opens}

pub append_cancel : (zs xs ys : List ℕ) → zs ++ xs ≡ zs ++ ys → xs ≡ ys
append_cancel [] xs ys e = e
append_cancel (z ∷ zs) xs ys e = append_cancel zs xs ys cc

module _ ⦃p : Platform⦄ (view : View p.net.Sock) where
  -- A call sends one thing only, and gives one thing only.
  Sends-same :
      {A : Type 0} {result : Outcome W A} {a b : A} {w : W} {xs ys : List ℕ}
      → Sends view result a w xs
      → Sends view result b w ys
      → xs ≡ ys
  Sends-same {w} {xs} {ys} (w1, e1, v1) (w2, e2, v2) =
      let same : w1 ≡ w2 = cc in
      append_cancel (view.written w.sock) xs ys
        (sym v1.added ∙ ap (λ x. view.written x.sock) same ∙ v2.added)

  Gives-same :
      {A : Type 0} {result : Outcome W (ℕ × A)} {m n : ℕ} {a b : A} {w : W} {r s : List ℕ}
      → Gives view result (m, a) w r
      → Gives view result (n, b) w s
      → a ≡ b
  Gives-same (w1, e1, v1) (w2, e2, v2) = cc

module _ ⦃p : Platform⦄ {Paired : p.sodium.Stream → p.sodium.Stream → Type 0}
    (sound : Sound p.sodium Paired) (view : View p.net.Sock) (good : Reliable p.net view) (fuel : ℕ)
    (stale : Stale) (op : Operator) (ca : CommsAgent) where
  open view use {pending, noise}
  open p.sodium use {Stream}

  -- Over reliable connections, with the same session keys at both ends and streams that are paired: if
  -- the client's upload sends `up` for a file, the server's loop answers `stored` for it, and the loop
  -- over the stored file sends `down`, then the client's download loop over `down` answers 0 with
  -- chunks that make up the file.
  pub decrypt_chunks-encrypt_chunks :
      (n : ℕ) (st st' : Stream) (nonce nonce1 nonce2 contents : List ℕ) (old1 old2 : ℕ)
      {up down rest1 rest2 : List ℕ} {stored : List (List ℕ)} (w w1 w2 w3 : W)
      → op.server_rx ≡ ca.client_tx
      → op.server_tx ≡ ca.client_rx
      → Paired st st'
      → length nonce ≡ aead_npubbytes
      → length nonce1 ≡ aead_npubbytes
      → length contents < n * chunk_size
      → Sends view (encrypt_chunks ca n st nonce contents w) tt w up
      → pending w1.sock ≡ up ++ rest1
      → stream_chunk_size + 16 + noise w1.sock ≤ fuel
      → Gives view (receive_chunks fuel stale op n old1 [] w1) (0, stored) w1 rest1
      → Sends view (send_chunks fuel stale op n nonce1 (concat stored) w2) nonce2 w2 down
      → pending w3.sock ≡ down ++ rest2
      → stream_chunk_size + 16 + noise w3.sock ≤ fuel
      → (ms : List (List ℕ)) × Gives view (decrypt_chunks fuel ca n st' old2 [] w3) (0, ms) w3 rest2
        × (concat ms ≡ contents)
  decrypt_chunks-encrypt_chunks n st st' nonce nonce1 nonce2 contents old1 old2 {up} {down} {rest1}
        {rest2} {stored} w w1 w2 w3 k1 k2 pair l l1 h sent e1 b1 got resent e3 b3 =
      let ms : List (List ℕ) = plain_chunks n chunk_size contents in
      let cs : List (List ℕ) = seal st ms in
      let (up', sent', t) = encrypt_chunks-Chunks sound view good ca n st nonce contents w l h in
      let same_up : up' ≡ up = Sends-same view sent' sent in
      let fits : length cs ≤ n =
        omega (arith, length-seal st ms, length-plain_chunks n chunk_size contents) in
      let t1 : Chunks op.server_rx cs up =
        subst (λ k. Chunks k cs up) (sym k1) (subst (Chunks ca.client_tx cs) same_up t) in
      let got' = receive_chunks-Chunks view good fuel stale op n old1 [] rest1 w1 t1 fits e1 b1 in
      let same_stored : stored ≡ cs = Gives-same view got got' in
      let cut : IsCut file_encrypted_chunk_size cs =
        seal-IsCut sound chunk_size st ms (plain_chunks-IsCut n chunk_size contents h) in
      let (nonce', down', resent', t2) =
        send_chunks-Chunks sound view good fuel stale op n nonce1 w2 l1 cut fits in
      let same_down : down' ≡ down = Sends-same view resent' (
        subst (λ x. Sends view (send_chunks fuel stale op n nonce1 (concat x) w2) nonce2 w2 down)
          same_stored resent) in
      let t3 : Chunks ca.client_rx cs down =
        subst (λ k. Chunks k cs down) k2 (subst (Chunks op.server_tx cs) same_down t2) in
      (
        ms,
        decrypt_chunks-Opens view good fuel ca n old2 st' [] rest2 w3 t3
            (seal-Opens sound st st' ms (plain_chunks-IsCut n chunk_size contents h) pair) fits e3
            b3,
        concat-plain_chunks n chunk_size contents h,
      )
