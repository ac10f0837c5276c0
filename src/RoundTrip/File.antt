-- ===== src/RoundTrip/File.antt =====
-- A file under a password: a whole upload, and a whole download.
mod Examples
use mefsc.Common.{
  ℕ, ◌+◌, ◌*◌, ◌≤◌, ◌<◌, ◌≡◌, ◌≢◌, refl, sym, ap, subst, ◌∙◌, some, List, [], ◌∷◌, ◌++◌, arith,
  length, length-append, concat, All, append_assoc,
}
use mefsc.Constants.{
  chunk_size, file_encrypted_chunk_size, aead_npubbytes, pre_ext_file_name_len, stream_chunk_size,
  secretstream_headerbytes, pwhash_saltbytes,
}
use mefsc.Platform.{Platform, W}
use mefsc.Platform.Laws.{View, Reliable, Sound, Remembers}
use mefsc.Outcome.{Outcome}
use mefsc.CText.{ext}
use mefsc.Wire.Talk.{Talks}
use mefsc.Session.Frames.{Framed}
use mefsc.Transfer.{Chunks, IsCut, Opens}
use mefsc.Transfer.Messages.{with_nul}
use mefsc.Server.{Operator, Stale}
use mefsc.Server.Upload.{wtfs_handler}
use mefsc.Server.Upload.Announce.{Sized}
use mefsc.Server.Download.{rffs_handler}
use mefsc.Server.Download.Serves.{Sent, Served, all_bytes, rffs_handler-Served}
use mefsc.Client.{CommsAgent, SenderAgent}
use mefsc.Client.Upload.{or_old, encrypt_and_send_to_server}
use mefsc.Client.Upload.Sealed.{
  plain_chunks, concat-plain_chunks, plain_chunks-IsCut, length-plain_chunks, seal, seal-IsCut,
  seal-Opens, length-seal,
}
use mefsc.Client.Upload.Whole.{new_salt, new_key, new_header, new_stream}
use mefsc.Client.Download.Fetches.{Fetched, decrypt_and_read_from_server-Fetched}
use mefsc.RoundTrip.Listing.{Talks-same}
use mefsc.RoundTrip.Upload.{wtfs_handler-encrypt_and_send_to_server}

pub All-append : (P : ℕ → Type 0) (xs ys : List ℕ) → All P xs → All P ys → All P (xs ++ ys)
All-append P [] ys h k = k
All-append P (x ∷ xs) ys h k = (h.0, All-append P xs ys h.1 k)

pub ext_has_no_nul : All (λ b. b ≢ 0) ext
ext_has_no_nul = (
  λ e. omega (arith, e),
  (λ e. omega (arith, e), (λ e. omega (arith, e), (λ e. omega (arith, e), tt))),
)

pub worlds : {S : Type 0} {a b : ℕ} {x y : S} → Outcome.next a x ≡ Outcome.next b y → x ≡ y
worlds e = cc

module _ ⦃p : Platform⦄ {Paired : p.sodium.Stream → p.sodium.Stream → Type 0}
    (sound : Sound p.sodium Paired) (disks : Remembers p.storage) (view : View p.net.Sock)
    (good : Reliable p.net view) (fuel : ℕ) (stale : Stale) (op : Operator) (ca : CommsAgent) where
  open view use {pending, noise}
  open p.sodium use {pwhash}

  -- The download of a file that is sealed as an upload seals it.
  fetch-Sent :
      (z : Sized stale) (rounds : ℕ) (old : SenderAgent)
      (password contents key path old_header old_salt : List ℕ) {rest : List ℕ} (wc wd : W)
      → op.server_tx ≡ ca.client_rx
      → length contents < rounds * chunk_size
      → pwhash password (new_salt password old wc) ≡ some key
      → length old_header ≤ secretstream_headerbytes
      → length old_salt ≤ pwhash_saltbytes
      → (s : Sent sound view good fuel stale op z
          (seal (new_stream password old wc) (plain_chunks rounds chunk_size contents))
          (new_header password old wc)
          (new_salt password old wc))
      → pending wd.sock ≡ all_bytes sound view good fuel stale op z s ++ rest
      → stream_chunk_size + 16 + noise wd.sock ≤ fuel
      → Fetched view good fuel ca rounds path password old_header old_salt contents wd rest
  fetch-Sent z rounds old password contents key path old_header old_salt {rest} wc wd k2 h pw oh os
        s ed bd =
      let header : List ℕ = new_header password old wc in
      let salt : List ℕ = new_salt password old wc in
      let st = new_stream password old wc in
      let ms = plain_chunks rounds chunk_size contents in
      let cs = seal st ms in
      let (st', pulls, pair) =
        sound.pairs (new_key password old wc)
          (p.sodium.randombytes_buf pwhash_saltbytes wc.rng).1 in
      let keyed : new_key password old wc ≡ key = ap (λ o. or_old o old.key) pw in
      let fetched =
        decrypt_and_read_from_server-Fetched view good fuel ca rounds path password old_header
          old_salt header salt key st' {rest = rest} wd
          (subst (λ x. Framed x header s.header_frame) k2 s.header_framed)
          (subst (λ x. Framed x salt s.salt_frame) k2 s.salt_framed)
          (subst (λ x. Chunks x cs s.chunks) k2 s.carries) (sound.header_length _ _)
          (sound.random_length _ _) oh os pw (ap (p.sodium.init_pull header) (sym keyed) ∙ pulls)
          (seal-Opens sound st st' ms (plain_chunks-IsCut rounds chunk_size contents h) pair)
          (omega (arith, length-seal st ms, length-plain_chunks rounds chunk_size contents))
          (ed
            ∙ append_assoc s.header_frame (s.salt_frame ++ s.chunks) rest
            ∙ ap (◌++◌ s.header_frame) (append_assoc s.salt_frame s.chunks rest))
          bd in
      subst (λ x. Fetched view good fuel ca rounds path password old_header old_salt x wd rest)
        (concat-plain_chunks rounds chunk_size contents h) fetched

  -- Over reliable connections, with the same session keys at both ends: a client has a file, whose name
  -- has no NUL and at most 245 bytes, and rounds for it, and `crypto_pwhash` gives a key. If what
  -- `encrypt_and_send_to_server` sends is what `wtfs_handler` receives, and from the disk that this
  -- leaves `rffs_handler`, asked for the name with ".enc", sends what the client receives, then
  -- `decrypt_and_read_from_server` with the same password returns 0 and leaves the contents of the
  -- file.
  pub decrypt_and_read_from_server-encrypt_and_send_to_server :
      (rounds : ℕ) (old : SenderAgent)
      (name password contents key path old_header old_salt rest2 rest3 : List ℕ)
      {up down f rest1 rest4 rest5 : List ℕ} (wc ws ws' wr wd : W)
      → op.server_rx ≡ ca.client_tx
      → op.server_tx ≡ ca.client_rx
      → Sized stale
      → p.storage.open_read name wc.disk ≡ some contents
      → length old.nonce ≡ aead_npubbytes
      → length name + 5 ≤ pre_ext_file_name_len
      → All (λ b. b ≢ 0) name
      → length contents < rounds * chunk_size
      → pwhash password (new_salt password old wc) ≡ some key
      → length old_header ≤ secretstream_headerbytes
      → length old_salt ≤ pwhash_saltbytes
      → Talks view (encrypt_and_send_to_server ca rounds old name password wc) 0 wc up rest1
      → pending ws.sock ≡ up ++ rest2
      → stream_chunk_size + 16 + noise ws.sock ≤ fuel
      → wtfs_handler fuel stale op rounds ws ≡ Outcome.next 0 ws'
      → wr.disk ≡ ws'.disk
      → Framed op.server_rx (with_nul (name ++ ext)) f
      → pending wr.sock ≡ f ++ rest3
      → stream_chunk_size + 16 + noise wr.sock ≤ fuel
      → Talks view (rffs_handler fuel stale op rounds wr) 0 wr down rest4
      → pending wd.sock ≡ down ++ rest5
      → stream_chunk_size + 16 + noise wd.sock ≤ fuel
      → Fetched view good fuel ca rounds path password old_header old_salt contents wd rest5
  decrypt_and_read_from_server-encrypt_and_send_to_server rounds old name password contents key path
        old_header old_salt rest2 rest3 {down} {f} {rest5} wc ws ws' wr wd k1 k2 z o l n nul h pw oh
        os sends es bs stores same_disk g er br resends ed bd =
      let header : List ℕ = new_header password old wc in
      let salt : List ℕ = new_salt password old wc in
      let st = new_stream password old wc in
      let ms = plain_chunks rounds chunk_size contents in
      let cs = seal st ms in
      let hh : length header ≡ secretstream_headerbytes = sound.header_length _ _ in
      let hs : length salt ≡ pwhash_saltbytes = sound.random_length _ _ in
      let few : length cs ≤ rounds =
        omega (arith, length-seal st ms, length-plain_chunks rounds chunk_size contents) in
      let stored =
        wtfs_handler-encrypt_and_send_to_server sound view good fuel stale op ca rounds old name
          password contents wc ws k1 z o l (omega arith) nul h sends es bs in
      let after : stored.after ≡ ws' =
        let e : Outcome.next 0 stored.after ≡ Outcome.next 0 ws' = sym stored.result ∙ stores in
        worlds e in
      let there : p.storage.open_read (op.user_dir ++ (name ++ ext)) wr.disk
          ≡ some (header ++ (salt ++ concat cs)) =
        ap (p.storage.open_read (op.user_dir ++ (name ++ ext)))
          (same_disk ∙ sym (ap (λ x. x.disk) after) ∙ stored.disk)
        ∙ disks.reads (op.user_dir ++ (name ++ ext)) (header ++ (salt ++ concat cs)) ws.disk in
      let served =
        rffs_handler-Served sound view good fuel stale op z rounds (name ++ ext) header salt
          {cs = cs} wr g (omega (arith, length-append name ext))
          (All-append (λ b. b ≢ 0) name ext nul ext_has_no_nul) there hh hs
          (seal-IsCut sound chunk_size st ms (plain_chunks-IsCut rounds chunk_size contents h)) few
          er br in
      fetch-Sent z rounds old password contents key path old_header old_salt wc wd k2 h pw oh os
        served.sent (ed ∙ ap (λ t. t ++ rest5) (sym (Talks-same view served.talks resends))) bd
