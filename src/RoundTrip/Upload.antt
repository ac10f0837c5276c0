-- ===== src/RoundTrip/Upload.antt =====
-- A whole upload, from the client's file to the server's disk.
use mefsc.Common.{
  ℕ, ◌+◌, ◌*◌, ◌≤◌, ◌<◌, ◌≡◌, ◌≢◌, sym, subst, ◌∙◌, some, List, ◌++◌, arith, length, All,
  append_assoc,
}
use mefsc.Constants.{chunk_size, aead_npubbytes, pre_ext_file_name_len, stream_chunk_size}
use mefsc.Platform.{Platform, W}
use mefsc.Platform.Laws.{View, Reliable, Sound}
use mefsc.Wire.Talk.{Talks}
use mefsc.Transfer.{Announcement, Chunks}
use mefsc.Server.{Operator, Stale}
use mefsc.Server.Upload.Announce.{Sized, Stored, wtfs_handler-Stored}
use mefsc.Client.{CommsAgent, SenderAgent}
use mefsc.Client.Upload.{encrypt_and_send_to_server}
use mefsc.Client.Upload.Sealed.{plain_chunks, length-plain_chunks, seal, length-seal}
use mefsc.Client.Upload.Whole.{
  new_salt, new_header, new_stream, encrypt_and_send_to_server-Uploaded,
}
use mefsc.RoundTrip.Listing.{Talks-same}

module _ ⦃p : Platform⦄ {Paired : p.sodium.Stream → p.sodium.Stream → Type 0}
    (sound : Sound p.sodium Paired) (view : View p.net.Sock) (good : Reliable p.net view) (fuel : ℕ)
    (stale : Stale) (op : Operator) (ca : CommsAgent) where
  open view use {pending, noise}

  -- Over reliable connections, with the same session key at both ends: if the client has the file, its
  -- name has at most 250 bytes and no NUL, there are rounds for the file, and what the server has to
  -- receive starts with what `encrypt_and_send_to_server` sends, then the server's handler returns 0,
  -- and its disk has under that name the header, the salt and the sealed chunks of the file.
  pub wtfs_handler-encrypt_and_send_to_server :
      (rounds : ℕ) (old : SenderAgent) (name password contents : List ℕ) {up rest rest' : List ℕ}
      (wc ws : W)
      → op.server_rx ≡ ca.client_tx
      → Sized stale
      → p.storage.open_read name wc.disk ≡ some contents
      → length old.nonce ≡ aead_npubbytes
      → length name ≤ pre_ext_file_name_len
      → All (λ b. b ≢ 0) name
      → length contents < rounds * chunk_size
      → Talks view (encrypt_and_send_to_server ca rounds old name password wc) 0 wc up rest'
      → pending ws.sock ≡ up ++ rest
      → stream_chunk_size + 16 + noise ws.sock ≤ fuel
      → Stored view good fuel stale op rounds name
          (new_header password old wc)
          (new_salt password old wc)
          (seal (new_stream password old wc) (plain_chunks rounds chunk_size contents))
          ws
          rest
  wtfs_handler-encrypt_and_send_to_server rounds old name password contents {up} {rest} wc ws k z o
        l n nul h sends e b =
      let u =
        encrypt_and_send_to_server-Uploaded sound view good ca rounds old name password contents wc
          o l (omega arith) h in
      let ms = plain_chunks rounds chunk_size contents in
      let cs = seal (new_stream password old wc) ms in
      let same : u.announcement ++ u.chunks ≡ up = Talks-same view u.talks sends in
      let a : Announcement op.server_rx name (new_header password old wc) (new_salt password old wc)
          u.announcement =
        subst
          (λ x.
            Announcement x name (new_header password old wc) (new_salt password old wc)
              u.announcement)
          (sym k) u.announces in
      let t : Chunks op.server_rx cs u.chunks =
        subst (λ x. Chunks x cs u.chunks) (sym k) u.carries in
      wtfs_handler-Stored view good fuel stale op rounds rest ws z a n nul (sound.header_length _ _)
        (sound.random_length _ _) t
        (omega (
          arith,
          length-seal (new_stream password old wc) ms,
          length-plain_chunks rounds chunk_size contents,
        ))
        (e
          ∙ sym (
              subst (λ x. u.announcement ++ (u.chunks ++ rest) ≡ x ++ rest) same
                (sym (append_assoc u.announcement u.chunks rest))))
        b
