-- ===== src/Client/Download/Fetches.antt =====
-- The whole of `decrypt_and_read_from_server`.
use mefsc.Common.{◌∙◌, ℕ, ◌+◌, ◌≤◌, ◌≡◌, refl, ap, some, List, [], ◌++◌, arith, length, concat}
use mefsc.Constants.{end_chunk, stream_chunk_size, secretstream_headerbytes, pwhash_saltbytes}
use mefsc.Platform.{Platform, W}
use mefsc.Platform.Laws.{View, Reliable}
use mefsc.Outcome.{Outcome, bind-next, returned, with_code, or_return}
use mefsc.Wire.Receive.{Received-trans, Gives}
use mefsc.CText.{overwrite_all}
use mefsc.Session.Frames.{Framed, read_wrapper-Framed, unwrap-Framed}
use mefsc.Transfer.{Chunks, Opens}
use mefsc.Client.{CommsAgent}
use mefsc.Client.Download.{init_read, save, decrypt_and_read_from_server}
use mefsc.Client.Download.Decrypts.{decrypt_chunks-Opens}

module _ ⦃p : Platform⦄ (view : View p.net.Sock) (good : Reliable p.net view) (fuel : ℕ)
    (ca : CommsAgent) where
  open view use {pending, noise}
  open p.sodium use {Stream, pwhash, init_pull}

  init_read-Framed :
      (old_header old_salt header salt rest : List ℕ) {f g : List ℕ}
      (u : Framed ca.client_rx header f) (v : Framed ca.client_rx salt g) (w : W)
      → length header ≡ secretstream_headerbytes
      → length salt ≡ pwhash_saltbytes
      → length old_header ≤ secretstream_headerbytes
      → length old_salt ≤ pwhash_saltbytes
      → pending w.sock ≡ f ++ (g ++ rest)
      → stream_chunk_size + 16 + noise w.sock ≤ fuel
      → Gives view (init_read fuel ca old_header old_salt w) (header, salt) w rest
  unfolding init_read
  init_read-Framed old_header old_salt header salt rest {f} {g} u v w hh hs oh os e b =
      let (w1, e1, v1) = read_wrapper-Framed view good fuel u (g ++ rest) w e b in
      let (w2, e2, v2) =
        read_wrapper-Framed view good fuel v rest w1 v1.remaining (omega (arith, v1.quieter)) in
      (
        w2,
        bind-next _ e1 (
            rw
              (
                unwrap-Framed view good ca.client_rx header f secretstream_headerbytes u
                    (omega arith),
                e2,
                unwrap-Framed view good ca.client_rx salt g pwhash_saltbytes v (omega arith),
                overwrite_all header old_header (omega arith),
                overwrite_all salt old_salt (omega arith),
              )
              refl),
        Received-trans view v1 v2,
      )

  -- What a download leaves: the status 0, the file with `contents`, and what follows.
  pub record Fetched (rounds : ℕ) (path password old_header old_salt contents : List ℕ) (w : W)
      (rest : List ℕ) : Type 0 where
    pub after : W
    pub result :
        decrypt_and_read_from_server fuel ca rounds path password old_header old_salt w
        ≡ Outcome.next 0 after
    pub remaining : pending after.sock ≡ rest
    pub quieter : noise after.sock ≤ noise w.sock
    pub same_written : view.written after.sock ≡ view.written w.sock
    pub disk : after.disk ≡ p.storage.write_file path contents w.disk

  -- Over a reliable connection, where header, salt and chunks arrive, the password and the salt give a
  -- key whose stream opens the chunks to messages, and there are rounds for the chunks: the download
  -- returns 0 and leaves the messages in the file, and what follows on the connection.
  pub decrypt_and_read_from_server-Fetched :
      (rounds : ℕ) (path password old_header old_salt header salt key : List ℕ) (st : Stream)
      {f g bytes rest : List ℕ} {cs ms : List (List ℕ)} (w : W)
      → Framed ca.client_rx header f
      → Framed ca.client_rx salt g
      → Chunks ca.client_rx cs bytes
      → length header ≡ secretstream_headerbytes
      → length salt ≡ pwhash_saltbytes
      → length old_header ≤ secretstream_headerbytes
      → length old_salt ≤ pwhash_saltbytes
      → pwhash password salt ≡ some key
      → init_pull header key ≡ some st
      → Opens st cs ms
      → length cs ≤ rounds
      → pending w.sock ≡ f ++ (g ++ (bytes ++ rest))
      → stream_chunk_size + 16 + noise w.sock ≤ fuel
      → Fetched rounds path password old_header old_salt (concat ms) w rest
  unfolding decrypt_and_read_from_server save
  decrypt_and_read_from_server-Fetched rounds path password old_header old_salt header salt key st
        {f} {g} {bytes} {rest} {cs} {ms} w u v t hh hs oh os pk ip o l e b =
      let (w1, e1, v1) =
        init_read-Framed old_header old_salt header salt (bytes ++ rest) u v w hh hs oh os e b in
      let (w2, e2, v2) =
        decrypt_chunks-Opens view good fuel ca rounds end_chunk st [] rest w1 t o l v1.remaining
          (omega (arith, v1.quieter)) in
      record {
        after = record w2 { disk = p.storage.write_file path (concat ms) w2.disk };
        result = ap returned (
            bind-next _ (ap (with_code 1) e1) (
              bind-next _ (ap (λ o. or_return o 1 w1) pk)
                (bind-next _ (ap (λ o. or_return o 2 w1) ip) (bind-next _ e2 refl))));
        remaining = v2.remaining;
        quieter = omega (arith, v1.quieter, v2.quieter);
        same_written = v2.same_written ∙ v1.same_written;
        disk = rw (v2.same_disk, v1.same_disk) refl;
      }
