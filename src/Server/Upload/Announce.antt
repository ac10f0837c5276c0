-- ===== src/Server/Upload/Announce.antt =====
-- What the upload handler reads before the chunks, and the whole upload.
use mefsc.Common.{
  ℕ, ◌+◌, ◌≤◌, ◌≡◌, ◌≢◌, refl, ap, ◌∙◌, List, [], ◌∷◌, ◌++◌, arith, length, append_assoc, of_le,
  concat, drop, All, take-append,
}
use mefsc.Constants.{
  end_chunk, file_encrypted_chunk_size, stream_chunk_size, pre_ext_file_name_len,
  secretstream_headerbytes, pwhash_saltbytes,
}
use mefsc.Platform.{Platform, W}
use mefsc.Platform.Laws.{View, Reliable}
use mefsc.Outcome.{Outcome, bind-next, returned, with_code}
use mefsc.Wire.Receive.{Received-refl, Gives, Gives-bind}
use mefsc.Session.{Unwrapped, Wrapper, unwrap}
use mefsc.Session.Frames.{Framed, arrived, read_wrapper-Framed, unwrap-Framed}
use mefsc.Transfer.{Announcement, Chunks}
use mefsc.CText.{overwrite, overwrite_all, c_str-append, ext}
use mefsc.Server.{Operator, Stale}
use mefsc.Server.Upload.{
  terminate, file_name_of, header_of, salt_of, confirmed, read_file_name, read_header, read_salt,
  init_read, text_of, save, wtfs_handler,
}
use mefsc.Server.Upload.Stores.{receive_chunks-Chunks}

-- The uninitialised arrays have their declared sizes.
pub record Sized (stale : Stale) : Type 0 where
  pub name_size : length stale.file_name_buf ≡ file_encrypted_chunk_size
  pub header_size : length stale.header ≡ secretstream_headerbytes
  pub salt_size : length stale.salt ≡ pwhash_saltbytes

abbrev opened : Wrapper → List ℕ → Unwrapped
opened x m = record { status = 0; wrapper = x; decrypted_data = m }

module _ ⦃p : Platform⦄ (view : View p.net.Sock) (good : Reliable p.net view) (fuel : ℕ)
    (stale : Stale) (op : Operator) where
  open view use {pending, noise}

  file_name_of-opened :
      (x : Wrapper) (name : List ℕ) (w : W)
      → length name ≤ pre_ext_file_name_len
      → file_name_of fuel stale op (opened x name) w
        ≡ Outcome.next (terminate (length name) (overwrite name stale.file_name_buf)) w
  unfolding file_name_of
  file_name_of-opened x name w h = ground arith

  read_file_name-Framed :
      {name f : List ℕ} (rest : List ℕ) (w : W)
      → Framed op.server_rx name f
      → length name ≤ pre_ext_file_name_len
      → pending w.sock ≡ f ++ rest
      → stream_chunk_size + 16 + noise w.sock ≤ fuel
      → Gives view
          (read_file_name fuel stale op w)
          (terminate (length name) (overwrite name stale.file_name_buf))
          w
          rest
  unfolding read_file_name
  read_file_name-Framed {name} {f} rest w g h e b =
      let (w1, e1, v1) = read_wrapper-Framed view good fuel g rest w e b in
      (
        w1,
        rw e1 (
            ap (λ u. file_name_of fuel stale op u w1)
              (unwrap-Framed view good op.server_rx name f pre_ext_file_name_len g h)
            ∙ file_name_of-opened (arrived g.nonce g.text) name w1 h),
        v1,
      )

  read_header-Framed :
      {header f : List ℕ} (rest : List ℕ) (w : W)
      → Framed op.server_rx header f
      → length header ≤ secretstream_headerbytes
      → pending w.sock ≡ f ++ rest
      → stream_chunk_size + 16 + noise w.sock ≤ fuel
      → Gives view (read_header fuel stale op w) (overwrite header stale.header) w rest
  unfolding read_header header_of
  read_header-Framed {header} {f} rest w g h e b =
      let (w1, e1, v1) = read_wrapper-Framed view good fuel g rest w e b in
      (
        w1,
        rw e1 (
            ap (λ u. header_of fuel stale op u w1)
              (unwrap-Framed view good op.server_rx header f secretstream_headerbytes g h)),
        v1,
      )

  read_salt-Framed :
      {salt f : List ℕ} (rest : List ℕ) (w : W)
      → Framed op.server_rx salt f
      → length salt ≤ pwhash_saltbytes
      → pending w.sock ≡ f ++ rest
      → stream_chunk_size + 16 + noise w.sock ≤ fuel
      → Gives view (read_salt fuel stale op w) (overwrite salt stale.salt) w rest
  unfolding read_salt salt_of
  read_salt-Framed {salt} {f} rest w g h e b =
      let (w1, e1, v1) = read_wrapper-Framed view good fuel g rest w e b in
      (
        w1,
        rw e1 (
            ap (λ u. salt_of fuel stale op u w1)
              (unwrap-Framed view good op.server_rx salt f pwhash_saltbytes g h)),
        v1,
      )

  confirmed-opened :
      (x : Wrapper) (w : W) → confirmed fuel stale op (opened x (1 ∷ [])) w ≡ Outcome.next tt w
  unfolding confirmed of_le
  confirmed-opened x w = refl

  confirmed-Framed :
      {f rest : List ℕ} (g : Framed op.server_rx (1 ∷ []) f) (w : W)
      → pending w.sock ≡ rest
      → Gives view
          (confirmed fuel stale op (unwrap op.server_rx 1 (arrived g.nonce g.text)) w)
          tt
          w
          rest
  confirmed-Framed {f} g w e = (
    w,
    ap (λ u. confirmed fuel stale op u w)
          (unwrap-Framed view good op.server_rx (1 ∷ []) f 1 g (omega arith))
        ∙ confirmed-opened (arrived g.nonce g.text) w,
    Received-refl view e,
  )

  -- `init_read` takes in a whole announcement.
  init_read-Announcement :
      {name header salt bytes : List ℕ} (rest : List ℕ) (w : W)
      → Sized stale
      → Announcement op.server_rx name header salt bytes
      → length name ≤ pre_ext_file_name_len
      → length header ≡ secretstream_headerbytes
      → length salt ≡ pwhash_saltbytes
      → pending w.sock ≡ bytes ++ rest
      → stream_chunk_size + 16 + noise w.sock ≤ fuel
      → Gives view
          (init_read fuel stale op w)
          (record {
            file_name_buf = terminate (length name) (overwrite name stale.file_name_buf);
            header = header;
            salt = salt;
          })
          w
          rest
  unfolding init_read
  init_read-Announcement {name} {header} {salt} {bytes} rest w z a hn hh hs e b =
      let cut : pending w.sock
          ≡ a.exists_frame ++ (a.name_frame ++ (a.header_frame ++ (a.salt_frame ++ rest))) =
        e ∙ ap (λ t. t ++ rest) a.shape ∙ simp append_assoc in
      Gives-bind view _ (read_wrapper-Framed view good fuel a.exists_framed _ w cut b) λ w0 v0.
        Gives-bind view _ (confirmed-Framed a.exists_framed w0 v0.remaining) λ w1 v1.
          Gives-bind view _
            (read_file_name-Framed _ w1 a.name_framed hn v1.remaining
              (omega (arith, v0.quieter, v1.quieter)))
            λ w2 v2.
              Gives-bind view _
                (read_header-Framed _ w2 a.header_framed (omega arith) v2.remaining
                  (omega (arith, v0.quieter, v1.quieter, v2.quieter)))
                λ w3 v3.
                  Gives-bind view _
                    (read_salt-Framed rest w3 a.salt_framed (omega arith) v3.remaining
                      (omega (arith, v0.quieter, v1.quieter, v2.quieter, v3.quieter)))
                    λ w4 v4. (
                      w4,
                      rw
                          (
                            overwrite_all header stale.header (omega (arith, z.header_size)),
                            overwrite_all salt stale.salt (omega (arith, z.salt_size)),
                          )
                          refl,
                      Received-refl view v4.remaining,
                    )

  text_of-terminate :
      (name : List ℕ) (w : W)
      → All (λ b. b ≢ 0) name
      → text_of fuel stale op (terminate (length name) (overwrite name stale.file_name_buf)) w
        ≡ Outcome.next name w
  unfolding text_of
  text_of-terminate name w h =
      rw
        (
          take-append name (drop (length name) stale.file_name_buf) (length name) refl,
          c_str-append name _ h,
          text_of,
        )
        refl

  -- What a successful upload leaves: the status 0, nothing sent, the client's further bytes still to
  -- come, and on
  -- the disk the header, the salt and the chunks under the name with ".enc" in the user's directory.
  pub record Stored (rounds : ℕ) (name header salt : List ℕ) (cs : List (List ℕ)) (w : W)
      (rest : List ℕ) : Type 0 where
    pub after : W
    pub result : wtfs_handler fuel stale op rounds w ≡ Outcome.next 0 after
    pub remaining : pending after.sock ≡ rest
    pub quieter : noise after.sock ≤ noise w.sock
    pub same_written : view.written after.sock ≡ view.written w.sock
    pub disk :
        after.disk
        ≡ p.storage.write_file (op.user_dir ++ (name ++ ext)) (header ++ (salt ++ concat cs)) w.disk

  -- The upload handler stores a well-formed transfer whole: with a name of at most 250 bytes and no
  -- NUL, a header and a salt of their lengths, a reliable connection, and rounds for all the chunks,
  -- it returns 0 and sends nothing, the file holds header, salt and every chunk in order, and later
  -- bytes are still to come.
  pub wtfs_handler-Stored :
      (rounds : ℕ) {name header salt a bytes : List ℕ} {cs : List (List ℕ)} (rest : List ℕ) (w : W)
      → Sized stale
      → Announcement op.server_rx name header salt a
      → length name ≤ pre_ext_file_name_len
      → All (λ b. b ≢ 0) name
      → length header ≡ secretstream_headerbytes
      → length salt ≡ pwhash_saltbytes
      → Chunks op.server_rx cs bytes
      → length cs ≤ rounds
      → pending w.sock ≡ a ++ (bytes ++ rest)
      → stream_chunk_size + 16 + noise w.sock ≤ fuel
      → Stored rounds name header salt cs w rest
  unfolding wtfs_handler save
  wtfs_handler-Stored rounds {name} {header} {salt} {a} {bytes} {cs} rest w z g hn nul hh hs t l e
        b =
      let (w1, e1, v1) = init_read-Announcement (bytes ++ rest) w z g hn hh hs e b in
      let (w2, e2, v2) =
        receive_chunks-Chunks view good fuel stale op rounds end_chunk [] rest w1 t l v1.remaining
          (omega (arith, v1.quieter)) in
      let path : List ℕ = op.user_dir ++ (name ++ ext) in
      let contents : List ℕ = header ++ (salt ++ concat cs) in
      record {
        after = record w2 { disk = p.storage.write_file path contents w2.disk };
        result = ap returned (
            bind-next _ (ap (with_code 1) e1)
              (bind-next _ (text_of-terminate name w1 nul) (bind-next _ e2 refl)));
        remaining = v2.remaining;
        quieter = omega (arith, v1.quieter, v2.quieter);
        same_written = v2.same_written ∙ v1.same_written;
        disk = rw (v2.same_disk, v1.same_disk) refl;
      }
