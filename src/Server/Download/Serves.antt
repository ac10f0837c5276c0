-- ===== src/Server/Download/Serves.antt =====
-- The whole of `RFFS_Handler__Server`.
use mefsc.Common.{
  ℕ, ◌+◌, ◌≤◌, ◌≡◌, ◌≢◌, refl, ap, ◌∙◌, some, none, List, [], ◌∷◌, ◌++◌, arith, length,
  length-append, take-append, drop-append, concat, All,
}
use mefsc.Constants.{
  stream_chunk_size, pre_ext_file_name_len, file_encrypted_chunk_size, secretstream_headerbytes,
  pwhash_saltbytes,
}
use mefsc.Platform.{Platform, W}
use mefsc.Platform.Laws.{View, Reliable, Sound}
use mefsc.Outcome.{bind-next, returned}
use mefsc.Wire.Blobs.{Sends, Wrote-trans}
use mefsc.Wire.Talk.{Talks, Talked-trans, Gives-Talks, Sends-Talks}
use mefsc.CText.{overwrite, overwrite_all}
use mefsc.Session.Frames.{Framed, wrap_and_send-Framed}
use mefsc.Transfer.{Chunks, IsCut}
use mefsc.Transfer.Messages.{with_nul}
use mefsc.Server.{Operator, Stale}
use mefsc.Server.Actions.{expect-Framed}
use mefsc.Server.Upload.Names.{text_of-with_nul}
use mefsc.Server.Upload.Announce.{Sized}
use mefsc.Server.Listing.Sends.{random_bytes-Talks}
use mefsc.Server.Download.{send_file, opened_file, open_file, rffs_handler}
use mefsc.Server.Download.Resends.{send_chunks-Chunks}

module _ ⦃p : Platform⦄ {Paired : p.sodium.Stream → p.sodium.Stream → Type 0}
    (sound : Sound p.sodium Paired) (view : View p.net.Sock) (good : Reliable p.net view) (fuel : ℕ)
    (stale : Stale) (op : Operator) (sized : Sized stale) where
  open view use {pending, noise}

  -- What is sent of a stored file: header, salt and chunks.
  pub record Sent (cs : List (List ℕ)) (header salt : List ℕ) : Type 0 where
    pub header_frame : List ℕ
    pub salt_frame : List ℕ
    pub chunks : List ℕ
    pub header_framed : Framed op.server_tx header header_frame
    pub salt_framed : Framed op.server_tx salt salt_frame
    pub carries : Chunks op.server_tx cs chunks

  abbrev pub all_bytes : {cs : List (List ℕ)} {header salt : List ℕ} → Sent cs header salt → List ℕ
  all_bytes s = s.header_frame ++ (s.salt_frame ++ s.chunks)

  send_file-Sent :
      (rounds : ℕ) (nonce : List ℕ) {cs : List (List ℕ)} (header salt : List ℕ) (w : W)
      → length nonce ≡ 8
      → length header ≡ secretstream_headerbytes
      → length salt ≡ pwhash_saltbytes
      → IsCut file_encrypted_chunk_size cs
      → length cs ≤ rounds
      → (s : Sent cs header salt) × Sends view
          (send_file fuel stale op rounds nonce (header ++ (salt ++ concat cs)) w)
          0
          w
          (all_bytes s)
  unfolding send_file
  send_file-Sent rounds nonce {cs} header salt w l hh hs cut b =
      let s1 = wrap_and_send-Framed sound view good op.server_tx nonce header w l (omega arith) in
      let s2 =
        wrap_and_send-Framed sound view good op.server_tx s1.nonce' salt s1.after s1.nonce_length
          (omega arith) in
      let (nonce', bytes, (w3, e3, v3), t) =
        send_chunks-Chunks sound view good fuel stale op rounds s2.nonce' s2.after s2.nonce_length
          cut b in
      let h : overwrite header stale.header ≡ header =
        overwrite_all header stale.header (omega (arith, sized.header_size)) in
      let a : overwrite salt stale.salt ≡ salt =
        overwrite_all salt stale.salt (omega (arith, sized.salt_size)) in
      (
        record {
          header_frame = s1.bytes;
          salt_frame = s2.bytes;
          chunks = bytes;
          header_framed = s1.framed;
          salt_framed = s2.framed;
          carries = t;
        },
        (
          w3,
          rw
              (
                take-append header (salt ++ concat cs) secretstream_headerbytes hh,
                drop-append header (salt ++ concat cs) secretstream_headerbytes hh,
                take-append salt (concat cs) pwhash_saltbytes hs,
                drop-append salt (concat cs) pwhash_saltbytes hs,
                h,
                a,
              )
              (bind-next _ s1.result (bind-next _ s2.result (bind-next _ e3 refl))),
          Wrote-trans view s1.wrote (Wrote-trans view s2.wrote v3),
        ),
      )

  -- What the handler does for a stored file: it returns 0, has sent it, and leaves what follows.
  pub record Served (rounds : ℕ) (header salt : List ℕ) (cs : List (List ℕ)) (w : W) (rest : List ℕ)
      : Type 0 where
    pub sent : Sent cs header salt
    pub talks : Talks view (rffs_handler fuel stale op rounds w) 0 w (all_bytes sent) rest

  -- Over a reliable connection, where the next frame carries the name with its NUL, the name fits and
  -- has no NUL, the user's directory has that file with a header, a salt and chunks that are full but
  -- for a shorter last one, and there are rounds for the chunks: the handler returns 0, it has sent
  -- header, salt and chunks, and leaves what follows on the connection.
  pub rffs_handler-Served :
      (rounds : ℕ) (name header salt : List ℕ) {cs : List (List ℕ)} {f rest : List ℕ} (w : W)
      → Framed op.server_rx (with_nul name) f
      → length name + 1 ≤ pre_ext_file_name_len
      → All (λ b. b ≢ 0) name
      → p.storage.open_read (op.user_dir ++ name) w.disk ≡ some (header ++ (salt ++ concat cs))
      → length header ≡ secretstream_headerbytes
      → length salt ≡ pwhash_saltbytes
      → IsCut file_encrypted_chunk_size cs
      → length cs ≤ rounds
      → pending w.sock ≡ f ++ rest
      → stream_chunk_size + 16 + noise w.sock ≤ fuel
      → Served rounds header salt cs w rest
  unfolding rffs_handler open_file opened_file
  rffs_handler-Served rounds name header salt {cs} w g l nul o hh hs cut r e b =
      let (w1, e1, v1) = random_bytes-Talks view 8 w in
      let (w2, e2, v2) = Gives-Talks view (
        expect-Framed view good fuel pre_ext_file_name_len 3 2 g _ w1
          (omega (arith, length-append name (0 ∷ []))) (v1.remaining ∙ e)
          (omega (arith, v1.quieter))) in
      let v = Talked-trans view v1 v2 in
      let (sent, sends) =
        send_file-Sent rounds (p.sodium.randombytes_buf 8 w.rng).0 header salt w2
          (sound.random_length 8 w.rng) hh hs cut r in
      let (w3, e3, v3) = Sends-Talks view v2.remaining sends in
      let opens : p.storage.open_read (op.user_dir ++ name) w2.disk
          ≡ some (header ++ (salt ++ concat cs)) =
        ap (p.storage.open_read (op.user_dir ++ name)) v.same_disk ∙ o in
      record {
        sent = sent;
        talks = (
          w3,
          ap returned (
              bind-next _ e1 (
                bind-next _ e2 (
                  bind-next _ (text_of-with_nul fuel stale op name stale.file_name_buf w2 nul) (
                    ap
                      (λ c.
                        opened_file fuel stale op rounds (p.sodium.randombytes_buf 8 w.rng).0 c w2)
                      opens
                    ∙ e3)))),
          Talked-trans view v v3,
        );
      }

  -- A file that is not there: the handler returns 1 and sends nothing.
  pub rffs_handler-missing :
      (rounds : ℕ) (name : List ℕ) {f rest : List ℕ} (w : W)
      → Framed op.server_rx (with_nul name) f
      → length name + 1 ≤ pre_ext_file_name_len
      → All (λ b. b ≢ 0) name
      → p.storage.open_read (op.user_dir ++ name) w.disk ≡ none
      → pending w.sock ≡ f ++ rest
      → stream_chunk_size + 16 + noise w.sock ≤ fuel
      → Talks view (rffs_handler fuel stale op rounds w) 1 w [] rest
  unfolding rffs_handler open_file opened_file
  rffs_handler-missing rounds name w g l nul o e b =
      let (w1, e1, v1) = random_bytes-Talks view 8 w in
      let (w2, e2, v2) = Gives-Talks view (
        expect-Framed view good fuel pre_ext_file_name_len 3 2 g _ w1
          (omega (arith, length-append name (0 ∷ []))) (v1.remaining ∙ e)
          (omega (arith, v1.quieter))) in
      let v = Talked-trans view v1 v2 in
      let absent : p.storage.open_read (op.user_dir ++ name) w2.disk ≡ none =
        ap (p.storage.open_read (op.user_dir ++ name)) v.same_disk ∙ o in
      (
        w2,
        ap returned (
            bind-next _ e1 (
              bind-next _ e2 (
                bind-next _ (text_of-with_nul fuel stale op name stale.file_name_buf w2 nul) (
                  ap
                    (λ c.
                      opened_file fuel stale op rounds (p.sodium.randombytes_buf 8 w.rng).0 c w2)
                    absent)))),
        v,
      )
