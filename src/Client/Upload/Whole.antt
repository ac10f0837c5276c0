-- ===== src/Client/Upload/Whole.antt =====
-- The whole of `encrypt_and_send_to_server`.
use mefsc.Common.{ℕ, ◌*◌, ◌≤◌, ◌<◌, ◌≡◌, refl, ap, some, List, ◌++◌, arith, length}
use mefsc.Constants.{chunk_size, aead_npubbytes, pwhash_saltbytes}
use mefsc.Platform.{Platform, W}
use mefsc.Platform.Laws.{View, Reliable, Sound}
use mefsc.Outcome.{bind-next, with_code, returned}
use mefsc.Wire.Blobs.{Wrote-trans}
use mefsc.Wire.Talk.{Talks}
use mefsc.Transfer.{Announcement, Chunks}
use mefsc.Server.{random_bytes}
use mefsc.Client.{CommsAgent, SenderAgent}
use mefsc.Client.Upload.{or_old, set_crypto, open_file, start_stream, encrypt_and_send_to_server}
use mefsc.Client.Upload.Sealed.{plain_chunks, seal}
use mefsc.Client.Upload.Sending.{encrypt_chunks-Chunks, init_send-Announced}

-- What an upload draws from the random source: the salt, and with the key from it the stream and its
-- header.
module _ ⦃p : Platform⦄ (password : List ℕ) (old : SenderAgent) (w : W) where
  open p.sodium use {Stream, randombytes_buf, pwhash, init_push}

  abbrev pub new_salt : List ℕ
  new_salt = (randombytes_buf pwhash_saltbytes w.rng).0

  abbrev pub new_key : List ℕ
  new_key = or_old (pwhash password new_salt) old.key

  abbrev pub new_stream : Stream
  new_stream = (init_push new_key (randombytes_buf pwhash_saltbytes w.rng).1).0.0

  abbrev pub new_header : List ℕ
  new_header = (init_push new_key (randombytes_buf pwhash_saltbytes w.rng).1).0.1

  -- The world after that.
  abbrev drawn : W
  drawn = record w { rng = (init_push new_key (randombytes_buf pwhash_saltbytes w.rng).1).1 }

module _ ⦃p : Platform⦄ {Paired : p.sodium.Stream → p.sodium.Stream → Type 0}
    (sound : Sound p.sodium Paired) (view : View p.net.Sock) (good : Reliable p.net view)
    (ca : CommsAgent) (rounds : ℕ) (old : SenderAgent) (name password : List ℕ) where
  -- What an upload sends: the announcement of the file, and its sealed chunks.
  pub record Uploaded (contents : List ℕ) (w : W) : Type 0 where
    pub announcement : List ℕ
    pub chunks : List ℕ
    pub talks :
        Talks view
          (encrypt_and_send_to_server ca rounds old name password w)
          0
          w
          (announcement ++ chunks)
          (view.pending w.sock)
    pub announces :
        Announcement ca.client_tx name
          (new_header password old w)
          (new_salt password old w)
          announcement
    pub carries :
        Chunks ca.client_tx
          (seal (new_stream password old w) (plain_chunks rounds chunk_size contents))
          chunks

  -- Over a reliable connection, for a file that can be opened and a name that fits in a frame, with
  -- rounds for the file: the function returns 0, and has sent the announcement of the file with its
  -- new header and salt, and then all its sealed chunks.
  pub encrypt_and_send_to_server-Uploaded :
      (contents : List ℕ) (w : W)
      → p.storage.open_read name w.disk ≡ some contents
      → length old.nonce ≡ aead_npubbytes
      → length name ≤ chunk_size
      → length contents < rounds * chunk_size
      → Uploaded contents w
  unfolding encrypt_and_send_to_server set_crypto open_file start_stream random_bytes
  encrypt_and_send_to_server-Uploaded contents w e l n h =
      let w0 : W = drawn password old w in
      let s =
        init_send-Announced sound view good ca old.nonce name (new_header password old w)
          (new_salt password old w) w0 l n (sound.header_length _ _) (sound.random_length _ _) in
      let (bytes, (w2, e2, v2), t) =
        encrypt_chunks-Chunks sound view good ca rounds (new_stream password old w) s.nonce'
          contents s.after s.nonce_length h in
      let v = Wrote-trans view s.wrote v2 in
      record {
        announcement = s.bytes;
        chunks = bytes;
        talks = (
          w2,
          rw e (ap returned (bind-next _ (ap (with_code 1) s.result) (bind-next _ e2 refl))),
          record {
            remaining = v.same_pending;
            quieter = omega (arith, v.same_noise);
            added = v.added;
            same_disk = v.same_disk;
          },
        );
        announces = s.announces;
        carries = t;
      }
