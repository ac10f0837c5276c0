-- ===== src/Client/Download/Saves.antt =====
-- The whole of `RFFS_Handler`.
use mefsc.Common.{
  ℕ, ◌+◌, ◌-◌, ◌≤◌, ◌≡◌, refl, ap, ◌∙◌, some, List, [], ◌∷◌, ◌++◌, arith, length, take, concat,
  length-append, le→ltb,
}
use mefsc.Constants.{stream_chunk_size, aead_npubbytes, secretstream_headerbytes, pwhash_saltbytes}
use mefsc.Platform.{Platform, W}
use mefsc.Platform.Laws.{View, Reliable, Sound}
use mefsc.Outcome.{Outcome, bind-next}
use mefsc.Wire.Talk.{Spoken}
use mefsc.Session.Frames.{Framed, wrap_and_send-Framed}
use mefsc.Transfer.{Chunks, Opens}
use mefsc.Transfer.Messages.{with_nul, HasFrame}
use mefsc.Client.{CommsAgent}
use mefsc.Client.Download.{rffs_handler, local_name, save}
use mefsc.Client.Download.Fetches.{decrypt_and_read_from_server-Fetched}

-- Where a file that is asked for by this name goes: the name less ".enc".
abbrev pub local_path : List ℕ → List ℕ
local_path name = take (length name - 4) name

module _ ⦃p : Platform⦄ {Paired : p.sodium.Stream → p.sodium.Stream → Type 0}
    (sound : Sound p.sodium Paired) (view : View p.net.Sock) (good : Reliable p.net view) (fuel : ℕ)
    (ca : CommsAgent) (rounds : ℕ) where
  open view use {pending, noise}
  open p.sodium use {Stream, pwhash, init_pull}
  open p.storage use {write_file}

  -- What it leaves: one frame with the name is sent, and the file holds the contents.
  pub record Saved (nonce name password old_header old_salt contents : List ℕ) (w : W)
      (rest : List ℕ) : Type 0 where
    pub after : W
    pub sent : List ℕ
    pub result :
        rffs_handler fuel ca rounds nonce name password old_header old_salt w ≡ Outcome.next 0 after
    pub asked : Framed ca.client_tx (with_nul name) sent
    pub spoken : Spoken view w sent rest after
    pub disk :
        after.disk ≡ write_file (local_path name) contents (write_file (local_path name) [] w.disk)

  -- Over a reliable connection, for a name of at least four bytes that fits in a frame, where header, salt
  -- and chunks arrive that open under the password to messages, and with rounds for the chunks: the handler
  -- returns 0, has sent the name, and leaves the messages in the file of that name less its last four
  -- bytes.
  pub rffs_handler-Saved :
      (nonce name password old_header old_salt header salt key : List ℕ) (st : Stream)
      {f g bytes : List ℕ} (rest : List ℕ) {cs ms : List (List ℕ)} (w : W)
      → length nonce ≡ aead_npubbytes
      → 4 ≤ length name
      → HasFrame name
      → Framed ca.client_rx header f
      → Framed ca.client_rx salt g
      → Chunks ca.client_rx cs bytes
      → length header ≡ secretstream_headerbytes
      → length salt ≡ pwhash_saltbytes
      → length old_header ≤ secretstream_headerbytes
      → length old_salt ≤ pwhash_saltbytes
      → pwhash password salt ≡ some key
      → init_pull header key ≡ some st
      → Opens st cs ms
      → length cs ≤ rounds
      → pending w.sock ≡ f ++ (g ++ (bytes ++ rest))
      → stream_chunk_size + 16 + noise w.sock ≤ fuel
      → Saved nonce name password old_header old_salt (concat ms) w rest
  unfolding rffs_handler local_name save
  rffs_handler-Saved nonce name password old_header old_salt header salt key st rest {ms = ms} w l
        long short u v t hh hs oh os pk ip o n e b =
      let s =
        wrap_and_send-Framed sound view good ca.client_tx nonce (with_nul name) w l
          (omega (arith, length-append name (0 ∷ []))) in
      let path : List ℕ = local_path name in
      let w1 : W = record s.after { disk = write_file path [] s.after.disk } in
      let f =
        decrypt_and_read_from_server-Fetched view good fuel ca rounds path password old_header
          old_salt header salt key st {rest = rest} w1 u v t hh hs oh os pk ip o n
          (s.wrote.same_pending ∙ e) (omega (arith, s.wrote.same_noise)) in
      record {
        after = f.after;
        sent = s.bytes;
        result =
            bind-next _ s.result (rw (le→ltb (length name) 4 long) (bind-next _ f.result refl));
        asked = s.framed;
        spoken = record {
          remaining = f.remaining;
          quieter = omega (arith, s.wrote.same_noise, f.quieter);
          added = f.same_written ∙ s.wrote.added;
        };
        disk =
            f.disk ∙ ap (λ x. write_file path (concat ms) (write_file path [] x)) s.wrote.same_disk;
      }
