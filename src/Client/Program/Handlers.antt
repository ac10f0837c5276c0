-- ===== src/Client/Program/Handlers.antt =====
-- The four handlers of a turn.
use mefsc.Common.{
  some, ℕ, ◌+◌, ◌*◌, ◌^◌, ◌≤◌, ◌<◌, ◌≡◌, refl, sym, ap, ◌∙◌, List, [], ◌∷◌, ◌++◌, arith, length,
  All, map, le_bytes,
}
use mefsc.Constants.{
  chunk_size, stream_chunk_size, aead_npubbytes, pre_ext_file_name_len, pwhash_saltbytes,
  read_from_filesystem, write_to_filesystem, list_files, delete_file,
}
use mefsc.Platform.{Platform, W}
use mefsc.Platform.Laws.{View, Reliable, Sound}
use mefsc.Outcome.{bind-next, attempted}
use mefsc.Wire.Talk.{Talked-rest, Talked-Spoken, Received-Spoken}
use mefsc.Session.Frames.{Framed}
use mefsc.Transfer.{Chunks}
use mefsc.Transfer.Messages.{Messages, with_nul}
use mefsc.Store.{Entry, IsEntry}
use mefsc.Store.Wire.{IsInt}
use mefsc.Client.{CommsAgent, SenderAgent}
use mefsc.Client.Upload.{or_old}
use mefsc.Client.Upload.Sealed.{
  plain_chunks, concat-plain_chunks, plain_chunks-IsCut, length-plain_chunks, seal, seal-IsCut,
  seal-Opens, length-seal,
}
use mefsc.Client.Upload.Whole.{Uploaded, new_salt, new_key, new_header, new_stream}
use mefsc.Client.Download.Saves.{rffs_handler-Saved}
use mefsc.Client.Listing.Shows.{IsShort, lffs_handler-Messages}
use mefsc.Client.Listing.Deletes.{dffs_handler-Framed}
use mefsc.Client.Program.{Turn, StaleClient, handle, wtfs_handler}
use mefsc.Client.Program.Requests.{Unseals, fetched, IsClient}
use mefsc.Client.Program.Turns.{Handled}

module _ ⦃p : Platform⦄ {Paired : p.sodium.Stream → p.sodium.Stream → Type 0}
    (sound : Sound p.sodium Paired) (view : View p.net.Sock) (good : Reliable p.net view)
    (fuel rounds : ℕ) (stale : StaleClient) (ca : CommsAgent) (password : List ℕ) where
  open view use {pending, written, noise}
  open p.sodium use {randombytes_buf}

  pub uploads-Handled :
      (t : Turn) (agent : SenderAgent) (ra_nonce contents rest : List ℕ) (w : W)
      → t.intention ≡ write_to_filesystem
      → (u : Uploaded sound view good ca rounds agent t.file_name password contents w)
      → pending w.sock ≡ rest
      → Handled sound view good fuel rounds stale ca password t agent ra_nonce w
          (u.announcement ++ u.chunks)
          rest
          w.disk
  unfolding handle wtfs_handler
  uploads-Handled t agent ra_nonce contents rest w i u e =
      let (w1, e1, v1) = u.talks in
      record {
        after = w1;
        result = rw i (bind-next _ (bind-next _ e1 refl) refl);
        spoken = Talked-Spoken view (Talked-rest view v1 e);
        disk = v1.same_disk;
      }

  -- The entry of an upload.
  abbrev pub entry_of : SenderAgent → List ℕ → W → Entry
  entry_of agent contents w = record {
    header = new_header password agent w;
    salt = new_salt password agent w;
    chunks = seal (new_stream password agent w) (plain_chunks rounds chunk_size contents);
  }

  pub entry_of-IsEntry :
      (agent : SenderAgent) (contents : List ℕ) (w : W)
      → length contents < rounds * chunk_size
      → IsEntry rounds (entry_of agent contents w)
  entry_of-IsEntry agent contents w h =
      let st = new_stream password agent w in
      let ms = plain_chunks rounds chunk_size contents in
      record {
        header_length = sound.header_length _ _;
        salt_length = sound.random_length _ _;
        cut = seal-IsCut sound chunk_size st ms (plain_chunks-IsCut rounds chunk_size contents h);
        few = omega (arith, length-seal st ms, length-plain_chunks rounds chunk_size contents);
      }

  pub entry_of-Unseals :
      (agent : SenderAgent) (contents key : List ℕ) (w : W)
      → length contents < rounds * chunk_size
      → p.sodium.pwhash password (new_salt password agent w) ≡ some key
      → Unseals rounds password (entry_of agent contents w) contents
  entry_of-Unseals agent contents key w h pw =
      let st = new_stream password agent w in
      let ms = plain_chunks rounds chunk_size contents in
      let (st', pulls, pair) =
        sound.pairs (new_key password agent w) (randombytes_buf pwhash_saltbytes w.rng).1 in
      let keyed : new_key password agent w ≡ key = ap (λ o. or_old o agent.key) pw in
      record {
        key = key;
        stream = st';
        messages = ms;
        keyed = pw;
        started = ap (p.sodium.init_pull (new_header password agent w)) (sym keyed) ∙ pulls;
        opens = seal-Opens sound st st' ms (plain_chunks-IsCut rounds chunk_size contents h) pair;
        whole = concat-plain_chunks rounds chunk_size contents h;
      }

  pub downloads-Handled :
      (t : Turn) (agent : SenderAgent) (ra_nonce rest : List ℕ) (e : Entry)
      {contents f g c : List ℕ} (w : W)
      → t.intention ≡ read_from_filesystem
      → 4 ≤ length t.file_name
      → length t.file_name + 1 ≤ pre_ext_file_name_len
      → IsEntry rounds e
      → Unseals rounds password e contents
      → length ra_nonce ≡ aead_npubbytes
      → IsClient stale
      → Framed ca.client_rx e.header f
      → Framed ca.client_rx e.salt g
      → Chunks ca.client_rx e.chunks c
      → pending w.sock ≡ f ++ (g ++ (c ++ rest))
      → stream_chunk_size + 16 + noise w.sock ≤ fuel
      → (sent : List ℕ) × Framed ca.client_tx (with_nul t.file_name) sent
        × Handled sound view good fuel rounds stale ca password t agent ra_nonce w sent rest
            (fetched rounds password t.file_name contents w.disk)
  unfolding handle
  downloads-Handled t agent ra_nonce rest e w i long short is u l z hf hg hc q b =
      let s =
        rffs_handler-Saved sound view good fuel ca rounds ra_nonce t.file_name password stale.header
          stale.salt e.header e.salt u.key u.stream rest w l long (omega arith) hf hg hc
          is.header_length is.salt_length z.header_size z.salt_size u.keyed u.started u.opens is.few
          q b in
      (
        s.sent,
        s.asked,
        record {
          after = s.after;
          result = rw i (bind-next _ s.result refl);
          spoken = s.spoken;
          disk = s.disk ∙ ap (λ x. fetched rounds password t.file_name x w.disk) u.whole;
        },
      )

  pub lists-Handled :
      (t : Turn) (agent : SenderAgent) (ra_nonce rest : List ℕ) (ns : List (List ℕ))
      {bytes : List ℕ} (w : W)
      → t.intention ≡ list_files
      → length ns < 2 ^ 31
      → All IsShort ns
      → Messages ca.client_rx (le_bytes 4 (length ns) ∷ map with_nul ns) bytes
      → pending w.sock ≡ bytes ++ rest
      → stream_chunk_size + 16 + noise w.sock ≤ fuel
      → Handled sound view good fuel rounds stale ca password t agent ra_nonce w [] rest w.disk
  unfolding handle
  lists-Handled t agent ra_nonce rest ns w i n s ms q b =
      let (w1, e1, v1) = lffs_handler-Messages view good fuel ca stale.int ns rest w ms n s q b in
      record {
        after = w1;
        result = rw i (bind-next _ (ap attempted e1) refl);
        spoken = Received-Spoken view v1;
        disk = v1.same_disk;
      }

  pub deletes-Handled :
      (t : Turn) (agent : SenderAgent) (ra_nonce rest : List ℕ) (n : ℕ) {bytes : List ℕ} (w : W)
      → t.intention ≡ delete_file
      → length t.file_name + 1 ≤ pre_ext_file_name_len
      → n < 2 ^ 32
      → IsInt ca.client_rx n bytes
      → pending w.sock ≡ bytes ++ rest
      → stream_chunk_size + 16 + noise w.sock ≤ fuel
      → (sent : List ℕ) × Framed ca.client_tx (with_nul t.file_name) sent
        × Handled sound view good fuel rounds stale ca password t agent ra_nonce w sent rest w.disk
  unfolding handle
  deletes-Handled t agent ra_nonce rest n w i short lt g q b =
      let (f, framed, (w1, e1, v1)) =
        dffs_handler-Framed sound view good fuel ca stale.int n t.file_name g rest w (omega arith)
          lt q b in
      (
        f,
        framed,
        record {
          after = w1;
          result = rw i (bind-next _ (ap attempted e1) refl);
          spoken = Talked-Spoken view v1;
          disk = v1.same_disk;
        },
      )
