-- ===== src/Client/Program/Replied.antt =====
-- A turn of the client, with the reply that it gets.
use mefsc.Common.{
  ℕ, ◌+◌, ◌≤◌, ◌≡◌, refl, sym, ap, ◌∙◌, subst, List, [], ◌++◌, arith, length, append_assoc,
  append-nil,
}
use mefsc.Constants.{stream_chunk_size, aead_npubbytes}
use mefsc.Platform.{Platform, W}
use mefsc.Platform.Laws.{View, Reliable, Sound}
use mefsc.Store.{upload, download, listing, delete, Reply, nothing, file, names, status}
use mefsc.Store.Wire.{
  IsInt, Asks, asks_upload, asks_download, asks_listing, asks_delete, Carries, carries_nothing,
  carries_file, carries_names, carries_status,
}
use mefsc.Client.{CommsAgent}
use mefsc.Client.Upload.Whole.{encrypt_and_send_to_server-Uploaded}
use mefsc.Client.Program.{Turn, StaleClient, is_intention}
use mefsc.Client.Program.Requests.{
  Suits, suits_upload, suits_download, suits_listing, suits_delete, IsClient, fetched,
}
use mefsc.Client.Program.Turns.{Begun, turn-Begun, Handled, Turned, Handled-Turned}
use mefsc.Client.Program.Handlers.{
  uploads-Handled, downloads-Handled, lists-Handled, deletes-Handled, entry_of, entry_of-IsEntry,
  entry_of-Unseals,
}

module _ ⦃p : Platform⦄ {Paired : p.sodium.Stream → p.sodium.Stream → Type 0}
    (sound : Sound p.sodium Paired) (view : View p.net.Sock) (good : Reliable p.net view)
    (fuel rounds : ℕ) (stale : StaleClient) (ca : CommsAgent) (password : List ℕ) where
  open view use {pending, noise}

  -- A turn's intention as it is sent.
  intended :
      {t : Turn} {nonce : List ℕ} {w : W} {n : ℕ}
      (b : Begun sound view good fuel rounds stale ca password t nonce w)
      → t.intention ≡ n
      → IsInt ca.client_tx n b.intent
  intended b i = subst (λ x. IsInt ca.client_tx x b.intent) i b.intends

  -- Over a reliable connection, for a turn that suits the client's disk and the reply that arrives: the turn
  -- goes on, has sent the notice and a fair request in good order that it stands for, and leaves the disk
  -- as said.
  pub turn-Turned :
      (d : p.storage.Disk) (t : Turn) (r : Reply) {d' : p.storage.Disk} {bytes : List ℕ}
      (nonce rest : List ℕ) (w : W)
      → Suits rounds password d t r d'
      → Carries ca.client_rx r bytes
      → w.disk ≡ d
      → length nonce ≡ aead_npubbytes
      → IsClient stale
      → pending w.sock ≡ bytes ++ rest
      → stream_chunk_size + 16 + noise w.sock ≤ fuel
      → Turned sound view good fuel rounds stale ca password d t nonce w rest d'
  unfolding is_intention
  turn-Turned d t nothing nonce rest w (suits_upload {contents = contents} i o h n nul plain)
        carries_nothing k l z q f =
      let b =
        turn-Begun sound view good fuel rounds stale ca password t nonce w l (rw i refl)
          (rw i refl) in
      let same : b.after.disk ≡ d = b.talked.same_disk ∙ k in
      let u =
        encrypt_and_send_to_server-Uploaded sound view good ca rounds b.agent t.file_name password
          contents b.after (ap (p.storage.open_read t.file_name) same ∙ o) b.agent_length
          (omega arith) h in
      Handled-Turned sound view good fuel rounds stale ca password
        (upload t.file_name
          (entry_of sound view good fuel rounds stale ca password b.agent contents b.after))
        b
        (subst
          (λ x.
            Handled sound view good fuel rounds stale ca password t b.agent b.ra_nonce b.after
              (u.announcement ++ u.chunks) rest x)
          same
          (uploads-Handled sound view good fuel rounds stale ca password t b.agent b.ra_nonce
            contents rest b.after i u (b.talked.remaining ∙ q)))
        (asks_upload (intended b i) u.announces u.carries refl)
        (
          i,
          refl,
          λ key pw. (
            contents,
            o,
            entry_of-Unseals sound view good fuel rounds stale ca password b.agent contents key
                b.after h pw,
          ),
        )
        (
          n,
          nul,
          plain,
          entry_of-IsEntry sound view good fuel rounds stale ca password b.agent contents b.after h,
        )
  turn-Turned d t (file e) nonce rest w
        (suits_download {contents = contents} i long short plain is u)
        (carries_file {f = hf} {g = hg} {c} x y cs shape) k l z q f =
      let b =
        turn-Begun sound view good fuel rounds stale ca password t nonce w l (rw i refl)
          (rw i refl) in
      let (sent, framed, h) =
        downloads-Handled sound view good fuel rounds stale ca password t b.agent b.ra_nonce rest e
          b.after i long short is u b.ra_length z x y cs
          (b.talked.remaining
            ∙ q
            ∙ ap (λ v. v ++ rest) shape
            ∙ append_assoc hf (hg ++ c) rest
            ∙ ap (◌++◌ hf) (append_assoc hg c rest))
          (omega (arith, b.talked.quieter)) in
      Handled-Turned sound view good fuel rounds stale ca password (download t.file_name) b
        (subst
          (λ x.
            Handled sound view good fuel rounds stale ca password t b.agent b.ra_nonce b.after sent
              rest (fetched rounds password t.file_name contents x))
          (b.talked.same_disk ∙ k) h)
        (asks_download (intended b i) framed refl) (i, refl) (short, plain)
  turn-Turned d t (names ns) nonce rest w (suits_listing i n s) (carries_names ms) k l z q f =
      let b =
        turn-Begun sound view good fuel rounds stale ca password t nonce w l (rw i refl)
          (rw i refl) in
      let h =
        lists-Handled sound view good fuel rounds stale ca password t b.agent b.ra_nonce rest ns
          b.after i n s ms (b.talked.remaining ∙ q) (omega (arith, b.talked.quieter)) in
      Handled-Turned sound view good fuel rounds stale ca password listing b
        (subst
          (λ x.
            Handled sound view good fuel rounds stale ca password t b.agent b.ra_nonce b.after []
              rest x)
          (b.talked.same_disk ∙ k) h)
        (subst (λ x. Asks ca.client_tx listing x) (sym (append-nil b.intent))
          (asks_listing (intended b i)))
        i tt
  turn-Turned d t (status n) nonce rest w (suits_delete i short plain lt) (carries_status g) k l z q
        f =
      let b =
        turn-Begun sound view good fuel rounds stale ca password t nonce w l (rw i refl)
          (rw i refl) in
      let (sent, framed, h) =
        deletes-Handled sound view good fuel rounds stale ca password t b.agent b.ra_nonce rest n
          b.after i short lt g (b.talked.remaining ∙ q) (omega (arith, b.talked.quieter)) in
      Handled-Turned sound view good fuel rounds stale ca password (delete t.file_name) b
        (subst
          (λ x.
            Handled sound view good fuel rounds stale ca password t b.agent b.ra_nonce b.after sent
              rest x)
          (b.talked.same_disk ∙ k) h)
        (asks_delete (intended b i) framed refl) (i, refl) (short, plain)
