-- ===== src/Client/Upload/Sending.antt =====
-- What the client puts on the wire for an upload.
use mefsc.Common.{
  ℕ, zero, suc, ◌*◌, ◌≤◌, ◌<◌, ◌≡◌, refl, true, false, inl, inr, List, [], ◌∷◌, ◌++◌, arith, length,
  take, drop, length-take, length-drop, ltb, ltb→le, ltb→lt, Bool-cases, take_all, append_assoc,
}
use mefsc.Constants.{chunk_size, aead_npubbytes, secretstream_headerbytes, pwhash_saltbytes}
use mefsc.Platform.{Platform, W}
use mefsc.Platform.Laws.{View, Reliable, Sound}
use mefsc.Outcome.{Outcome, bind-next}
use mefsc.Wire.Blobs.{Wrote, Wrote-trans, Sends, Sends-then, blob}
use mefsc.Session.Frames.{wrap_and_send-Framed}
use mefsc.Transfer.{Announcement, Chunks}
use mefsc.Transfer.Rounds.{prefix_and_blob-SentRound, sent_round}
use mefsc.Client.{CommsAgent}
use mefsc.Client.Upload.{send_encrypted, encrypt_round, encrypt_chunks, init_send}
use mefsc.Client.Upload.Sealed.{plain_chunks, seal, seal_short, seal_long}

module _ ⦃p : Platform⦄ {Paired : p.sodium.Stream → p.sodium.Stream → Type 0}
    (sound : Sound p.sodium Paired) (view : View p.net.Sock) (good : Reliable p.net view)
    (ca : CommsAgent) where
  open p.sodium use {Stream, push, tag_final}

  -- What the loop sends, and that it carries these chunks.
  abbrev pub Carries : Outcome W (Unit {0}) → List (List ℕ) → W → Type 0
  Carries result cs w =
      (bytes : List ℕ) × Sends view result tt w bytes × Chunks ca.client_tx cs bytes

  send_last :
      (again : Stream → List ℕ → List ℕ → W → Outcome W (Unit {0})) (st : Stream)
      (nonce rest : List ℕ) (w : W)
      → length nonce ≡ aead_npubbytes
      → length rest < chunk_size
      → Carries (encrypt_round ca again st nonce rest true w) ((push st rest tag_final).0 ∷ []) w
  unfolding encrypt_round send_encrypted
  send_last again st nonce rest w l short =
      let c : List ℕ = (push st rest tag_final).0 in
      let s = prefix_and_blob-SentRound sound view good ca.client_tx nonce c true w l in
      (
        s.prefix_frame ++ blob c,
        rw (take_all chunk_size rest (omega arith))
            (Sends-then view _ (sent_round sound view good s) λ w'. refl),
        Chunks.last s.framed (omega (arith, sound.push_length st rest tag_final)) refl,
      )

  send_more :
      (again : Stream → List ℕ → List ℕ → W → Outcome W (Unit {0})) (st : Stream)
      (nonce rest : List ℕ) (w : W) {cs : List (List ℕ)}
      → length nonce ≡ aead_npubbytes
      → ((nonce' : List ℕ) (w' : W)
          → length nonce' ≡ aead_npubbytes
          → Carries
              (again (push st (take chunk_size rest) 0).1 nonce' (drop chunk_size rest) w')
              cs
              w')
      → Carries
          (encrypt_round ca again st nonce rest false w)
          ((push st (take chunk_size rest) 0).0 ∷ cs)
          w
  unfolding encrypt_round send_encrypted
  send_more again st nonce rest w {cs} l loop =
      let m : List ℕ = take chunk_size rest in
      let c : List ℕ = (push st m 0).0 in
      let s = prefix_and_blob-SentRound sound view good ca.client_tx nonce c false w l in
      let (bytes, (w2, e2, v2), t) = loop s.nonce' s.after s.nonce_length in
      (
        (s.prefix_frame ++ blob c) ++ bytes,
        (w2, bind-next _ s.result e2, Wrote-trans view s.wrote v2),
        Chunks.more s.framed (omega (arith, length-take chunk_size rest, sound.push_length st m 0))
            t (append_assoc s.prefix_frame (blob c) bytes),
      )

  encrypt_chunks_step :
      (rounds : ℕ) (st : Stream) (nonce rest : List ℕ)
      → encrypt_chunks ca (suc rounds) st nonce rest
        ≡ encrypt_round ca (encrypt_chunks ca rounds) st nonce rest (ltb (length rest) chunk_size)
  unfolding encrypt_chunks
  encrypt_chunks_step rounds st nonce rest = refl

  -- Over a reliable connection, with rounds for the file and a nonce of its length, the loop returns and
  -- has put all the sealed chunks of the file on the wire.
  pub encrypt_chunks-Chunks :
      (rounds : ℕ) (st : Stream) (nonce rest : List ℕ) (w : W)
      → length nonce ≡ aead_npubbytes
      → length rest < rounds * chunk_size
      → Carries
          (encrypt_chunks ca rounds st nonce rest w)
          (seal st (plain_chunks rounds chunk_size rest))
          w
  encrypt_chunks-Chunks zero st nonce rest w l h = absurd (omega arith)
  encrypt_chunks-Chunks (suc rounds) st nonce rest w l h =
      elim (Bool-cases (ltb (length rest) chunk_size)) [
        | inl short ↦
            rw (encrypt_chunks_step rounds st nonce rest, short, seal_short rounds st rest short)
              (send_last (encrypt_chunks ca rounds) st nonce rest w l
                (ltb→lt (length rest) chunk_size short))
        | inr long ↦
            let fits : length (drop chunk_size rest) < rounds * chunk_size =
              omega (arith, length-drop chunk_size rest, ltb→le (length rest) chunk_size long) in
            rw (encrypt_chunks_step rounds st nonce rest, long, seal_long rounds st rest long fits)
              (send_more (encrypt_chunks ca rounds) st nonce rest w l (λ nonce' w' l'.
                encrypt_chunks-Chunks rounds _ nonce' (drop chunk_size rest) w' l' fits))
      ]

  -- `init_send` announces the file.
  pub record Announced (nonce name header salt : List ℕ) (w : W) : Type 0 where
    pub after : W
    pub nonce' : List ℕ
    pub bytes : List ℕ
    pub result : init_send ca true nonce name header salt w ≡ Outcome.next nonce' after
    pub wrote : Wrote view w bytes after
    pub announces : Announcement ca.client_tx name header salt bytes
    pub nonce_length : length nonce' ≡ aead_npubbytes

  -- Over a reliable connection, it announces an existing file: four frames, with a name that fits in a
  -- frame, a header and a salt of their lengths, after a nonce of its length.
  pub init_send-Announced :
      (nonce name header salt : List ℕ) (w : W)
      → length nonce ≡ aead_npubbytes
      → length name ≤ chunk_size
      → length header ≡ secretstream_headerbytes
      → length salt ≡ pwhash_saltbytes
      → Announced nonce name header salt w
  unfolding init_send
  init_send-Announced nonce name header salt w l hn hh hs =
      let key = ca.client_tx in
      let s0 = wrap_and_send-Framed sound view good key nonce (1 ∷ []) w l (omega arith) in
      let s1 =
        wrap_and_send-Framed sound view good key s0.nonce' name s0.after s0.nonce_length
          (omega arith) in
      let s2 =
        wrap_and_send-Framed sound view good key s1.nonce' header s1.after s1.nonce_length
          (omega arith) in
      let s3 =
        wrap_and_send-Framed sound view good key s2.nonce' salt s2.after s2.nonce_length
          (omega arith) in
      record {
        after = s3.after;
        nonce' = s3.nonce';
        bytes = s0.bytes ++ (s1.bytes ++ (s2.bytes ++ s3.bytes));
        result = bind-next _ s0.result (bind-next _ s1.result (bind-next _ s2.result s3.result));
        wrote =
            Wrote-trans view s0.wrote
              (Wrote-trans view s1.wrote (Wrote-trans view s2.wrote s3.wrote));
        announces = record {
          exists_frame = s0.bytes;
          name_frame = s1.bytes;
          header_frame = s2.bytes;
          salt_frame = s3.bytes;
          shape = refl;
          exists_framed = s0.framed;
          name_framed = s1.framed;
          header_framed = s2.framed;
          salt_framed = s3.framed;
        };
        nonce_length = s3.nonce_length;
      }
