-- ===== src/Transfer/Rounds.antt =====
-- One round of a sending loop: the sealed prefix, then the chunk as a blob. The loops of client and
-- server make the same calls, `prefix_and_blob`.
use mefsc.Common.{
  ℕ, ◌≡◌, refl, Bool, List, ◌++◌, arith, le_bytes, length, length-le_bytes, if◌then◌else◌,
}
use mefsc.Constants.{end_chunk, meat_chunk, aead_npubbytes}
use mefsc.Platform.{Platform, W}
use mefsc.Platform.Laws.{View, Reliable, Sound}
use mefsc.Outcome.{M, Outcome, pure, ◌>>=◌}
use mefsc.Wire.{send_raw_blob}
use mefsc.Wire.Blobs.{Wrote, Sends, Sends-bind, Sends-then, blob, send_raw_blob-Sends}
use mefsc.Session.{wrap_and_send}
use mefsc.Session.Frames.{Framed, wrap_and_send-Framed, sent_frame}

abbrev pub prefix_of : Bool → ℕ
prefix_of eof = if eof then end_chunk else meat_chunk

abbrev pub prefix_and_blob : ⦃p : Platform⦄ → List ℕ → List ℕ → List ℕ → Bool → M W (List ℕ)
prefix_and_blob key nonce c eof = do
  nonce' ← wrap_and_send key nonce (le_bytes 4 (prefix_of eof))
  status ← send_raw_blob c
  pure nonce'

module _ ⦃p : Platform⦄ {Paired : p.sodium.Stream → p.sodium.Stream → Type 0}
    (sound : Sound p.sodium Paired) (view : View p.net.Sock) (good : Reliable p.net view) where
  pub record SentRound (key nonce c : List ℕ) (eof : Bool) (w : W) : Type 0 where
    pub after : W
    pub nonce' : List ℕ
    pub prefix_frame : List ℕ
    pub result : prefix_and_blob key nonce c eof w ≡ Outcome.next nonce' after
    pub wrote : Wrote view w (prefix_frame ++ blob c) after
    pub framed : Framed key (le_bytes 4 (prefix_of eof)) prefix_frame
    pub nonce_length : length nonce' ≡ aead_npubbytes

  pub prefix_and_blob-SentRound :
      (key nonce c : List ℕ) (eof : Bool) (w : W)
      → length nonce ≡ aead_npubbytes
      → SentRound key nonce c eof w
  prefix_and_blob-SentRound key nonce c eof w l =
      let s =
        wrap_and_send-Framed sound view good key nonce (le_bytes 4 (prefix_of eof)) w l
          (omega (arith, length-le_bytes 4 (prefix_of eof))) in
      let (w2, e2, v2) =
        Sends-bind view _ (sent_frame sound view good s)
          λ w1 v1. Sends-then view _ (send_raw_blob-Sends view good c w1) λ w2. refl in
      record {
        after = w2;
        nonce' = s.nonce';
        prefix_frame = s.bytes;
        result = e2;
        wrote = v2;
        framed = s.framed;
        nonce_length = s.nonce_length;
      }

  pub sent_round :
      {key nonce c : List ℕ} {eof : Bool} {w : W} (s : SentRound key nonce c eof w)
      → Sends view (prefix_and_blob key nonce c eof w) s.nonce' w (s.prefix_frame ++ blob c)
  sent_round s = (s.after, s.result, s.wrote)
