-- ===== src/Client/Upload/Sealed.antt =====
-- The encrypted chunks of a file, and what can be had back from them.
use mefsc.Common.{
  ℕ, zero, suc, ◌+◌, ◌*◌, ◌≤◌, ◌<◌, ◌≡◌, refl, ap, ◌∙◌, true, false, inl, inr, List, [], ◌∷◌, arith,
  length, take, drop, concat, append-nil, take-append-drop, length-take, length-drop, ltb, ltb→lt,
  ltb→le, Bool-cases,
}
use mefsc.Constants.{chunk_size, secretstream_abytes}
use mefsc.Platform.{Platform}
use mefsc.Platform.Laws.{Sound}
use mefsc.Transfer.{IsCut, Opens}

-- The chunks of plain text that the loop reads, with at most `rounds` rounds.
unfoldable pub plain_chunks : ℕ → ℕ → List ℕ → List (List ℕ)
plain_chunks zero size rest = []
plain_chunks (suc rounds) size rest =
    let tail = plain_chunks rounds size (drop size rest) in
    elim (ltb (length rest) size) [ true ↦ rest ∷ [] | false ↦ take size rest ∷ tail ]

-- With rounds for its length, they make up the text.
pub concat-plain_chunks :
    (rounds size : ℕ) (rest : List ℕ)
    → length rest < rounds * size
    → concat (plain_chunks rounds size rest) ≡ rest
unfolding plain_chunks
concat-plain_chunks zero size rest h = absurd (omega arith)
concat-plain_chunks (suc rounds) size rest h = elim (Bool-cases (ltb (length rest) size)) [
  | inl short ↦ rw (short, plain_chunks) (append-nil rest)
  | inr long ↦
      rw (long, plain_chunks)
        (rw
          (concat-plain_chunks rounds size (drop size rest)
            (grind (arith, length-drop size rest, ltb→le (length rest) size long)))
          (take-append-drop size rest))
]

pub plain_chunks-IsCut :
    (rounds size : ℕ) (rest : List ℕ)
    → length rest < rounds * size
    → IsCut size (plain_chunks rounds size rest)
unfolding plain_chunks
plain_chunks-IsCut zero size rest h = absurd (omega arith)
plain_chunks-IsCut (suc rounds) size rest h = elim (Bool-cases (ltb (length rest) size)) [
  | inl short ↦ rw (short, plain_chunks) (IsCut.last (ltb→lt (length rest) size short))
  | inr long ↦
      rw (long, plain_chunks)
        (IsCut.more (omega (arith, length-take size rest, ltb→le (length rest) size long)) (
          plain_chunks-IsCut rounds size (drop size rest)
            (grind (arith, length-drop size rest, ltb→le (length rest) size long))))
]

pub length-plain_chunks :
    (rounds size : ℕ) (rest : List ℕ) → length (plain_chunks rounds size rest) ≤ rounds
unfolding plain_chunks
length-plain_chunks zero size rest = omega arith
length-plain_chunks (suc rounds) size rest =
    let tail = length-plain_chunks rounds size (drop size rest) in
    elim (Bool-cases (ltb (length rest) size)) [
      | inl short ↦ rw (short, plain_chunks) (omega arith)
      | inr long ↦ rw (long, plain_chunks) (omega (arith, tail))
    ]

plain_chunks_long :
    (rounds size : ℕ) (rest : List ℕ)
    → ltb (length rest) size ≡ false
    → plain_chunks (suc rounds) size rest
      ≡ take size rest ∷ plain_chunks rounds size (drop size rest)
unfolding plain_chunks
plain_chunks_long rounds size rest h = rw (h, plain_chunks) refl

module _ ⦃p : Platform⦄ where
  open p.sodium use {Stream, push, tag_final}

  -- What the loop sends for them.
  unfoldable pub seal : Stream → List (List ℕ) → List (List ℕ)
  seal st [] = []
  seal st (m ∷ []) = (push st m tag_final).0 ∷ []
  seal st (m ∷ n ∷ ms) = (push st m 0).0 ∷ seal (push st m 0).1 (n ∷ ms)

  pub length-seal : (st : Stream) (ms : List (List ℕ)) → length (seal st ms) ≡ length ms
  unfolding seal
  length-seal st [] = refl
  length-seal st (m ∷ []) = refl
  length-seal st (m ∷ n ∷ ms) = ap suc (length-seal (push st m 0).1 (n ∷ ms))

  module _ {Paired : Stream → Stream → Type 0} (sound : Sound p.sodium Paired) where
    -- The other end of the stream opens them again.
    pub seal-Opens :
        {size : ℕ} (st st' : Stream) (ms : List (List ℕ))
        → IsCut size ms
        → Paired st st'
        → Opens st' (seal st ms) ms
    unfolding seal
    seal-Opens st st' [] c h = elim c [ ]
    seal-Opens st st' (m ∷ []) c h =
        let (st'', e, h') = sound.pulls st st' m tag_final h in
        Opens.last e (sound.push_length st m tag_final)
    seal-Opens st st' (m ∷ n ∷ ms) (IsCut.more k c) h =
        let (st'', e, h') = sound.pulls st st' m 0 h in
        Opens.more e (sound.push_length st m 0) (seal-Opens (push st m 0).1 st'' (n ∷ ms) c h')

    -- Each is longer than its plain text by the overhead, so they are cut at the larger size.
    pub seal-IsCut :
        (size : ℕ) (st : Stream) (ms : List (List ℕ))
        → IsCut size ms
        → IsCut (size + secretstream_abytes) (seal st ms)
    unfolding seal
    seal-IsCut size st [] c = elim c [ ]
    seal-IsCut size st (m ∷ []) (IsCut.last h) =
        IsCut.last (omega (arith, sound.push_length st m tag_final))
    seal-IsCut size st (m ∷ []) (IsCut.more h c) = elim c [ ]
    seal-IsCut size st (m ∷ n ∷ ms) (IsCut.more h c) =
        IsCut.more (omega (arith, sound.push_length st m 0))
          (seal-IsCut size (push st m 0).1 (n ∷ ms) c)

  pub seal_more :
      {size : ℕ} (st : Stream) (m : List ℕ) (ms : List (List ℕ))
      → IsCut size ms
      → seal st (m ∷ ms) ≡ (push st m 0).0 ∷ seal (push st m 0).1 ms
  unfolding seal
  seal_more st m [] c = elim c [ ]
  seal_more st m (n ∷ ms) c = refl

  -- The sealed chunks of a text, by the loop's test.
  pub seal_short :
      (rounds : ℕ) (st : Stream) (rest : List ℕ)
      → ltb (length rest) chunk_size ≡ true
      → seal st (plain_chunks (suc rounds) chunk_size rest) ≡ (push st rest tag_final).0 ∷ []
  unfolding plain_chunks seal
  seal_short rounds st rest h = rw (h, plain_chunks) refl

  pub seal_long :
      (rounds : ℕ) (st : Stream) (rest : List ℕ)
      → ltb (length rest) chunk_size ≡ false
      → length (drop chunk_size rest) < rounds * chunk_size
      → seal st (plain_chunks (suc rounds) chunk_size rest)
        ≡ (push st (take chunk_size rest) 0).0
          ∷ seal
              (push st (take chunk_size rest) 0).1
              (plain_chunks rounds chunk_size (drop chunk_size rest))
  seal_long rounds st rest h k =
      ap (seal st) (plain_chunks_long rounds chunk_size rest h)
      ∙ seal_more st (take chunk_size rest) _ (plain_chunks-IsCut rounds chunk_size _ k)
