-- ===== src/Client/Input.antt =====
-- src/client/client.cpp, `get_stuff`: what the user types, until a value can be read from it.
mod Examples
use mefsc.Common.{
  ℕ, zero, suc, ◌≤◌, ◌<◌, ◌≡◌, refl, sym, ap, ◌∙◌, Option, none, some, List, [], ◌∷◌, arith, length,
  drop, length-drop, Option-cases, ◌⊎◌, inl, inr,
}
use mefsc.Outcome.{M, Outcome, hangs}

-- `std::cin >> x`: the value, if there is one, and the input that is left.
module _ {A : Type 0} (extract : List ℕ → Option A × List ℕ) where
  -- After a failure, `clear` and `ignore` of one character. A call of `>>` takes one of the fuel.
  pub get_stuff : ℕ → M (List ℕ) A
  get_stuff zero input = Outcome.fault hangs
  get_stuff (suc fuel) input = elim (extract input).0 [
    | none ↦ get_stuff fuel (drop 1 (extract input).1)
    | some a ↦ Outcome.next a (extract input).1
  ]

  -- What is documented of `>>`: it takes from the front of the input, and fails at its end.
  pub record Extracts : Type 0 where
    pub takes : (input : List ℕ) → length (extract input).1 ≤ length input
    pub fails : (extract []).0 ≡ none

  module _ (law : Extracts) where
    -- The value that can be read from an input, and what is left: the first that `>>` finds, when it is tried
    -- again behind one more character each time that it fails.
    pub data Reads : List ℕ → A → List ℕ → Type 0 where
      now : {input : List ℕ} {a : A} → (extract input).0 ≡ some a → Reads input a (extract input).1
      later :
          {input left : List ℕ} {a : A}
          → (extract input).0 ≡ none
          → Reads (drop 1 (extract input).1) a left
          → Reads input a left

    short : (xs : List ℕ) → length xs ≤ 0 → drop 1 xs ≡ []
    short [] h = refl
    short (x ∷ xs) h = absurd (omega arith)

    nothing_left : drop 1 (extract []).1 ≡ []
    nothing_left = short (extract []).1 (law.takes [])

    not_at_end : {input left : List ℕ} {a : A} → Reads input a left → ¬ (input ≡ [])
    not_at_end (now f) e = let n = law.fails in cc
    not_at_end {input} (later f r) e =
        not_at_end r (ap (λ xs. drop 1 (extract xs).1) e ∙ nothing_left)

    Reads-behind :
        {input left : List ℕ} {a : A}
        → (extract input).0 ≡ none
        → Reads input a left
        → Reads (drop 1 (extract input).1) a left
    Reads-behind e (now f) = absurd cc
    Reads-behind e (later f r) = r

    at_end : (fuel : ℕ) → get_stuff fuel [] ≡ Outcome.fault hangs
    unfolding get_stuff
    at_end zero = refl
    at_end (suc fuel) = rw (law.fails, get_stuff) (ap (get_stuff fuel) nothing_left ∙ at_end fuel)

    -- Whether a value can be read, and what comes of it.
    abbrev pub Decided : List ℕ → Type 0
    Decided input =
        ((a : A) × (left : List ℕ) × Reads input a left
          × ((fuel : ℕ) → length input < fuel → get_stuff fuel input ≡ Outcome.next a left))
        ⊎ (((a : A) (left : List ℕ) → ¬ Reads input a left)
            × ((fuel : ℕ) → get_stuff fuel input ≡ Outcome.fault hangs))

    failed :
        (input : List ℕ)
        → (extract input).0 ≡ none
        → (fuel : ℕ) → get_stuff (suc fuel) input ≡ get_stuff fuel (drop 1 (extract input).1)
    unfolding get_stuff
    failed input e fuel = rw (e, get_stuff) refl

    read :
        (input : List ℕ) (a : A)
        → (extract input).0 ≡ some a
        → (fuel : ℕ) → length input < fuel
        → get_stuff fuel input ≡ Outcome.next a (extract input).1
    unfolding get_stuff
    read input a e zero h = absurd (omega arith)
    read input a e (suc fuel) h = rw (e, get_stuff) refl

    -- After a failure, what comes of the input with one character less.
    retried :
        (input : List ℕ)
        → (extract input).0 ≡ none
        → length (drop 1 (extract input).1) < length input
        → Decided (drop 1 (extract input).1)
        → Decided input
    unfolding get_stuff
    retried input e h (inl (a, left, reads, returns)) = inl (a, left, later e reads, after)
      where
        after : (fuel : ℕ) → length input < fuel → get_stuff fuel input ≡ Outcome.next a left
        after zero k = absurd (omega arith)
        after (suc fuel) k = failed input e fuel ∙ returns fuel (omega arith)
    retried input e h (inr (nothing, loops)) =
        inr (λ a left r. nothing a left (Reads-behind e r), after)
      where
        after : (fuel : ℕ) → get_stuff fuel input ≡ Outcome.fault hangs
        after zero = refl
        after (suc fuel) = failed input e fuel ∙ loops fuel

    decide : (n : ℕ) (input : List ℕ) → length input ≤ n → Decided input
    decide n [] h = inr (λ a left r. not_at_end r refl, at_end)
    decide zero (c ∷ input) h = absurd (omega arith)
    decide (suc n) (c ∷ input) h = elim (Option-cases (extract (c ∷ input)).0) [
      | inl e ↦
          let l = length-drop 1 (extract (c ∷ input)).1 in
          let t = law.takes (c ∷ input) in
          retried (c ∷ input) e (omega (arith, l, t))
            (decide n (drop 1 (extract (c ∷ input)).1) (omega (arith, h, l, t)))
      | inr (a, e) ↦ inl (a, (extract (c ∷ input)).1, now e, read (c ∷ input) a e)
    ]

    pub get_stuff-Decided : (input : List ℕ) → Decided input
    get_stuff-Decided input = decide (length input) input (omega arith)
