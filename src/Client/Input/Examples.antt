-- ===== src/Client/Input/Examples.antt =====
-- Digits.
use mefsc.Common.{
  ℕ, ◌-◌, ◌≤◌, ◌≡◌, refl, Option, none, some, List, [], ◌∷◌, arith, length, ltb, if◌then◌else◌,
  Bool-cases, inl, inr,
}
use mefsc.Outcome.{Outcome, hangs}
use mefsc.Client.Input.{get_stuff, Extracts, Decided, get_stuff-Decided}

-- One digit; anything else stays.
abbrev digit : List ℕ → Option ℕ × List ℕ
digit [] = (none, [])
digit (c ∷ input) = if ltb c 48 then (none, c ∷ input) else (some (c - 48), input)

takes : (input : List ℕ) → length (digit input).1 ≤ length input
takes [] = omega arith
takes (c ∷ input) = elim (Bool-cases (ltb c 48)) [
  | inl e ↦ rw e (omega arith)
  | inr e ↦ rw e (omega arith)
]

law : Extracts digit
law = record { takes = takes; fails = refl }

get_stuff-Decided_example : Decided digit law (32 ∷ 50 ∷ [])
get_stuff-Decided_example = get_stuff-Decided digit law (32 ∷ 50 ∷ [])

two : get_stuff digit 3 (32 ∷ 50 ∷ []) ≡ Outcome.next 2 []
unfolding get_stuff
two = refl

-- The end of the input.
nothing_typed : get_stuff digit 9 [] ≡ Outcome.fault hangs
unfolding get_stuff
nothing_typed = refl
