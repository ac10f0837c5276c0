-- ===== src/CText.antt =====
-- C strings and fixed buffers. Text is its bytes.
use Prim.Native.Char.{code}
use Prim.Native.String.{String}
use mefsc.Common.{
  ℕ, ◌≤◌, ◌≡◌, ◌≢◌, refl, Option, none, some, List, [], ◌∷◌, ◌++◌, length, drop, drop_all,
  append-nil, All, arith, ◌==◌, if◌then◌else◌, Bool, true, false, ◌&&◌, Bool-cases, inl, inr,
  ==_iff, ==_refl, subst, sym,
}
use mathlib.Core.Option

-- The text up to the first NUL; `none` where the buffer has none, and reading goes on past its end.
unfoldable pub c_str : List ℕ → Option (List ℕ)
c_str [] = none
c_str (b ∷ bs) = if b == 0 then some [] else Option.map (◌∷◌ b) (c_str bs)

-- A buffer after bytes are copied to its front.
abbrev pub overwrite : List ℕ → List ℕ → List ℕ
overwrite bytes buffer = bytes ++ drop (length bytes) buffer

-- Bytes that fill the whole buffer.
pub overwrite_all :
    (bytes buffer : List ℕ) → length buffer ≤ length bytes → overwrite bytes buffer ≡ bytes
overwrite_all bytes buffer h = rw (drop_all (length bytes) buffer h) (append-nil bytes)

-- A text is read back from any buffer that it stands in front of with its NUL.
pub c_str-append :
    (text rest : List ℕ) → All (λ b. b ≢ 0) text → c_str (text ++ (0 ∷ rest)) ≡ some text
unfolding c_str
c_str-append [] rest h = refl
c_str-append (b ∷ bs) rest h = rw (c_str-append bs rest h.1) (ground (arith, h.0))

-- "MEF_S/", "/" and ".enc".
abbrev pub base_dir : List ℕ
base_dir = 77 ∷ 69 ∷ 70 ∷ 95 ∷ 83 ∷ 47 ∷ []

abbrev pub slash : List ℕ
slash = 47 ∷ []

abbrev pub ext : List ℕ
ext = 46 ∷ 101 ∷ 110 ∷ 99 ∷ []

-- The bytes of a text.
abbrev pub codes : String → List ℕ
codes String.[] = []
codes (String.◌∷◌ c s) = code c ∷ codes s

-- "SELECT hashed_pswd FROM users WHERE username = ?"
abbrev pub query : List ℕ
query = codes "SELECT hashed_pswd FROM users WHERE username = ?"

-- Are two texts the same?
abbrev pub same_text : List ℕ → List ℕ → Bool
same_text [] [] = true
same_text [] (b ∷ bs) = false
same_text (a ∷ xs) [] = false
same_text (a ∷ xs) (b ∷ ys) = (a == b) && same_text xs ys

pub same_text-eq : (xs ys : List ℕ) → same_text xs ys ≡ true → xs ≡ ys
same_text-eq [] [] h = refl
same_text-eq [] (b ∷ bs) h = absurd (ground arith)
same_text-eq (a ∷ xs) [] h = absurd (ground arith)
same_text-eq (a ∷ xs) (b ∷ ys) h = elim (Bool-cases (a == b)) [
  | inl e ↦
      let heads : a ≡ b = (==_iff a b).0 e in
      let tails : xs ≡ ys = same_text-eq xs ys (ground arith) in cc
  | inr e ↦ absurd (ground arith)
]

pub same_text-same : (xs : List ℕ) → same_text xs xs ≡ true
same_text-same [] = refl
same_text-same (b ∷ bs) = rw (==_refl b, same_text-same bs) refl

pub same_text-ne : (xs ys : List ℕ) → same_text xs ys ≡ false → xs ≢ ys
same_text-ne xs ys h e =
    let h' : same_text xs xs ≡ false = subst (λ t. same_text xs t ≡ false) (sym e) h in
    let k : same_text xs xs ≡ true = same_text-same xs in cc

pub ne-same_text : (xs ys : List ℕ) → xs ≢ ys → same_text xs ys ≡ false
ne-same_text xs ys h = elim (Bool-cases (same_text xs ys)) [
  | inl e ↦ absurd (h (same_text-eq xs ys e))
  | inr e ↦ e
]
