-- ===== src/Outcome.antt =====
-- How a C++ function runs here: from a state it goes on with a value, returns early with an `int`, or
-- ends in a fault that the program does not handle.
use mefsc.Common.{Option, none, some, ℕ, ◌≡◌, Bool, if◌then◌else◌}

pub data Fault : Type 0 where
  hangs : Fault  -- the call has not returned within the fuel
  throws : Fault  -- an exception that nothing catches: `std::terminate`
  undefined : Fault  -- undefined behaviour: indeterminate values, an access out of bounds

pub data Outcome {ℓ} (S A : Type ℓ) : Type ℓ where
  next : A → S → Outcome S A
  leave : ℕ → S → Outcome S A
  fault : Fault → Outcome S A

-- A piece of a function's body. The monad's state is a parameter.
abbrev pub M : Type 0 → Type 0 → Type 0
M S A = S → Outcome S A

infixl 5 ◌>>=◌ ◌>>◌
abbrev pub bind : {S A B : Type 0} → Outcome S A → (A → M S B) → Outcome S B
bind (next a s) f = f a s
bind (leave c s) f = leave c s
bind (fault e) f = fault e

abbrev pub ◌>>=◌ : {S A B : Type 0} → M S A → (A → M S B) → M S B
◌>>=◌ m f s = bind (m s) f

abbrev pub ◌>>◌ : {S B : Type 0} → M S (Unit {0}) → M S B → M S B
m >> k = m >>= λ _. k

abbrev pub pure : {S A : Type 0} → A → M S A
pure a s = next a s

-- `return c;` in the middle of a function.
abbrev pub return : {S A : Type 0} → ℕ → M S A
return c s = leave c s

abbrev pub fail : {S A : Type 0} → Fault → M S A
fail e s = fault e

-- `if (test) return c;`
abbrev pub return_if : {S : Type 0} → Bool → ℕ → M S (Unit {0})
return_if b c s = if b then leave c s else next tt s

-- A call whose early return the caller looks at.
abbrev pub attempted : {S A : Type 0} → Outcome S A → Outcome S (Option A)
attempted (next a s) = next (some a) s
attempted (leave c s) = next none s
attempted (fault e) = fault e

abbrev pub attempt : {S A : Type 0} → M S A → M S (Option A)
attempt m s = attempted (m s)

-- Part of a larger state, the rest of which stays.
abbrev pub beside : {S T A : Type 0} → Outcome S A → T → Outcome (S × T) A
beside (next a s) t = next a (s, t)
beside (leave c s) t = leave c (s, t)
beside (fault e) t = fault e

abbrev pub on_first : {S T A : Type 0} → M S A → M (S × T) A
on_first m (s, t) = beside (m s) t

abbrev pub along : {S T A : Type 0} → S → Outcome T A → Outcome (S × T) A
along s (next a t) = next a (s, t)
along s (leave c t) = leave c (s, t)
along s (fault e) = fault e

abbrev pub on_second : {S T A : Type 0} → M T A → M (S × T) A
on_second m (s, t) = along s (m t)

-- `if (the call failed) return c;`
abbrev pub or_return : {S A : Type 0} → Option A → ℕ → M S A
or_return none c s = leave c s
or_return (some a) c s = next a s

abbrev pub returned : {S : Type 0} → Outcome S ℕ → Outcome S ℕ
returned (next c s) = next c s
returned (leave c s) = next c s
returned (fault e) = fault e

-- A whole function: an early return is the value of the call.
abbrev pub call : {S : Type 0} → M S ℕ → M S ℕ
call m s = returned (m s)

-- `if (f()) return c;`
abbrev pub with_code : {S A : Type 0} → ℕ → Outcome S A → Outcome S A
with_code c (next a s) = next a s
with_code c (leave d s) = leave c s
with_code c (fault e) = fault e

abbrev pub on_error : {S A : Type 0} → M S A → ℕ → M S A
on_error m c s = with_code c (m s)

-- A step that goes on, and what comes of the rest.
pub bind-next :
    {S A B : Type 0} {m : Outcome S A} (f : A → M S B) {a : A} {s : S} {r : Outcome S B}
    → m ≡ next a s
    → f a s ≡ r
    → bind m f ≡ r
bind-next f e g = rw e g
