-- ===== src/Common/Bytes.antt =====
-- Bytes are numbers below 256. An integer in memory is its little-endian bytes, as `memcpy` and
-- `send` see it on the little-endian machines that the program is built for.
use Prim.Native.Nat.{ℕ, zero, suc, ◌+◌, ◌*◌, ◌/◌, ◌%◌, ◌^◌, ◌<◌}
use mathlib.Core.Path.{◌≡◌, refl, ap}
use mathlib.Core.List.{List, [], ◌∷◌}
use native.Mathlib.Nat.{pow-suc}
use native.Mathlib.Omega.{arith}
use mefsc.Common.Lists.{length}

unfoldable pub le_bytes : ℕ → ℕ → List ℕ
le_bytes zero v = []
le_bytes (suc w) v = v % 256 ∷ le_bytes w (v / 256)

unfoldable pub of_le : List ℕ → ℕ
of_le [] = 0
of_le (b ∷ bs) = b + 256 * of_le bs

pub length-le_bytes : (w v : ℕ) → length (le_bytes w v) ≡ w
unfolding le_bytes
length-le_bytes zero v = refl
length-le_bytes (suc w) v = ap suc (length-le_bytes w (v / 256))

pub of_le-le_bytes : (w v : ℕ) → v < 256 ^ w → of_le (le_bytes w v) ≡ v
unfolding le_bytes of_le
of_le-le_bytes zero v h = omega arith
of_le-le_bytes (suc w) v h =
    omega (arith, of_le-le_bytes w (v / 256) (omega (arith, pow-suc 256 w)))

-- Eight bytes hold an `unsigned long long`, four an `int`.
pub of_le-le_bytes_u64 : (v : ℕ) → v < 2 ^ 64 → of_le (le_bytes 8 v) ≡ v
of_le-le_bytes_u64 v h = of_le-le_bytes 8 v h

pub of_le-le_bytes_int : (v : ℕ) → v < 2 ^ 32 → of_le (le_bytes 4 v) ≡ v
of_le-le_bytes_int v h = of_le-le_bytes 4 v h
