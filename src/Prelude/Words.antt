-- ===== src/Prelude/Words.antt =====
-- Unsigned machine words as native numbers, wrapping as a release build does.
use Prim.Native.Nat.{ℕ, ◌+◌, ◌-◌, ◌*◌, ◌%◌, ◌^◌, ◌≤◌, ◌<◌}
use mathlib.Core.Path.{◌≡◌, refl}
use mathlib.Core.List.{List, [], ◌∷◌}
use native.Mathlib.Omega.{arith}
use blindjoin.Prelude.Tests.{ltb, if◌then◌else◌}
use blindjoin.Prelude.Lists.{sum}

abbrev pub u32_max : ℕ
u32_max = 2 ^ 32 - 1

abbrev pub u64_max : ℕ
u64_max = 2 ^ 64 - 1

unfoldable pub add32 : ℕ → ℕ → ℕ
add32 a b = (a + b) % 2 ^ 32

unfoldable pub add64 : ℕ → ℕ → ℕ
add64 a b = (a + b) % 2 ^ 64

unfoldable pub sub64 : ℕ → ℕ → ℕ
sub64 a b = (a + 2 ^ 64 - b) % 2 ^ 64

unfoldable pub mul64 : ℕ → ℕ → ℕ
mul64 a b = (a * b) % 2 ^ 64

-- `saturating_add` and `saturating_mul` of u64
unfoldable pub sat_add64 : ℕ → ℕ → ℕ
sat_add64 a b = if ltb u64_max (a + b) then u64_max else a + b

unfoldable pub sat_mul64 : ℕ → ℕ → ℕ
sat_mul64 a b = if ltb u64_max (a * b) then u64_max else a * b

-- `iter().sum::<u64>()`
unfoldable pub sum64 : List ℕ → ℕ
sum64 [] = 0
sum64 (x ∷ xs) = add64 x (sum64 xs)

pub add32-eq : (a b : ℕ) → a + b < 2 ^ 32 → add32 a b ≡ a + b
unfolding add32
add32-eq a b h = omega arith

pub add64-eq : (a b : ℕ) → a + b < 2 ^ 64 → add64 a b ≡ a + b
unfolding add64
add64-eq a b h = omega arith

pub sub64-eq : (a b : ℕ) → b ≤ a → a < 2 ^ 64 → sub64 a b ≡ a - b
unfolding sub64
sub64-eq a b h k = omega arith

pub mul64-eq : (a b : ℕ) → a * b < 2 ^ 64 → mul64 a b ≡ a * b
unfolding mul64
mul64-eq a b h = omega arith

pub sum64-eq : (xs : List ℕ) → sum xs < 2 ^ 64 → sum64 xs ≡ sum xs
unfolding sum64 add64
sum64-eq [] h = refl
sum64-eq (x ∷ xs) h = omega (arith, sum64-eq xs (omega arith))

-- Wrapping only loses value.
pub sum64-le : (xs : List ℕ) → sum64 xs ≤ sum xs
unfolding sum64 add64
sum64-le [] = omega arith
sum64-le (x ∷ xs) = omega (arith, sum64-le xs)
