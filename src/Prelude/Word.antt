-- ===== src/Prelude/Word.antt =====
-- Machine words. The release profile has no overflow checks, so `+` and `*` wrap; `saturating_*`
-- stop at the ends.
use Prim.Native.Nat.{ℕ, ◌+◌, ◌-◌, ◌*◌, ◌%◌, ◌^◌, ◌<◌, ◌≤◌, min, compare, Ordering}
use mathlib.Core.Option.{Option, none, some}
use mathlib.Core.Path.{◌≡◌}
use mathlib.Core.Logic.{◌⊎◌}
use native.Mathlib.Omega.{arith}
use native.Mathlib.Nat.{mod-eq_of_lt}

abbrev pub u64_mod : ℕ
u64_mod = 2 ^ 64

abbrev pub u128_mod : ℕ
u128_mod = 2 ^ 128

abbrev pub u256_mod : ℕ
u256_mod = 2 ^ 256

abbrev pub add_u64 : ℕ → ℕ → ℕ
add_u64 a b = (a + b) % u64_mod

abbrev pub mul_u128 : ℕ → ℕ → ℕ
mul_u128 a b = (a * b) % u128_mod

abbrev pub saturating_mul_u128 : ℕ → ℕ → ℕ
saturating_mul_u128 a b = min (a * b) (u128_mod - 1)

abbrev pub add_u256 : ℕ → ℕ → ℕ
add_u256 a b = (a + b) % u256_mod

abbrev pub mul_u256 : ℕ → ℕ → ℕ
mul_u256 a b = (a * b) % u256_mod

-- `Uint::to::<u64>()`, which panics on a number that does not fit: `none` is the panic
abbrev pub to_u64 : ℕ → Option ℕ
to_u64 n = elim (compare n u64_mod) [ Ordering.lt ↦ some n | _ ↦ none ]

-- `saturating_sub` at every width
abbrev pub saturating_sub : ℕ → ℕ → ℕ
saturating_sub a b = a - b

pub add_u64-lt : (a b : ℕ) → add_u64 a b < u64_mod
add_u64-lt a b = omega arith

pub add_u64_exact : (a b : ℕ) → a + b < u64_mod → add_u64 a b ≡ a + b
add_u64_exact a b h = omega arith

pub mul_u128_exact : (a b : ℕ) → a * b < u128_mod → mul_u128 a b ≡ a * b
mul_u128_exact a b h = mod-eq_of_lt h

pub saturating_mul_u128_exact : (a b : ℕ) → a * b < u128_mod → saturating_mul_u128 a b ≡ a * b
saturating_mul_u128_exact a b h = omega arith

pub mul_u256_exact : (a b : ℕ) → a * b < u256_mod → mul_u256 a b ≡ a * b
mul_u256_exact a b h = mod-eq_of_lt h

pub to_u64-cases :
    (n : ℕ) → ((to_u64 n ≡ none) × (u64_mod ≤ n)) ⊎ ((to_u64 n ≡ some n) × (n < u64_mod))
to_u64-cases n = ground arith
