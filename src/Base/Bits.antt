-- ===== src/Base/Bits.antt =====
-- Laws of the native `bit_and` at variables, from its recursion on binary digits.
use Prim.Native.Nat.{ℕ, zero, suc, ◌+◌, ◌*◌, ◌/◌, ◌%◌, ◌≤◌, min, bit_and, digits, bit_and-bitwise}
use mathlib.Core.Path.{◌≡◌, refl, ◌∙◌}
use mathlib.Core.Logic.{◌⊎◌, inl, inr}
use native.Mathlib.Omega.{arith}

abbrev and_run : ℕ → ℕ → ℕ → ℕ
and_run = digits (λ b. zero) min

-- One more round changes nothing once the rounds suffice.
and_run-suc : (n a b : ℕ) → a ≤ n → and_run (suc n) a b ≡ and_run n a b
and_run-suc zero zero b h = refl
and_run-suc (suc n) zero b h = refl
and_run-suc (suc n) (suc a) b h = omega (arith, and_run-suc n (suc a / 2) (b / 2) (omega arith))
and_run-suc zero (suc a) b h = absurd (omega arith)

le_cases : (a n : ℕ) → a ≤ suc n → (a ≤ n) ⊎ (a ≡ suc n)
le_cases a n h = ground arith

and_run_enough : (n a b : ℕ) → a ≤ n → and_run n a b ≡ bit_and a b
and_run_enough zero zero b h = omega (arith, bit_and-bitwise 0 b)
and_run_enough zero (suc a) b h = absurd (omega arith)
and_run_enough (suc n) a b h = elim (le_cases a n h) [
  | inl less ↦ and_run-suc n a b less ∙ and_run_enough n a b less
  | inr e ↦ rw e (omega (arith, bit_and-bitwise (suc n) b))
]

-- The lowest digit of `bit_and`.
pub bit_and_low : (a b : ℕ) → bit_and a b ≡ 2 * bit_and (a / 2) (b / 2) + min (a % 2) (b % 2)
bit_and_low zero b = omega (arith, bit_and-bitwise 0 b, bit_and-bitwise 0 (b / 2))
bit_and_low (suc a) b =
    omega (arith, bit_and-bitwise (suc a) b, and_run_enough a (suc a / 2) (b / 2) (omega arith))

bit_and-le_run : (n a b : ℕ) → a ≤ n → bit_and a b ≤ b
bit_and-le_run n zero b h = omega (arith, bit_and-bitwise 0 b)
bit_and-le_run zero (suc a) b h = absurd (omega arith)
bit_and-le_run (suc n) (suc a) b h =
    omega (arith, bit_and_low (suc a) b, bit_and-le_run n (suc a / 2) (b / 2) (omega arith))

-- A masked number is within the mask.
pub bit_and-le : (a b : ℕ) → bit_and a b ≤ b
bit_and-le a b = bit_and-le_run a a b (omega arith)

-- If `n` is a power of two by the test `((n - 1) & n) == 0`, so is its double.
pub bit_and_double : (m : ℕ) → bit_and m (m + 1) ≡ 0 → bit_and (2 * m + 1) (2 * m + 2) ≡ 0
bit_and_double m h =
    let lo : (2 * m + 1) / 2 ≡ m = omega arith in
    let hi : (2 * m + 2) / 2 ≡ m + 1 = omega arith in
    let step = bit_and_low (2 * m + 1) (2 * m + 2) in omega (arith, rw (lo, hi) at step)
