-- ===== src/Base/Bits.antt =====
-- Masks of low ones are remainders: the laws of `bit_and` that field extraction needs.
use Prim.Native.Nat.{ℕ, zero, suc, ◌+◌, ◌*◌, ◌/◌, ◌%◌, ◌≤◌, min, bit_and, digits, bit_and-bitwise}
use mathlib.Core.Path.{◌≡◌, refl, ◌∙◌}
use native.Mathlib.Nat.{le_refl}
use native.Mathlib.Omega.{arith}

-- The number with `k` ones, and the `k` lowest bits of a number, both from the lowest bit up.
abbrev ones : ℕ → ℕ
ones zero = 0
ones (suc k) = ones k * 2 + 1

abbrev low : ℕ → ℕ → ℕ
low zero a = 0
low (suc k) a = low k (a / 2) * 2 + a % 2

-- What `bit_and` stands for, on `fuel` binary digits.
abbrev conjunction : ℕ → ℕ → ℕ → ℕ
conjunction fuel a mask = digits (λ _. zero) min fuel a mask

low-zero : (k : ℕ) → low k 0 ≡ 0
low-zero zero = refl
low-zero (suc k) = omega (arith, low-zero k)

conjunction-zero : (fuel a : ℕ) → conjunction fuel a 0 ≡ 0
conjunction-zero zero a = refl
conjunction-zero (suc fuel) zero = refl
conjunction-zero (suc fuel) (suc a) = omega (arith, conjunction-zero fuel (suc a / 2))

-- Halving the mask of `k + 1` ones leaves `k` ones, so each digit of fuel takes one bit.
conjunction-ones : (k fuel a : ℕ) → a ≤ fuel → conjunction fuel a (ones k) ≡ low k a
conjunction-ones zero fuel a h = conjunction-zero fuel a
conjunction-ones (suc k) zero zero h = omega (arith, low-zero k)
conjunction-ones (suc k) zero (suc a) h = elim h [ ]
conjunction-ones (suc k) (suc fuel) zero h = omega (arith, low-zero k)
conjunction-ones (suc k) (suc fuel) (suc a) h =
    let halved : (ones k * 2 + 1) / 2 ≡ ones k = omega arith in
    rw halved (omega (arith, conjunction-ones k fuel (suc a / 2) (omega arith)))

bit_and-ones : (k a : ℕ) → bit_and a (ones k) ≡ low k a
bit_and-ones k a = (λ i. bit_and-bitwise a (ones k) i) ∙ conjunction-ones k a a (le_refl a)

-- One bit, a nibble and a byte.
pub bit_and-one : (a : ℕ) → bit_and a 1 ≡ a % 2
bit_and-one a = omega (arith, bit_and-ones 1 a)

pub bit_and_nibble : (a : ℕ) → bit_and a 0xf ≡ a % 16
bit_and_nibble a = omega (arith, bit_and-ones 4 a)

pub bit_and_byte : (a : ℕ) → bit_and a 0xff ≡ a % 256
bit_and_byte a = omega (arith, bit_and-ones 8 a)
