-- ===== src/Base/Bits.antt =====
-- Lemmas on `&` with a mask of low bits.
use osdev_libstdc.Base.{ap, arith, refl, suc, zero, ℕ, ◌%◌, ◌*◌, ◌+◌, ◌/◌, ◌≡◌, ◌≤◌}
use Prim.Native.Nat.{min, bit_and, digits, bit_and-bitwise}

-- A mask of `k` ones.
abbrev low_mask : ℕ → ℕ
low_mask zero = 0
low_mask (suc k) = 2 * low_mask k + 1

-- The number that the lowest `k` bits of `a` make.
abbrev low_bits : ℕ → ℕ → ℕ
low_bits zero a = 0
low_bits (suc k) a = 2 * low_bits k (a / 2) + a % 2

low_bits-zero : (k : ℕ) → low_bits k 0 ≡ 0
low_bits-zero zero = refl
low_bits-zero (suc k) = omega (arith, low_bits-zero k)

mask_half : (k : ℕ) → (2 * low_mask k + 1) / 2 ≡ low_mask k
mask_half k = omega arith

-- The digits that stand for `&`, at a mask and with any fuel that is not below the number.
masked_digits :
    (k fuel a : ℕ) → a ≤ fuel → digits (λ y. zero) min fuel a (low_mask k) ≡ low_bits k a
masked_digits k zero zero h = omega (arith, low_bits-zero k)
masked_digits k (suc fuel) zero h = omega (arith, low_bits-zero k)
masked_digits k zero (suc a) h = absurd (omega arith)
masked_digits zero (suc fuel) (suc a) h =
    omega (arith, masked_digits zero fuel (suc a / 2) (omega arith))
masked_digits (suc k) (suc fuel) (suc a) h = omega (
  arith,
  ap (digits (λ y. zero) min fuel (suc a / 2)) (mask_half k),
  masked_digits k fuel (suc a / 2) (omega arith),
)

bit_and-low_mask : (k a : ℕ) → bit_and a (low_mask k) ≡ low_bits k a
bit_and-low_mask k a =
    omega (arith, bit_and-bitwise a (low_mask k), masked_digits k a a (omega arith))

pub bit_and-one : (a : ℕ) → bit_and a 1 ≡ a % 2
bit_and-one a = omega (arith, bit_and-low_mask 1 a)

pub bit_and-127 : (a : ℕ) → bit_and a 127 ≡ a % 128
bit_and-127 a = omega (arith, bit_and-low_mask 7 a)
