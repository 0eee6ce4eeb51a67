-- ===== src/Posix/FirstSet.antt =====
-- Lemmas on ffs, ffsl and ffsll.
use osdev_libstdc.Base.{
  Bool-cases, ap, arith, false, inl, inr, refl, some, suc, zero, ℕ, ◌%◌, ◌*◌, ◌+◌, ◌/◌, ◌<◌, ◌==◌,
  ◌^◌, ◌≡◌, ◌≢◌,
}
use osdev_libstdc.Base.Bits.{bit_and-one}
use osdev_libstdc.Base.Int.{eqb_ℤ, negsuc, pos, to_unsigned, ℤ}
use osdev_libstdc.Posix.{ffs_loop, ffs_width}
use native.Mathlib.Nat.{pow-suc, mod-eq_of_lt}

-- The lowest set bit of `v` is the bit `k`.
abbrev pub LowestBit : ℕ → ℕ → Type 0
LowestBit v k = (j : ℕ) × (v ≡ (2 * j + 1) * 2 ^ k)

LowestBit-double : (v w k : ℕ) → v ≡ 2 * w → LowestBit w k → LowestBit v (suc k)
LowestBit-double v w k twice (j, e) =
    (j, omega (arith, e, ap (λ (t : ℕ). (2 * j + 1) * t) (pow-suc 2 k)))

ffs_loop-LowestBit :
    (w v i : ℕ)
    → 0 < v
    → v < 2 ^ w
    → (k : ℕ) × (ffs_loop w v i ≡ some (i + k)) × (k < w) × LowestBit v k
unfolding ffs_loop
ffs_loop-LowestBit zero v i above lt = absurd (omega arith)
ffs_loop-LowestBit (suc w) v i above lt = elim (Bool-cases (v % 2 == 0)) [
  | inl even ↦
      let half : v ≡ 2 * (v / 2) = ground arith in
      let (k, found, below, low) =
        ffs_loop-LowestBit w (v / 2) (i + 1) (omega arith) (omega (arith, pow-suc 2 w)) in
      (
        suc k,
        rw (bit_and-one v, even, found) (ap some (omega arith)),
        omega arith,
        LowestBit-double v (v / 2) k half low,
      )
  | inr odd ↦
      (0, rw (bit_and-one v, odd) (ap some (omega arith)), omega arith, (v / 2, ground arith))
]

-- A value of the signed type with `u + 1` bits.
abbrev pub IsSigned : ℕ → ℤ → Type 0
IsSigned u (pos n) = n < 2 ^ u
IsSigned u (negsuc n) = n < 2 ^ u

to_unsigned_range :
    (u : ℕ) (val : ℤ)
    → IsSigned u val
    → val ≢ pos 0
    → (0 < to_unsigned (suc u) val) × (to_unsigned (suc u) val < 2 ^ suc u)
to_unsigned_range u (pos n) fits nonzero =
    let some_value : n ≢ 0 = λ e. nonzero (ap pos e) in
    let whole : n % 2 ^ suc u ≡ n = mod-eq_of_lt (omega (arith, pow-suc 2 u)) in
    (omega (arith, whole), omega (arith, whole, pow-suc 2 u))
to_unsigned_range u (negsuc n) fits nonzero =
    let whole : n % 2 ^ suc u ≡ n = mod-eq_of_lt (omega (arith, pow-suc 2 u)) in
    (omega (arith, whole, pow-suc 2 u), omega (arith, whole, pow-suc 2 u))

-- For a value other than 0 of a signed type of `u + 1` bits, read as its two's complement pattern,
-- the loop of ffs, ffsl and ffsll ends within `u + 1` rounds, and the result is the place of the
-- lowest bit that is set, counted from 1; for 0 the result is 0.
pub ffs_width-LowestBit :
    (u : ℕ) (val : ℤ)
    → IsSigned u val
    → val ≢ pos 0
    → (k : ℕ) × (ffs_width (suc u) val ≡ some (1 + k))
      × (k < suc u)
      × LowestBit (to_unsigned (suc u) val) k
      × (ffs_width (suc u) (pos 0) ≡ some 0)
unfolding ffs_width
ffs_width-LowestBit u val fits nonzero =
    let (above, below) = to_unsigned_range u val fits nonzero in
    let (k, found, less, low) =
      ffs_loop-LowestBit (suc u) (to_unsigned (suc u) val) 1 above below in
    let no : eqb_ℤ val (pos 0) ≡ false = ground arith in (k, rw (no, found), less, low, refl)
