-- ===== src/Printf/Loop/NumberTexts.antt =====
-- The text of a number in its field, and what it needs of a FormatSpec.
use osdev_libstdc.Base.{
  Bool-cases, List, arith, false, if◌then◌else◌, inl, inr, length, length-append, true, ℕ, ◌&&◌,
  ◌++◌, ◌+◌, ◌-◌, ◌<◌, ◌==◌, ◌^◌, ◌≡◌, ◌⊎◌,
}
use osdev_libstdc.Base.Int.{eqb_ℤ, negsuc, pos, pos_part}
use osdev_libstdc.Printf.Field.Laws.{digits_at, sign_char}
use osdev_libstdc.Printf.Loop.Scratch.{signed_text}
use osdev_libstdc.Printf.Loop.Writes.{in_field}
use osdev_libstdc.Printf.Number.{max_number_len}
use osdev_libstdc.Printf.Number.Numeral.{
  digits_wanted, length-padded_text, length-prefix_text, number_text, padded_text, prefix_of,
}
use osdev_libstdc.Printf.Number.Radix.{IsRadix, length-numeral}
use osdev_libstdc.Printf.Spec.{FormatSpec}

-- The sign and the digits that format_number writes for `n`.
abbrev pub number_body : FormatSpec → (n : ℕ) → List ℕ
number_body spec n =
    signed_text (sign_char (spec.negative) (spec.flags.f_plus) (spec.flags.f_space))
      (number_text spec n)

pub length-number_text :
    (spec : FormatSpec) (n : ℕ)
    → digits_wanted spec n + length (prefix_of spec n) < max_number_len
    → length (number_text spec n) < max_number_len
length-number_text spec n short = elim (Bool-cases (eqb_ℤ (spec.precision) (pos 0) && (n == 0))) [
  | inl e ↦ rw e (omega arith)
  | inr e ↦
      let digits = padded_text (digits_wanted spec n) (spec.flags.f_huge) (spec.radix) n in
      rw e (
        omega (
          arith,
          length-append (prefix_of spec n) digits,
          length-padded_text (digits_wanted spec n) (spec.flags.f_huge) (spec.radix) n,
          length-prefix_text (spec.flags.f_alt) (spec.flags.f_huge) (spec.radix) n,
          length-numeral (spec.flags.f_huge) (spec.radix) n,
        ))
]

-- With the zero flag: zeros between the sign, the prefix and the digits, up to the field width.
abbrev pub zero_filled : FormatSpec → (n : ℕ) → List ℕ
zero_filled spec n =
    let sign = sign_char (spec.negative) (spec.flags.f_plus) (spec.flags.f_space) in
    let wanted = pos_part (spec.field_width) - digits_at sign - length (prefix_of spec n) in
    signed_text sign (prefix_of spec n ++ padded_text wanted (spec.flags.f_huge) (spec.radix) n)

abbrev pub number_field : FormatSpec → (n : ℕ) → List ℕ
number_field spec n =
    if spec.flags.f_zero then zero_filled spec n else in_field spec (number_body spec n)

-- The zero flag is clear, and the precision fits the array with the prefix.
abbrev pub IsPlain : FormatSpec → (n : ℕ) → Type 0
IsPlain spec n =
    (spec.flags.f_zero ≡ false)
    × (pos_part (spec.precision) + length (prefix_of spec n) < max_number_len)

-- The zero flag is set without a precision, the field width, if there is one, fits the array, and it
-- is more than the sign where `n` is 0.
abbrev pub IsZeroFilled : FormatSpec → (n : ℕ) → Type 0
IsZeroFilled spec n =
    let sign = sign_char (spec.negative) (spec.flags.f_plus) (spec.flags.f_space) in
    (spec.flags.f_zero ≡ true)
    × (spec.precision ≡ negsuc 0)
    × ((spec.field_width ≡ negsuc 0) ⊎ ((w : ℕ) × (spec.field_width ≡ pos w)))
    × (pos_part (spec.field_width) < max_number_len)
    × (eqb_ℤ (spec.field_width) (pos (digits_at sign)) && (n == 0) ≡ false)

-- What a number needs of a FormatSpec so that format_number writes it as it is.
abbrev pub IsNumeric : FormatSpec → (n : ℕ) → Type 0
IsNumeric spec n = IsRadix (spec.radix) × (n < 2 ^ 64) × (IsPlain spec n ⊎ IsZeroFilled spec n)
