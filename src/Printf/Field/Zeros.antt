-- ===== src/Printf/Field/Zeros.antt =====
-- What the zero flag makes of the field width and the precision.
use osdev_libstdc.Base.{Bool-cases, arith, false, inl, inr, ltb, refl, true, ℕ, ◌-◌, ◌==◌, ◌≡◌, ◌⊎◌}
use osdev_libstdc.Base.Int.{eqb_ℤ, negsuc, pos, pos_part, ℤ, ◌-ℤ◌}
use osdev_libstdc.Printf.Field.{zeros_as_precision}
use osdev_libstdc.Printf.Field.Laws.{digits_at}
use osdev_libstdc.Printf.Spec.{FormatSpec}

-- With the zero flag and no precision the field width becomes the precision, less the sign.
pub record ZerosMade (sign : ℕ) (spec : FormatSpec) : Type 0 where
  pub precision : ℤ
  pub width : ℤ
  pub made :
      zeros_as_precision sign spec ≡ record spec { precision = precision; field_width = width }
  pub no_blanks : pos_part width ≡ 0
  pub digits : pos_part precision ≡ pos_part (spec.field_width) - digits_at sign
  pub no_digit : eqb_ℤ precision (pos 0) ≡ eqb_ℤ (spec.field_width) (pos (digits_at sign))

zeros_of_no_width :
    (sign : ℕ) (spec : FormatSpec)
    → spec.flags.f_zero ≡ true
    → spec.precision ≡ negsuc 0
    → spec.field_width ≡ negsuc 0
    → ZerosMade sign spec
unfolding zeros_as_precision ◌-ℤ◌
zeros_of_no_width sign spec filled none_given width = elim (Bool-cases (sign == 0)) [
  | inl e ↦
      let no_sign : ltb 0 sign ≡ false = ground arith in
      record {
        precision = negsuc 0;
        width = negsuc 0;
        made = rw (filled, none_given, width, no_sign) refl;
        no_blanks = refl;
        digits = rw (width, e) refl;
        no_digit = rw (width, e) refl;
      }
  | inr e ↦
      let signed : ltb 0 sign ≡ true = ground arith in
      record {
        precision = negsuc 1;
        width = negsuc 0;
        made = rw (filled, none_given, width, signed) refl;
        no_blanks = refl;
        digits = rw (width, e) refl;
        no_digit = rw (width, e) refl;
      }
]

zeros_of_width :
    (sign w : ℕ) (spec : FormatSpec)
    → spec.flags.f_zero ≡ true
    → spec.precision ≡ negsuc 0
    → spec.field_width ≡ pos w
    → ZerosMade sign spec
unfolding zeros_as_precision ◌-ℤ◌
zeros_of_width sign w spec filled none_given width = elim (Bool-cases (sign == 0)) [
  | inl e ↦
      let no_sign : ltb 0 sign ≡ false = ground arith in
      record {
        precision = pos w;
        width = pos 0;
        made = rw (filled, none_given, width, no_sign) (ground arith);
        no_blanks = refl;
        digits = rw (width, e) (omega arith);
        no_digit = rw (width, e) refl;
      }
  | inr e ↦
      let signed : ltb 0 sign ≡ true = ground arith in
      record {
        precision = pos w -ℤ pos 1;
        width = pos 0;
        made = rw (filled, none_given, width, signed) (ground arith);
        no_blanks = refl;
        digits = rw (width, e) (ground arith);
        no_digit = rw (width, e) (ground arith);
      }
]

pub zeros_made :
    (sign : ℕ) (spec : FormatSpec)
    → spec.flags.f_zero ≡ true
    → spec.precision ≡ negsuc 0
    → (spec.field_width ≡ negsuc 0) ⊎ ((w : ℕ) × (spec.field_width ≡ pos w))
    → ZerosMade sign spec
zeros_made sign spec filled none_given (inl e) = zeros_of_no_width sign spec filled none_given e
zeros_made sign spec filled none_given (inr (w, e)) = zeros_of_width sign w spec filled none_given e
