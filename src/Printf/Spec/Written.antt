-- ===== src/Printf/Spec/Written.antt =====
-- Conversion specifications as they are written, with the arguments that they take, and the FormatSpec
-- that each stands for.
-- A field width: decimal digits, or '*' with an argument.
use osdev_libstdc.Base.{Bool, List, [], false, none, ℕ, ◌++◌, ◌<◌, ◌==◌, ◌∷◌, ◌≡◌, ◌≤◌}
use osdev_libstdc.Base.Int.{negsuc, pos, schar, ℤ}
use osdev_libstdc.Ctype.{isdigit}
use osdev_libstdc.Printf.Spec.{Arg, FormatFlags, FormatSpec, int_arg, int_limit, set_flag}
use osdev_libstdc.Printf.Spec.Decimal.{AreDigits, decimal}
use osdev_libstdc.Printf.Spec.Flags.{AreFlags, with_flags}

pub data Width : Type 0 where
  no_width : Width
  width_digits : (c : ℕ) → List ℕ → Width
  width_argument : ℤ → Width

-- A precision: a '.', with nothing behind it, decimal digits, '*' with an argument, or '-' and digits,
-- which is none.
pub data Precision : Type 0 where
  no_precision bare_precision : Precision
  precision_digits : (d : ℕ) → List ℕ → Precision
  precision_argument : ℤ → Precision
  minus_precision : List ℕ → Precision

pub record Directive : Type 0 where
  pub flags : List ℕ
  pub width : Width
  pub precision : Precision

abbrev pub width_text : Width → List ℕ
width_text no_width = []
width_text (width_digits c w) = c ∷ w
width_text (width_argument v) = b'*' ∷ []

abbrev pub precision_text : Precision → List ℕ
precision_text no_precision = []
precision_text bare_precision = b'.' ∷ []
precision_text (precision_digits d p) = b'.' ∷ d ∷ p
precision_text (precision_argument v) = b'.' ∷ b'*' ∷ []
precision_text (minus_precision p) = b'.' ∷ b'-' ∷ p

-- The text between '%' and the specifier.
abbrev pub directive_text : Directive → List ℕ
directive_text d = d.flags ++ (width_text (d.width) ++ precision_text (d.precision))

abbrev pub width_args : Width → List Arg → List Arg
width_args no_width args = args
width_args (width_digits c w) args = args
width_args (width_argument v) args = int_arg v ∷ args

abbrev pub precision_args : Precision → List Arg → List Arg
precision_args no_precision args = args
precision_args bare_precision args = args
precision_args (precision_digits d p) args = args
precision_args (precision_argument v) args = int_arg v ∷ args
precision_args (minus_precision p) args = args

-- The arguments of the field width and the precision, before those of the conversion.
abbrev pub directive_args : Directive → List Arg → List Arg
directive_args d args = width_args (d.width) (precision_args (d.precision) args)

abbrev pub IsWidth : Width → Type 0
IsWidth no_width = Unit
IsWidth (width_digits c w) = AreDigits (c ∷ w) × (b'1' ≤ c) × (decimal 0 (c ∷ w) < int_limit)
IsWidth (width_argument v) = Unit

abbrev pub IsPrecision : Precision → Type 0
IsPrecision no_precision = Unit
IsPrecision bare_precision = Unit
IsPrecision (precision_digits d p) = AreDigits (d ∷ p) × (decimal 0 (d ∷ p) < int_limit)
IsPrecision (precision_argument v) = Unit
IsPrecision (minus_precision p) = AreDigits p

pub record IsDirective (d : Directive) : Type 0 where
  pub flags_ok : AreFlags (d.flags)
  pub width_ok : IsWidth (d.width)
  pub precision_ok : IsPrecision (d.precision)

-- A character that is no part of flags, field width and precision, and no size.
pub record IsEnd (x : ℕ) : Type 0 where
  pub no_flag : (fl : FormatFlags) → set_flag fl x ≡ none
  pub no_digit : isdigit (schar x) ≡ false
  pub no_star : (x == b'*') ≡ false
  pub no_minus : (x == b'-') ≡ false

-- A specifier, which is no size either.
pub record IsSpecifier (x : ℕ) : Type 0 where
  pub is_end : IsEnd x
  pub no_dot : (x == b'.') ≡ false
  pub no_h : (x == b'h') ≡ false
  pub no_l : (x == b'l') ≡ false
  pub no_z : (x == b'z') ≡ false
  pub no_t : (x == b't') ≡ false

-- A number that is read, or the one from before.
abbrev pub width_or : ℤ → Width → ℤ
width_or old no_width = old
width_or old (width_digits c w) = pos (decimal 0 (c ∷ w))
width_or old (width_argument v) = v

abbrev pub precision_or : ℤ → Precision → ℤ
precision_or old no_precision = old
precision_or old bare_precision = pos 0
precision_or old (precision_digits d p) = pos (decimal 0 (d ∷ p))
precision_or old (precision_argument v) = v
precision_or old (minus_precision p) = negsuc 0

-- A precision, even one that is none, clears the zero flag.
abbrev pub zero_or : Bool → Precision → Bool
zero_or old no_precision = old
zero_or old pr = false

abbrev pub set_width : Width → FormatSpec → FormatSpec
set_width w spec = record spec { field_width = width_or (spec.field_width) w }

abbrev pub set_precision : Precision → FormatSpec → FormatSpec
set_precision pr spec = record spec {
  precision = precision_or (spec.precision) pr;
  flags = record (spec.flags) { f_zero = zero_or (spec.flags.f_zero) pr };
}

-- The FormatSpec that the parser makes of a directive.
abbrev pub parsed : Directive → FormatSpec → FormatSpec
parsed d spec =
    set_precision (d.precision)
      (set_width (d.width) (record spec { flags = with_flags (d.flags) (spec.flags) }))
