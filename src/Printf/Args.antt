-- ===== src/Printf/Args.antt =====
-- src/vsnprintf.cpp: the arguments of numeric conversions. An `int` or `unsigned int` is an `int_arg`;
-- the types of 64 bits are a `wide_arg`, and va_arg also reads a pointer as one of these.
pub mod Laws
pub mod Sizes
use osdev_libstdc.Base.{
  List, Option, false, if◌then◌else◌, ltb, none, not, some, suc, ℕ, ◌&&◌, ◌>>=◌, ◌^◌, ◌∷◌,
}
use osdev_libstdc.Base.Int.{neg_part, negsuc, pos, schar, to_unsigned, ℤ}
use osdev_libstdc.Memory.{Mem}
use osdev_libstdc.Printf.Field.{format_number}
use osdev_libstdc.Printf.Spec.{Arg, FormatSpec, LengthSpec, next_int, pointer_arg, wide_arg}

-- va_arg(w.ap, long) and the like.
unfoldable pub next_wide : List Arg → Option (ℤ × List Arg)
next_wide (wide_arg v ∷ args) = some (v, args)
next_wide (pointer_arg (some p) ∷ args) = some (pos p, args)
next_wide (pointer_arg none ∷ args) = some (pos 0, args)
next_wide args = none

pub read_signed_number : LengthSpec → List Arg → Option (ℤ × List Arg)
unfolding next_int next_wide
read_signed_number LengthSpec.hh args = do
  (v, args') ← next_int args
  some (schar (to_unsigned 8 v), args')
read_signed_number LengthSpec.h args = next_int args
read_signed_number length_spec args = next_wide args

unfoldable pub read_unsigned_number : LengthSpec → List Arg → Option (ℕ × List Arg)
unfolding next_int next_wide
read_unsigned_number LengthSpec.hh args = do
  (v, args') ← next_int args
  some (to_unsigned 8 v, args')
read_unsigned_number LengthSpec.h args = do
  (v, args') ← next_int args
  some (to_unsigned 32 v, args')
read_unsigned_number length_spec args = do
  (v, args') ← next_wide args
  some (to_unsigned 64 v, args')

-- The value of an unsigned conversion: an unsigned int where no size is given.
pub unsigned_value : LengthSpec → List Arg → Option (ℕ × List Arg)
unfolding next_int read_unsigned_number
unsigned_value LengthSpec.null args = do (v, args') ← next_int args; some (to_unsigned 32 v, args')
unsigned_value length_spec args = read_unsigned_number length_spec args

-- The value of a signed conversion.
pub signed_value : LengthSpec → List Arg → Option (ℤ × List Arg)
unfolding next_int read_signed_number
signed_value LengthSpec.null args = next_int args
signed_value length_spec args = read_signed_number length_spec args

unfoldable pub read_format_unsigned_int :
    Mem
    → (number_str buf : ℕ) → FormatSpec
    → ℤ
    → List Arg
    → Option (ℕ × FormatSpec × Mem × List Arg)
unfolding unsigned_value
read_format_unsigned_int m number_str buf spec size args = do
  let spec' = record spec { flags = record (spec.flags) { f_space = false; f_plus = false } }
  (value, args') ← unsigned_value (spec.length_spec) args
  (buf', spec'', m') ← format_number m number_str buf value spec' size
  some (buf', spec'', m', args')

-- `value` without its sign, as long as that is a long long.
pub magnitude : ℤ → Option ℕ
magnitude (pos n) = some n
magnitude (negsuc n) = if ltb (suc n) (2 ^ 63) then some (suc n) else none

-- The cases 'd' and 'i' of vsnprintf.
unfoldable pub format_signed :
    Mem
    → (number_str buf : ℕ) → FormatSpec
    → ℤ
    → List Arg
    → Option (ℕ × FormatSpec × Mem × List Arg)
unfolding signed_value magnitude
format_signed m number_str buf spec size args = do
  (value, args') ← signed_value (spec.length_spec) args
  number ← magnitude value
  let negative = ltb 0 (neg_part value)
  let spec' = record spec {
    flags = record (spec.flags) { f_alt = false; f_space = spec.flags.f_space && not negative };
    radix = 10;
    negative = negative;
  }
  (buf', spec'', m') ← format_number m number_str buf number spec' size
  some (buf', spec'', m', args')
