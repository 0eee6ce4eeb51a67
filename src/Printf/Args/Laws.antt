-- ===== src/Printf/Args/Laws.antt =====
-- Lemmas on the conversions of integers.
use osdev_libstdc.Base.{
  List, arith, false, ltb, not, refl, some, suc, true, ℕ, ◌&&◌, ◌<◌, ◌^◌, ◌∷◌, ◌≡◌,
}
use osdev_libstdc.Base.Int.{neg_part, negsuc, pos, schar, to_unsigned, ℤ}
use osdev_libstdc.Memory.{Mem}
use osdev_libstdc.Printf.Args.{
  format_signed, magnitude, next_wide, read_format_unsigned_int, read_signed_number,
  read_unsigned_number, signed_value, unsigned_value,
}
use osdev_libstdc.Printf.Field.{format_number}
use osdev_libstdc.Printf.Loop.Writes.{with_args}
use osdev_libstdc.Printf.Spec.{Arg, FormatSpec, LengthSpec, int_arg, next_int, wide_arg}

-- What format_signed sets for the value `v`.
abbrev pub signed_spec : ℤ → FormatSpec → FormatSpec
signed_spec v spec = record spec {
  flags = record (spec.flags) {
    f_alt = false;
    f_space = spec.flags.f_space && not (ltb 0 (neg_part v));
  };
  radix = 10;
  negative = ltb 0 (neg_part v);
}

abbrev pub magnitude_of : ℤ → ℕ
magnitude_of (pos n) = n
magnitude_of (negsuc n) = suc n

-- The argument that carries `v` where a size is given, and what the conversions make of it.
abbrev pub sized_arg : LengthSpec → ℤ → Arg
sized_arg LengthSpec.null v = int_arg v
sized_arg LengthSpec.h v = int_arg v
sized_arg LengthSpec.hh v = int_arg v
sized_arg length_spec v = wide_arg v

abbrev pub signed_of : LengthSpec → ℤ → ℤ
signed_of LengthSpec.hh v = schar (to_unsigned 8 v)
signed_of length_spec v = v

abbrev pub unsigned_of : LengthSpec → ℤ → ℕ
unsigned_of LengthSpec.null v = to_unsigned 32 v
unsigned_of LengthSpec.h v = to_unsigned 32 v
unsigned_of LengthSpec.hh v = to_unsigned 8 v
unsigned_of length_spec v = to_unsigned 64 v

signed_value_lem :
    (ls : LengthSpec) (v : ℤ) (args : List Arg)
    → signed_value ls (sized_arg ls v ∷ args) ≡ some (signed_of ls v, args)
unfolding signed_value next_int read_signed_number next_wide
signed_value_lem LengthSpec.null v args = refl
signed_value_lem LengthSpec.h v args = refl
signed_value_lem LengthSpec.hh v args = refl
signed_value_lem LengthSpec.l v args = refl
signed_value_lem LengthSpec.ll v args = refl
signed_value_lem LengthSpec.z v args = refl
signed_value_lem LengthSpec.t v args = refl

unsigned_value_lem :
    (ls : LengthSpec) (v : ℤ) (args : List Arg)
    → unsigned_value ls (sized_arg ls v ∷ args) ≡ some (unsigned_of ls v, args)
unfolding unsigned_value next_int read_unsigned_number next_wide
unsigned_value_lem LengthSpec.null v args = refl
unsigned_value_lem LengthSpec.h v args = refl
unsigned_value_lem LengthSpec.hh v args = refl
unsigned_value_lem LengthSpec.l v args = refl
unsigned_value_lem LengthSpec.ll v args = refl
unsigned_value_lem LengthSpec.z v args = refl
unsigned_value_lem LengthSpec.t v args = refl

magnitude_lem : (v : ℤ) → magnitude_of v < 2 ^ 63 → magnitude v ≡ some (magnitude_of v)
unfolding magnitude
magnitude_lem (pos n) low = refl
magnitude_lem (negsuc n) low =
    let small : ltb (suc n) (2 ^ 63) ≡ true = ground arith in rw small refl

pub format_signed_lem :
    (m : Mem) (number_str buf : ℕ) (spec : FormatSpec) (ls : LengthSpec) (size v : ℤ)
    (args : List Arg)
    → spec.length_spec ≡ ls
    → magnitude_of (signed_of ls v) < 2 ^ 63
    → format_signed m number_str buf spec size (sized_arg ls v ∷ args)
      ≡ with_args
          (format_number m number_str buf
            (magnitude_of (signed_of ls v))
            (signed_spec (signed_of ls v) spec)
            size)
          args
unfolding format_signed
format_signed_lem m number_str buf spec ls size v args size_given low =
    rw (size_given, signed_value_lem ls v args, magnitude_lem (signed_of ls v) low) refl

pub read_format_unsigned_int_lem :
    (m : Mem) (number_str buf : ℕ) (spec : FormatSpec) (ls : LengthSpec) (size v : ℤ)
    (args : List Arg)
    → spec.length_spec ≡ ls
    → read_format_unsigned_int m number_str buf spec size (sized_arg ls v ∷ args)
      ≡ with_args
          (format_number m number_str buf
            (unsigned_of ls v)
            (record spec { flags = record (spec.flags) { f_space = false; f_plus = false } })
            size)
          args
unfolding read_format_unsigned_int
read_format_unsigned_int_lem m number_str buf spec ls size v args size_given =
    rw (size_given, unsigned_value_lem ls v args) refl
