-- ===== src/Printf/Args/Sizes.antt =====
-- The numeric conversions of src/vsnprintf.cpp keep the size of memory.
use osdev_libstdc.Base.{List, false, some, ℕ, ◌>>=◌}
use osdev_libstdc.Base.Int.{ℤ}
use osdev_libstdc.Base.Returns.{Returns, Returns-bind, Returns-then}
use osdev_libstdc.Memory.{Mem}
use osdev_libstdc.Memory.Sizes.{Sized}
use osdev_libstdc.Printf.Args.{
  format_signed, magnitude, read_format_unsigned_int, signed_value, unsigned_value,
}
use osdev_libstdc.Printf.Field.{format_number}
use osdev_libstdc.Printf.Field.Sizes.{Field, format_number-Sized}
use osdev_libstdc.Printf.Spec.{Arg, FormatSpec}

-- A number, and behind it the arguments that it leaves.
pub number_field-Sized :
    (m : Mem) (number_str buf number : ℕ) (spec : FormatSpec) (size : ℤ) (args : List Arg)
    → Returns {A = Field}
        (λ r. Sized m (r.2))
        (do
          (buf', spec', m') ← format_number m number_str buf number spec size
          some (buf', spec', m', args))
unfolding Returns
number_field-Sized m number_str buf number spec size args =
    Returns-bind (λ r. Sized m (r.2)) _ (format_number m number_str buf number spec size) _
      (format_number-Sized m number_str buf number spec size) λ r h. h

pub read_format_unsigned_int-Sized :
    (m : Mem) (number_str buf : ℕ) (spec : FormatSpec) (size : ℤ) (args : List Arg)
    → Returns (λ r. Sized m (r.2)) (read_format_unsigned_int m number_str buf spec size args)
unfolding read_format_unsigned_int
read_format_unsigned_int-Sized m number_str buf spec size args =
    let spec' = record spec { flags = record (spec.flags) { f_space = false; f_plus = false } } in
    Returns-then _ (unsigned_value (spec.length_spec) args) _
      λ value. number_field-Sized m number_str buf (value.0) spec' size (value.1)

pub format_signed-Sized :
    (m : Mem) (number_str buf : ℕ) (spec : FormatSpec) (size : ℤ) (args : List Arg)
    → Returns (λ r. Sized m (r.2)) (format_signed m number_str buf spec size args)
unfolding format_signed
format_signed-Sized m number_str buf spec size args =
    Returns-then _ (signed_value (spec.length_spec) args) _ λ value.
      Returns-then _ (magnitude (value.0)) _
        λ number. number_field-Sized m number_str buf number _ size (value.1)
