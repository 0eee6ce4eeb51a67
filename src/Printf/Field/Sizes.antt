-- ===== src/Printf/Field/Sizes.antt =====
-- The functions of src/vsnprintf.cpp that write a field keep the size of memory.
use osdev_libstdc.Base.{List, Option, if◌then◌else◌, refl, some, ℕ, ◌+◌, ◌==◌, ◌>>=◌, ◌∙◌}
use osdev_libstdc.Base.Int.{pos, to_unsigned, ℤ}
use osdev_libstdc.Base.Returns.{Returns, Returns-bind, Returns-if, Returns-then}
use osdev_libstdc.Cstring.Copy.{mempcpy, memset}
use osdev_libstdc.Cstring.Copy.Sizes.{mempcpy-Sized, memset-Sized}
use osdev_libstdc.Memory.{Mem, store}
use osdev_libstdc.Memory.Sizes.{Sized, Sized-then, store-Sized}
use osdev_libstdc.Printf.Field.{
  clipped, format_char, format_number, format_string, left_of, or_null, padding_len,
  put_with_field_width, s_or_next, sign_of, string_len, zeros_as_precision,
}
use osdev_libstdc.Printf.Number.{max_number_len, number_to_string}
use osdev_libstdc.Printf.Number.Sizes.{number_to_string-Sized}
use osdev_libstdc.Printf.Spec.{Arg, FormatSpec, next_int}

pub put_with_field_width-Sized :
    (m : Mem) (buf value len : ℕ) (spec : FormatSpec) (size : ℤ)
    → Returns (λ r. Sized m (r.2)) (put_with_field_width m buf value len spec size)
unfolding Returns put_with_field_width
put_with_field_width-Sized m buf value len spec size =
    let padding = padding_len spec len in
    Returns-if _ (spec.flags.f_minus) _ _
      (Sized-then m (λ r. r.1) (λ r. r.2) (mempcpy m buf value (clipped len size)) _
        (mempcpy-Sized m buf value (clipped len size))
        λ r.
          Returns-bind (λ r'. Sized (r.1) (r'.1)) _
            (memset (r.1) (r.0) (pos 32) (clipped padding size)) _
            (memset-Sized (r.1) (r.0) (pos 32) (clipped padding size)) λ r' h. h)
      (Sized-then m (λ r. r.1) (λ r. r.2) (memset m buf (pos 32) (clipped padding size)) _
        (memset-Sized m buf (pos 32) (clipped padding size))
        λ r.
          Returns-bind (λ r'. Sized (r.1) (r'.1)) _
            (mempcpy (r.1) (buf + padding) value (clipped len (left_of size padding))) _
            (mempcpy-Sized (r.1) (buf + padding) value (clipped len (left_of size padding)))
            λ r' h. h)

abbrev pub Field : Type 0
Field = ℕ × FormatSpec × Mem × List Arg

-- A field that ends in put_with_field_width, after a step that keeps the size.
module _ (m m' : Mem) (buf value len : ℕ) (spec : FormatSpec) (size : ℤ) (args : List Arg) where
  pub put_field-Sized :
      Sized m m'
      → Returns {A = Field}
          (λ r. Sized m (r.2))
          (do
            (buf', spec', m'') ← put_with_field_width m' buf value len spec size
            some (buf', spec', m'', args))
  unfolding Returns
  put_field-Sized same =
      Returns-bind (λ r. Sized m' (r.2)) _ (put_with_field_width m' buf value len spec size) _
        (put_with_field_width-Sized m' buf value len spec size) λ r h. h ∙ same

pub format_char-Sized :
    (m : Mem) (c buf : ℕ) (spec : FormatSpec) (size : ℤ) (args : List Arg)
    → Returns (λ r. Sized m (r.2)) (format_char m c buf spec size args)
unfolding format_char
format_char-Sized m c buf spec size args = Returns-then _ (next_int args) _ λ v.
    Returns-bind (Sized m) _ (store m c (to_unsigned 8 (v.0))) _
      (store-Sized m c (to_unsigned 8 (v.0))) λ m'. put_field-Sized m m' buf c 1 spec size (v.1)

pub format_string-Sized :
    (m : Mem) (k_null buf : ℕ) (spec : FormatSpec) (size : ℤ) (args : List Arg) (s : Option ℕ)
    → Returns (λ r. Sized m (r.2)) (format_string m k_null buf spec size args s)
unfolding format_string
format_string-Sized m k_null buf spec size args s = Returns-then _ (s_or_next s args) _ λ given.
    Returns-then _ (string_len m (or_null k_null (given.0)) spec size) _
      λ len. put_field-Sized m m buf (or_null k_null (given.0)) len spec size (given.1) refl

pub format_number-Sized :
    (m : Mem) (number_str buf number : ℕ) (spec : FormatSpec) (size : ℤ)
    → Returns (λ r. Sized m (r.2)) (format_number m number_str buf number spec size)
unfolding format_number
format_number-Sized m number_str buf number spec size =
    let sign = sign_of spec in
    let spec' = zeros_as_precision sign spec in
    let offset = if sign == 0 then 0 else 1 in
    Sized-then m (λ x. x) (λ r. r.2) (store m number_str sign) _ (store-Sized m number_str sign)
      λ m'.
        Sized-then m' (λ r. r.1) (λ r. r.2)
          (number_to_string m' (number_str + offset) number spec' max_number_len) _
          (number_to_string-Sized m' (number_str + offset) number spec' max_number_len)
          λ r. put_with_field_width-Sized (r.1) buf number_str (r.0 + offset) spec' size
