-- ===== src/Printf/Field.antt =====
-- src/vsnprintf.cpp: put_with_field_width, and format_char, format_string and format_number that end
-- in it. The local variables and arrays whose address they pass on are parameters, as is the address
-- of the text "(null)". `size` is an `int`; a negative one becomes a huge size_t, of 64 bits.
-- Differences and sums of an `int` are integers, which do not overflow.
pub mod Laws
pub mod Sizes
pub mod Shown
pub mod Ends
pub mod Strings
pub mod Zeros
use osdev_libstdc.Base.{List, Option, if◌then◌else◌, ltb, none, some, ℕ, ◌+◌, ◌==◌, ◌>>=◌, ◌∷◌}
use osdev_libstdc.Base.Int.{leb_ℤ, negsuc, pos, pos_part, to_unsigned, ℤ, ◌+ℤ◌, ◌-ℤ◌}
use osdev_libstdc.Cstring.Copy.{mempcpy, memset}
use osdev_libstdc.Cstring.Length.{strnlen}
use osdev_libstdc.Memory.{Mem, store}
use osdev_libstdc.Printf.Number.{max_number_len, number_to_string}
use osdev_libstdc.Printf.Spec.{Arg, FormatSpec, next_int, pointer_arg}
use mathlib.Core.Option
use Prim.Native.Nat.{min}

-- min(n, size), passed as a size_t.
abbrev pub clipped : ℕ → ℤ → ℕ
clipped n (pos size) = min n size
clipped n (negsuc k) = to_unsigned 64 (negsuc k)

-- size > padding_len ? size - padding_len : 0
pub left_of : ℤ → ℕ → ℤ
unfolding ◌-ℤ◌
left_of size padding = if leb_ℤ size (pos padding) then pos 0 else size -ℤ pos padding

abbrev pub padding_len : FormatSpec → (len : ℕ) → ℕ
padding_len spec len = pos_part (spec.field_width -ℤ pos len)

-- F_MINUS is tested once: to its left stands what is done between its two tests.
unfoldable pub put_with_field_width :
    Mem → (buf value len : ℕ) → FormatSpec → (size : ℤ) → Option (ℕ × FormatSpec × Mem)
unfolding memset mempcpy left_of ◌+ℤ◌
put_with_field_width m buf value len spec size =
    let padding = padding_len spec len in
    let spec' = record spec { total = spec.total +ℤ pos padding +ℤ pos len } in
    if spec.flags.f_minus
    then (do
      (end, m') ← mempcpy m buf value (clipped len size)
      (_, m'') ← memset m' end (pos 32) (clipped padding size)
      some (end + padding, spec', m''))
    else (do
      (_, m') ← memset m buf (pos 32) (clipped padding size)
      (end, m'') ← mempcpy m' (buf + padding) value (clipped len (left_of size padding))
      some (end, spec', m''))

-- va_arg(w.ap, const char *)
unfoldable pub next_pointer : List Arg → Option (Option ℕ × List Arg)
next_pointer (pointer_arg p ∷ args) = some (p, args)
next_pointer args = none

-- `c` is the address of the local variable.
unfoldable pub format_char :
    Mem → (c buf : ℕ) → FormatSpec → ℤ → List Arg → Option (ℕ × FormatSpec × Mem × List Arg)
unfolding next_int
format_char m c buf spec size args = do
  (v, args') ← next_int args
  m' ← store m c (to_unsigned 8 v)
  (buf', spec', m'') ← put_with_field_width m' buf c 1 spec size
  some (buf', spec', m'', args')

-- The length of the string at `str`, as far as the precision and the size go.
pub string_len : Mem → (str : ℕ) → FormatSpec → ℤ → Option ℕ
unfolding strnlen
string_len m str spec size =
    if leb_ℤ (pos 0) (spec.precision)
    then strnlen m str (clipped (pos_part (spec.precision)) size)
    else strnlen m str (to_unsigned 64 size)

-- s ? s : va_arg(w.ap, const char *)
pub s_or_next : Option ℕ → List Arg → Option (Option ℕ × List Arg)
unfolding next_pointer
s_or_next (some p) args = some (some p, args)
s_or_next none args = next_pointer args

-- if (!str) str = kNull;
abbrev pub or_null : (k_null : ℕ) → Option ℕ → ℕ
or_null k_null (some str) = str
or_null k_null none = k_null

-- `s` is the argument that is null where it is not given.
unfoldable pub format_string :
    Mem
    → (k_null buf : ℕ) → FormatSpec
    → ℤ
    → List Arg
    → (s : Option ℕ) → Option (ℕ × FormatSpec × Mem × List Arg)
unfolding s_or_next string_len
format_string m k_null buf spec size args s = do
  (given, args') ← s_or_next s args
  let str = or_null k_null given
  len ← string_len m str spec size
  (buf', spec', m') ← put_with_field_width m buf str len spec size
  some (buf', spec', m', args')

-- The sign, or 0.
pub sign_of : FormatSpec → ℕ
sign_of spec =
    if spec.negative
    then b'-'
    else if spec.flags.f_plus
    then b'+'
    else if spec.flags.f_space
    then 32
    else 0

-- The zero flag as a precision.
pub zeros_as_precision : (sign : ℕ) → FormatSpec → FormatSpec
unfolding ◌-ℤ◌
zeros_as_precision sign spec =
    if spec.flags.f_zero
    then (let wide =
          if leb_ℤ (spec.field_width) (spec.precision)
          then spec
          else record spec { precision = spec.field_width; field_width = pos 0 } in
        if ltb 0 sign then record wide { precision = wide.precision -ℤ pos 1 } else wide)
    else spec

-- `number_str` is the address of the local array of 66 characters.
unfoldable pub format_number :
    Mem → (number_str buf number : ℕ) → FormatSpec → ℤ → Option (ℕ × FormatSpec × Mem)
unfolding sign_of zeros_as_precision
format_number m number_str buf number spec size = do
  let sign = sign_of spec
  let spec' = zeros_as_precision sign spec
  let offset = if sign == 0 then 0 else 1
  m' ← store m number_str sign
  (number_len, m'') ← number_to_string m' (number_str + offset) number spec' max_number_len
  put_with_field_width m'' buf number_str (number_len + offset) spec' size
