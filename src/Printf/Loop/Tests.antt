-- ===== src/Printf/Loop/Tests.antt =====
-- vsnprintf at concrete formats.
-- A format from address 1 and other bytes behind it, up to address 200.
use osdev_libstdc.Base.{
  List, Option, [], if◌then◌else◌, length, none, refl, replicate, some, suc, zero, ℕ, ◌++◌, ◌+◌,
  ◌-◌, ◌==◌, ◌>>=◌, ◌∷◌, ◌≡◌,
}
use osdev_libstdc.Base.Int.{negsuc, pos, ℤ}
use osdev_libstdc.Memory.{Mem, load, store}
use osdev_libstdc.Memory.Sample.{of_bytes}
use osdev_libstdc.Printf.Args.{format_signed, read_format_unsigned_int}
use osdev_libstdc.Printf.Field.{
  format_char, format_number, format_string, next_pointer, put_with_field_width,
}
use osdev_libstdc.Printf.Loop.{
  Frame, conversion, dispatch, format_pointer, literal, put_char, vsnprintf, vsnprintf_loop,
}
use osdev_libstdc.Printf.Number.{number_to_string}
use osdev_libstdc.Printf.Spec.{
  Arg, int_arg, parse_flags_fw_precision, parse_size_specifier, pointer_arg, reset,
}

abbrev format_page : List ℕ → Mem
format_page format = of_bytes (
    format
    ++ 0
      ∷ (replicate (19 - length format) 0
          ++ b'(' ∷ b'n' ∷ b'i' ∷ b'l' ∷ b')' ∷ 0 ∷ replicate 174 0))

abbrev page_frame : Frame
page_frame = record { c = 30; number_str = 31; k_null = 20; k_nil = 21 }

-- The characters up to the NUL, with `n` at most.
abbrev text_at : ℕ → Mem → ℕ → List ℕ
unfolding load
text_at zero m p = []
text_at (suc n) m p = elim (load m p) [
  | some c ↦ if c == 0 then [] else c ∷ text_at n m (p + 1)
  | none ↦ []
]

abbrev printed : List ℕ → (max_size : ℕ) → List Arg → Option (ℤ × List ℕ)
unfolding vsnprintf vsnprintf_loop conversion literal dispatch put_char format_signed
    read_format_unsigned_int format_char format_string format_pointer next_pointer
    parse_flags_fw_precision parse_size_specifier reset text_at format_number number_to_string
    put_with_field_width
printed format max_size args = do
  (total, m) ← vsnprintf (format_page format) page_frame 100 max_size 1 args
  some (total, text_at 30 m 100)

-- "<%5d>" with 42 and room for 20 characters, "%s%x" with null and 255, and "%%" and an unknown "%y".
print_width :
    printed (b'<' ∷ b'%' ∷ b'5' ∷ b'd' ∷ b'>' ∷ []) 20 (int_arg (pos 42) ∷ [])
    ≡ some (pos 7, b'<' ∷ 32 ∷ 32 ∷ 32 ∷ b'4' ∷ b'2' ∷ b'>' ∷ [])
unfolding printed store load
print_width = refl

print_alternate :
    printed
      (b'%' ∷ b'#' ∷ b'x' ∷ b'%' ∷ b'+' ∷ b'i' ∷ [])
      20
      (int_arg (pos 255) ∷ int_arg (pos 7) ∷ [])
    ≡ some (pos 6, b'0' ∷ b'x' ∷ b'f' ∷ b'f' ∷ b'+' ∷ b'7' ∷ [])
unfolding printed store load
print_alternate = refl

print_others :
    printed
      (b'%' ∷ b'%' ∷ b'%' ∷ b'y' ∷ b'%' ∷ b'c' ∷ b'%' ∷ b'-' ∷ b'3' ∷ b'd' ∷ b'.' ∷ [])
      20
      (int_arg (pos 65) ∷ int_arg (negsuc 4) ∷ [])
    ≡ some (pos 7, b'%' ∷ b'y' ∷ b'A' ∷ b'-' ∷ b'5' ∷ 32 ∷ b'.' ∷ [])
unfolding printed store load
print_others = refl

-- "%+01d" of 0: the zero flag turns the field width, less the sign, into the precision 0, and no digit
-- is printed.
print_zero_without_digit :
    printed (b'%' ∷ b'+' ∷ b'0' ∷ b'1' ∷ b'd' ∷ []) 20 (int_arg (pos 0) ∷ [])
    ≡ some (pos 1, b'+' ∷ [])
unfolding printed store load
print_zero_without_digit = refl

print_zero_fill :
    printed (b'%' ∷ b'+' ∷ b'0' ∷ b'5' ∷ b'd' ∷ []) 20 (int_arg (pos 0) ∷ [])
    ≡ some (pos 5, b'+' ∷ b'0' ∷ b'0' ∷ b'0' ∷ b'0' ∷ [])
unfolding printed store load
print_zero_fill = refl

-- "%hd" of 65537 prints the whole int.
print_short :
    printed (b'%' ∷ b'h' ∷ b'd' ∷ []) 20 (int_arg (pos 65537) ∷ [])
    ≡ some (pos 5, b'6' ∷ b'5' ∷ b'5' ∷ b'3' ∷ b'7' ∷ [])
unfolding printed store load
print_short = refl

-- "%5d%p" of 1 and null in a buffer of 7: the room for "(nil)" is reckoned from the rounds and not
-- from the characters, and 10 characters are written.
print_nil_past_end :
    printed (b'%' ∷ b'5' ∷ b'd' ∷ b'%' ∷ b'p' ∷ []) 7 (int_arg (pos 1) ∷ pointer_arg none ∷ [])
    ≡ some (pos 10, 32 ∷ 32 ∷ 32 ∷ 32 ∷ b'1' ∷ b'(' ∷ b'n' ∷ b'i' ∷ b'l' ∷ b')' ∷ [])
unfolding printed store load
print_nil_past_end = refl

-- "%#.3o" of 8: the 0 of the alternate form comes before the zeros of the precision.
print_octal_prefix :
    printed (b'%' ∷ b'#' ∷ b'.' ∷ b'3' ∷ b'o' ∷ []) 20 (int_arg (pos 8) ∷ [])
    ≡ some (pos 4, b'0' ∷ b'0' ∷ b'1' ∷ b'0' ∷ [])
unfolding printed store load
print_octal_prefix = refl

-- "%5s" of "abcdefg", which stands behind it, in a buffer of 4: blanks before the part of the string
-- that the room lets through.
print_string_cut :
    printed
      (b'%' ∷ b'5' ∷ b's' ∷ b'a' ∷ b'b' ∷ b'c' ∷ b'd' ∷ b'e' ∷ b'f' ∷ b'g' ∷ [])
      4
      (pointer_arg (some 4) ∷ [])
    ≡ some (pos 5, 32 ∷ 32 ∷ b'a' ∷ [])
unfolding printed store load
print_string_cut = refl
