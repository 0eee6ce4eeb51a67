-- ===== src/Printf/Tests.antt =====
-- The theorems on vsnprintf.cpp at concrete inputs.
use osdev_libstdc.Base.{
  [], arith, false, inl, inr, none, refl, replicate, some, suc, true, zero, ℕ, ◌++◌, ◌+◌, ◌↔◌, ◌∷◌,
  ◌≡◌, ◌≤◌,
}
use osdev_libstdc.Base.Int.{negsuc, pos, ◌+ℤ◌, ◌-ℤ◌}
use osdev_libstdc.Base.Runs.{Runs}
use osdev_libstdc.Ctype.{isdigit}
use osdev_libstdc.Memory.{Bytes, Mapped, Mem, load, store, write, write_list}
use osdev_libstdc.Memory.Sample.{of_bytes}
use osdev_libstdc.Printf.Field.{put_with_field_width}
use osdev_libstdc.Printf.Field.Ends.{put_with_field_width_iff}
use osdev_libstdc.Printf.Field.Shown.{IsShown}
use osdev_libstdc.Printf.Loop.{State, vsnprintf, vsnprintf_loop}
use osdev_libstdc.Printf.Loop.Ends.{format_round, vsnprintf_loop-Runs}
use osdev_libstdc.Printf.Loop.Kept.{Kept}
use osdev_libstdc.Printf.Loop.Refinement.{vsnprintf-rendered_all}
use osdev_libstdc.Printf.Loop.Sample.{sheet, sheet-IsCall, sheet_frame, sheet_pieces, sheet_text}
use osdev_libstdc.Printf.Number.{number_to_string}
use osdev_libstdc.Printf.Number.Laws.{number_to_string_overflow, parse_number-number_to_string}
use osdev_libstdc.Printf.Number.Radix.{numeral}
use osdev_libstdc.Printf.Spec.{
  FormatSpec, LengthSpec, f_none, flags_loop, int_arg, parse_flags_fw_precision, parse_number,
  parse_number_loop, pointer_arg, reset, set_flag, skip_digits, wide_arg,
}
use osdev_libstdc.Printf.Spec.Directive.{parse_flags_fw_precision-parsed}
use osdev_libstdc.Printf.Spec.Runs.{flag_round, number_round, skip_round}
use osdev_libstdc.Printf.Spec.Specifiers.{signed-IsSpecifier}
use osdev_libstdc.Printf.Spec.Written.{precision_digits, width_digits}

abbrev blank : Mem
blank = record { size = 80; cell = λ q. some 0 }

blank-Mapped : (p n : ℕ) → p + n ≤ 80 → Mapped blank p n
unfolding load
blank-Mapped p zero h = tt
blank-Mapped p (suc n) h = (ground arith, blank-Mapped (p + 1) n (omega arith))

-- "%.5d"
abbrev five_digits : FormatSpec
unfolding reset
five_digits =
    record (reset (record {
      flags = f_none;
      length_spec = LengthSpec.null;
      total = pos 0;
      field_width = pos 3;
      precision = pos 3;
      negative = false;
      radix = 8;
    })) { precision = pos 5 }

-- "%.70d"
abbrev seventy_digits : FormatSpec
seventy_digits = record five_digits { precision = pos 70 }

parse_number-number_to_string_example :
    (n : ℕ) × (m' : Mem) × (number_to_string blank 4 123 five_digits 66 ≡ some (n, m'))
    × (5 ≤ n)
    × (n ≤ 66)
    × (parse_number (write m' (4 + n) 0) 4 ≡ some (4 + n, 123))
unfolding five_digits
parse_number-number_to_string_example =
    parse_number-number_to_string blank 4 123 five_digits refl refl (omega arith) refl (omega arith)
      (blank-Mapped 4 67 (omega arith))

number_to_string_overflow_example : number_to_string blank 4 1 seventy_digits 66 ≡ none
unfolding five_digits
number_to_string_overflow_example =
    number_to_string_overflow blank 4 1 seventy_digits refl (omega arith) (omega arith)

-- "+-12.5d"
abbrev plus_twelve : Mem
plus_twelve = of_bytes (b'+' ∷ b'-' ∷ b'1' ∷ b'2' ∷ b'.' ∷ b'5' ∷ b'd' ∷ 0 ∷ [])

plus_twelve_there : Bytes plus_twelve 1 (b'+' ∷ b'-' ∷ b'1' ∷ b'2' ∷ b'.' ∷ b'5' ∷ b'd' ∷ [])
unfolding load
plus_twelve_there = ground arith

parse_flags_fw_precision-parsed_example :
    parse_flags_fw_precision plus_twelve 1 five_digits (int_arg (pos 7) ∷ [])
    ≡ some (
      7,
      record five_digits {
        flags = record f_none { f_plus = true; f_minus = true };
        field_width = pos 12;
        precision = pos 5;
      },
      int_arg (pos 7) ∷ [],
    )
unfolding five_digits isdigit
parse_flags_fw_precision-parsed_example =
    parse_flags_fw_precision-parsed plus_twelve 1 b'd'
      (record {
        flags = b'+' ∷ b'-' ∷ [];
        width = width_digits b'1' (b'2' ∷ []);
        precision = precision_digits b'5' [];
      })
      five_digits (int_arg (pos 7) ∷ [])
      (record {
        flags_ok = (inr (inr (inr (inr refl))), (inr (inr (inr (inl refl))), tt));
        width_ok =
            ((omega arith, omega arith, (omega arith, omega arith, tt)), omega arith, omega arith);
        precision_ok = ((omega arith, omega arith, tt), omega arith);
      })
      (signed-IsSpecifier.is_end) refl plus_twelve_there

vsnprintf-rendered_all_example :
    (m' : Mem) × (vsnprintf sheet sheet_frame 160 16 1
        (int_arg (pos 4) ∷ int_arg (negsuc 6) ∷ wide_arg (pos 255) ∷ pointer_arg (some 40) ∷ [])
      ≡ some (pos 15, m'))
    × Bytes m' 160 (sheet_text ++ 0 ∷ [])
    × Kept sheet_frame 160 16 sheet m'
unfolding numeral ◌-ℤ◌
vsnprintf-rendered_all_example =
    vsnprintf-rendered_all sheet sheet_frame 160 16 1 sheet_pieces [] sheet-IsCall (omega arith)
      (omega arith)

-- From address 1 the text "ab" and 12 other bytes.
abbrev page : Mem
page = of_bytes (b'a' ∷ b'b' ∷ replicate 12 0)

-- "%3c", with room for one character only.
abbrev three_wide : FormatSpec
unfolding five_digits
three_wide = record five_digits { field_width = pos 3 }

put_with_field_width_iff_example : (7 ≤ 5 + 1) ↔ IsShown false 2 1 1
unfolding three_wide five_digits put_with_field_width load store write write_list ◌-ℤ◌ ◌+ℤ◌
put_with_field_width_iff_example =
    put_with_field_width_iff page (write_list page 5 (32 ∷ [])) 5 1 1 1 7 three_wide
      (record three_wide { total = pos 3 }) refl

-- The format of the sheet from " %.1s%%" on, with its argument.
abbrev sheet_start : State
unfolding reset
sheet_start = record {
  pos_at = 160;
  fmt = 13;
  i = 0;
  written = 0;
  spec = reset (record {
    flags = f_none;
    length_spec = LengthSpec.null;
    total = pos 0;
    field_width = negsuc 0;
    precision = negsuc 0;
    negative = false;
    radix = 10;
  });
  mem = sheet;
  args = pointer_arg (some 40) ∷ [];
}

vsnprintf_loop-Runs_example :
    Runs
      (format_round sheet_frame 160 16)
      sheet_start
      (vsnprintf_loop 187 sheet_frame 160 16 sheet_start)
    × Runs (flag_round sheet) (13, f_none) (some (14, record f_none { f_space = true }))
    × Runs (number_round sheet) (13, 4) (some (13, 4))
    × Runs (skip_round sheet) 13 (some 14)
unfolding sheet_start flags_loop set_flag parse_number_loop skip_digits isdigit load
vsnprintf_loop-Runs_example =
    vsnprintf_loop-Runs sheet_frame 160 16 sheet_start f_none 4 187 (omega arith)
