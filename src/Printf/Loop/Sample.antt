-- ===== src/Printf/Loop/Sample.antt =====
-- A call of vsnprintf with a format of several pieces, in memory.
use osdev_libstdc.Base.{
  List, Option, [], arith, get_elem?, inl, inr, length, none, refl, replicate, some, suc, zero, ℕ,
  ◌++◌, ◌+◌, ◌∷◌, ◌≡◌, ◌≤◌,
}
use osdev_libstdc.Base.Int.{negsuc, pos, ◌-ℤ◌}
use osdev_libstdc.Memory.{Mapped, Mem, load}
use osdev_libstdc.Printf.Loop.{Frame}
use osdev_libstdc.Printf.Loop.Pieces.{
  IsPiece, Piece, big_hex_base, i_name, percent_piece, plain_piece, rendered_all, signed_piece,
  string_piece, unsigned_piece,
}
use osdev_libstdc.Printf.Loop.Refinement.{IsCall}
use osdev_libstdc.Printf.Number.Radix.{numeral}
use osdev_libstdc.Printf.Spec.{LengthSpec}
use osdev_libstdc.Printf.Spec.Written.{
  IsDirective, no_precision, no_width, precision_digits, width_argument, width_digits,
}

-- The format "n=%-*i%#06lX %.1s%%", from address 1 on, and the string "ab" at 40.
abbrev sheet_bytes : List ℕ
sheet_bytes =
    0
    ∷ b'n'
    ∷ b'='
    ∷ b'%'
    ∷ b'-'
    ∷ b'*'
    ∷ b'i'
    ∷ b'%'
    ∷ b'#'
    ∷ b'0'
    ∷ b'6'
    ∷ b'l'
    ∷ b'X'
    ∷ 32
    ∷ b'%'
    ∷ b'.'
    ∷ b'1'
    ∷ b's'
    ∷ b'%'
    ∷ b'%'
    ∷ 0
    ∷ (replicate 19 0 ++ b'a' ∷ b'b' ∷ 0 ∷ [])

abbrev or_zero : Option ℕ → ℕ
or_zero (some c) = c
or_zero none = 0

abbrev pub sheet : Mem
sheet = record { size = 200; cell = λ q. some (or_zero (get_elem? sheet_bytes q)) }

-- The frame's variables from 60 on.
abbrev pub sheet_frame : Frame
sheet_frame = record { c = 150; number_str = 60; k_null = 50; k_nil = 55 }

abbrev pub sheet_pieces : List Piece
sheet_pieces =
    plain_piece b'n'
    ∷ plain_piece b'='
    ∷ signed_piece i_name LengthSpec.null
        (record { flags = b'-' ∷ []; width = width_argument (pos 4); precision = no_precision })
        (negsuc 6)
    ∷ unsigned_piece big_hex_base LengthSpec.l
        (record {
          flags = b'#' ∷ b'0' ∷ [];
          width = width_digits b'6' [];
          precision = no_precision;
        })
        (pos 255)
    ∷ plain_piece 32
    ∷ string_piece (record { flags = []; width = no_width; precision = precision_digits b'1' [] })
        (some 40) (b'a' ∷ b'b' ∷ [])
    ∷ percent_piece
    ∷ []

-- "n=-7  0X00FF a%"
abbrev pub sheet_text : List ℕ
sheet_text =
    b'n' ∷ b'=' ∷ b'-' ∷ b'7' ∷ 32 ∷ 32 ∷ b'0' ∷ b'X' ∷ b'0' ∷ b'0' ∷ b'F' ∷ b'F' ∷ 32 ∷ b'a' ∷ b'%'
    ∷ []

pub rendered_all-sheet_pieces : rendered_all sheet_pieces ≡ sheet_text
unfolding numeral ◌-ℤ◌
rendered_all-sheet_pieces = refl

sheet-Mapped : (p n : ℕ) → p + n ≤ 200 → Mapped sheet p n
unfolding load
sheet-Mapped p zero h = tt
sheet-Mapped p (suc n) h = (ground arith, sheet-Mapped (p + 1) n (omega arith))

left_four :
    IsDirective
      (record { flags = b'-' ∷ []; width = width_argument (pos 4); precision = no_precision })
left_four = record { flags_ok = (inr (inr (inr (inl refl))), tt); width_ok = tt; precision_ok = tt }

zero_six :
    IsDirective
      (record { flags = b'#' ∷ b'0' ∷ []; width = width_digits b'6' []; precision = no_precision })
zero_six = record {
  flags_ok = (inl refl, (inr (inr (inl refl)), tt));
  width_ok = ((omega arith, omega arith, tt), omega arith, omega arith);
  precision_ok = tt;
}

one_char :
    IsDirective (record { flags = []; width = no_width; precision = precision_digits b'1' [] })
one_char = record {
  flags_ok = tt;
  width_ok = tt;
  precision_ok = ((omega arith, omega arith, tt), omega arith);
}

abbrev IsSheetPiece : Piece → Type 0
IsSheetPiece = IsPiece sheet_frame 160 16 sheet

signed_ok : IsSheetPiece (
    signed_piece i_name LengthSpec.null
      (record { flags = b'-' ∷ []; width = width_argument (pos 4); precision = no_precision })
      (negsuc 6))
signed_ok = (left_four, omega arith, (inr (inl refl), omega arith, inl (refl, omega arith)))

hex_ok : IsSheetPiece (
    unsigned_piece big_hex_base LengthSpec.l
      (record { flags = b'#' ∷ b'0' ∷ []; width = width_digits b'6' []; precision = no_precision })
      (pos 255))
hex_ok =
    (zero_six, (inr (inr refl), omega arith, inr (refl, refl, inr (6, refl), omega arith, refl)))

string_ok : IsSheetPiece (
    string_piece
      (record { flags = []; width = no_width; precision = precision_digits b'1' [] })
      (some 40)
      (b'a' ∷ b'b' ∷ []))
unfolding load
string_ok = (
  one_char,
  (ground arith, ground arith),
  (inr (omega arith), inr (omega arith), inr (omega arith)),
)

pub sheet-IsCall : IsCall sheet sheet_frame 160 (length sheet_text) 1 sheet_pieces 0
unfolding load
sheet-IsCall = record {
  mapped = record {
    digits_room = sheet-Mapped 60 66 (omega arith);
    char_room = refl;
    out_room = sheet-Mapped 160 16 (omega arith);
  };
  apart_digits = inr (omega arith);
  apart_char = inr (omega arith);
  format_there = ground arith;
  format_apart = (inr (omega arith), inr (omega arith), inr (omega arith));
  pieces =
      ((refl, refl), ((refl, refl), (signed_ok, (hex_ok, ((refl, refl), (string_ok, (tt, tt)))))));
}

string_ok_short : IsPiece sheet_frame 160 9 sheet (
    string_piece
      (record { flags = []; width = no_width; precision = precision_digits b'1' [] })
      (some 40)
      (b'a' ∷ b'b' ∷ []))
unfolding load
string_ok_short = (
  one_char,
  (ground arith, ground arith),
  (inr (omega arith), inr (omega arith), inr (omega arith)),
)

-- The same format with a buffer of 9 characters.
pub sheet-IsCall_short : IsCall sheet sheet_frame 160 8 1 sheet_pieces 0
unfolding load
sheet-IsCall_short = record {
  mapped = record {
    digits_room = sheet-Mapped 60 66 (omega arith);
    char_room = refl;
    out_room = sheet-Mapped 160 9 (omega arith);
  };
  apart_digits = inr (omega arith);
  apart_char = inr (omega arith);
  format_there = ground arith;
  format_apart = (inr (omega arith), inr (omega arith), inr (omega arith));
  pieces = (
    (refl, refl),
    ((refl, refl), (signed_ok, (hex_ok, ((refl, refl), (string_ok_short, (tt, tt)))))),
  );
}
