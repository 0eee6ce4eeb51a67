-- ===== src/Printf/Loop/Pieces.antt =====
-- What formatted output is to be: a format as a list of pieces, and the text of each.
use osdev_libstdc.Base.{
  Bool, List, Option, [], false, if◌then◌else◌, length, not, some, true, ℕ, ◌&&◌, ◌++◌, ◌+◌, ◌<◌,
  ◌==◌, ◌^◌, ◌∷◌, ◌≡◌,
}
use osdev_libstdc.Base.Int.{eqb_ℤ, negsuc, pos, pos_part, to_unsigned, ℤ}
use osdev_libstdc.Memory.{IsString, Mem}
use osdev_libstdc.Printf.Args.Laws.{magnitude_of, signed_of, signed_spec, sized_arg, unsigned_of}
use osdev_libstdc.Printf.Field.{or_null}
use osdev_libstdc.Printf.Field.Strings.{cut_string}
use osdev_libstdc.Printf.Loop.{Frame}
use osdev_libstdc.Printf.Loop.Kept.{Separate}
use osdev_libstdc.Printf.Loop.NumberTexts.{IsNumeric, number_field}
use osdev_libstdc.Printf.Loop.Writes.{in_field}
use osdev_libstdc.Printf.Number.{max_number_len}
use osdev_libstdc.Printf.Spec.{Arg, FormatSpec, LengthSpec, f_none, int_arg, pointer_arg}
use osdev_libstdc.Printf.Spec.Sizes.{specifier_text}
use osdev_libstdc.Printf.Spec.Specifiers.{
  big_hex-IsSpecifier, hex-IsSpecifier, integer-IsSpecifier, octal-IsSpecifier, signed-IsSpecifier,
  unsigned-IsSpecifier,
}
use osdev_libstdc.Printf.Spec.Written.{
  Directive, IsDirective, IsSpecifier, directive_args, directive_text, parsed,
}

pub data Base : Type 0 where
  decimal_base octal_base hex_base big_hex_base : Base

-- The two names of one conversion.
pub data SignedName : Type 0 where
  d_name i_name : SignedName

-- A piece of a format, with the arguments that it takes.
pub data Piece : Type 0 where
  plain_piece : ℕ → Piece  -- a character that is not '%'
  percent_piece : Piece  -- %%
  signed_piece : SignedName → LengthSpec → Directive → ℤ → Piece  -- %d, %i
  unsigned_piece : Base → LengthSpec → Directive → ℤ → Piece  -- %u, %o, %x, %X
  pointer_piece : Directive → (p : ℕ) → Piece  -- %p, of an address that is not null
  char_piece : Directive → ℤ → Piece  -- %c
  -- %s, with the string `s` at `p`, or at k_null if that is null
  string_piece : Directive → (p : Option ℕ) → (s : List ℕ) → Piece

abbrev pub specifier : Base → ℕ
specifier decimal_base = b'u'
specifier octal_base = b'o'
specifier hex_base = b'x'
specifier big_hex_base = b'X'

abbrev pub signed_letter : SignedName → ℕ
signed_letter d_name = b'd'
signed_letter i_name = b'i'

pub signed_letter-IsSpecifier : (x : SignedName) → IsSpecifier (signed_letter x)
signed_letter-IsSpecifier d_name = signed-IsSpecifier
signed_letter-IsSpecifier i_name = integer-IsSpecifier

pub specifier-IsSpecifier : (b : Base) → IsSpecifier (specifier b)
specifier-IsSpecifier decimal_base = unsigned-IsSpecifier
specifier-IsSpecifier octal_base = octal-IsSpecifier
specifier-IsSpecifier hex_base = hex-IsSpecifier
specifier-IsSpecifier big_hex_base = big_hex-IsSpecifier

-- How a piece is written in a format.
abbrev pub piece_format : Piece → List ℕ
piece_format (plain_piece c) = c ∷ []
piece_format percent_piece = b'%' ∷ b'%' ∷ []
piece_format (signed_piece x ls d v) =
    b'%' ∷ (directive_text d ++ specifier_text ls (signed_letter x))
piece_format (unsigned_piece b ls d v) =
    b'%' ∷ (directive_text d ++ specifier_text ls (specifier b))
piece_format (pointer_piece d p) = b'%' ∷ (directive_text d ++ b'p' ∷ [])
piece_format (char_piece d v) = b'%' ∷ (directive_text d ++ b'c' ∷ [])
piece_format (string_piece d p s) = b'%' ∷ (directive_text d ++ b's' ∷ [])

-- The arguments of a piece, before those of the next.
abbrev pub piece_args : Piece → List Arg → List Arg
piece_args (plain_piece c) args = args
piece_args percent_piece args = args
piece_args (signed_piece x ls d v) args = directive_args d (sized_arg ls v ∷ args)
piece_args (unsigned_piece b ls d v) args = directive_args d (sized_arg ls v ∷ args)
piece_args (pointer_piece d p) args = directive_args d (pointer_arg (some p) ∷ args)
piece_args (char_piece d v) args = directive_args d (int_arg v ∷ args)
piece_args (string_piece d p s) args = directive_args d (pointer_arg p ∷ args)

-- The FormatSpec of a directive: the minus flag clears the zero flag.
abbrev pub spec_of : Directive → FormatSpec → FormatSpec
spec_of d base =
    let spec = parsed d base in
    record spec {
      flags = record (spec.flags) { f_zero = spec.flags.f_zero && not (spec.flags.f_minus) };
    }

abbrev pub start_spec : (total : ℤ) → FormatSpec
start_spec total = record {
  flags = f_none;
  length_spec = LengthSpec.null;
  total = total;
  field_width = negsuc 0;
  precision = negsuc 0;
  negative = false;
  radix = 10;
}

-- What the case of the base makes of the radix, F_ALT and F_HUGE.
abbrev pub base_radix : Base → ℕ → ℕ
base_radix decimal_base radix = radix
base_radix octal_base radix = 8
base_radix hex_base radix = 16
base_radix big_hex_base radix = 16

abbrev pub base_alt : Base → Bool → Bool
base_alt decimal_base alt = false
base_alt octal_base alt = alt
base_alt hex_base alt = alt
base_alt big_hex_base alt = alt

abbrev pub base_huge : Base → Bool → Bool
base_huge decimal_base huge = huge
base_huge octal_base huge = huge
base_huge hex_base huge = huge
base_huge big_hex_base huge = true

abbrev pub base_spec : Base → FormatSpec → FormatSpec
base_spec b spec = record spec {
  radix = base_radix b (spec.radix);
  flags = record (spec.flags) {
    f_alt = base_alt b (spec.flags.f_alt);
    f_huge = base_huge b (spec.flags.f_huge);
  };
}

abbrev pub unsigned_spec : Base → FormatSpec → FormatSpec
unsigned_spec b spec =
    let based = base_spec b spec in
    record based { flags = record (based.flags) { f_space = false; f_plus = false } }

-- An address is written in base 16, with nothing in front of it and 16 digits, unless a width or a
-- precision is given.
abbrev pub address_spec : FormatSpec → FormatSpec
address_spec spec = record {
  flags = record f_none { f_minus = spec.flags.f_minus; f_huge = spec.flags.f_huge };
  length_spec = spec.length_spec;
  total = spec.total;
  field_width = spec.field_width;
  precision =
      if eqb_ℤ (spec.precision) (negsuc 0) && eqb_ℤ (spec.field_width) (negsuc 0)
      then pos 16
      else spec.precision;
  negative = spec.negative;
  radix = 16;
}

-- The text of a piece.
abbrev pub rendered : Piece → List ℕ
rendered (plain_piece c) = c ∷ []
rendered percent_piece = b'%' ∷ []
rendered (signed_piece x ls d v) =
    let spec = signed_spec (signed_of ls v) (spec_of d (start_spec (pos 0))) in
    number_field spec (magnitude_of (signed_of ls v))
rendered (unsigned_piece b ls d v) =
    let spec = unsigned_spec b (spec_of d (start_spec (pos 0))) in
    number_field spec (unsigned_of ls v)
rendered (pointer_piece d p) = number_field (address_spec (spec_of d (start_spec (pos 0)))) p
rendered (char_piece d v) = in_field (spec_of d (start_spec (pos 0))) (to_unsigned 8 v ∷ [])
rendered (string_piece d p s) =
    let spec = spec_of d (start_spec (pos 0)) in in_field spec (cut_string (spec.precision) s)

-- A piece that is supported, where its string, if it has one, stands in `m` outside the `n` addresses
-- from `p` on and the frame's variables: its directive is well formed, and a number fits the array.
abbrev pub IsPiece : Frame → (p n : ℕ) → Mem → Piece → Type 0
IsPiece f p n m (plain_piece c) = ((c == 0) ≡ false) × ((c == b'%') ≡ false)
IsPiece f p n m percent_piece = Unit
IsPiece f p n m (signed_piece x ls d v) =
    IsDirective d
    × (magnitude_of (signed_of ls v) < 2 ^ 63)
    × IsNumeric (signed_spec (signed_of ls v) (spec_of d (start_spec (pos 0))))
        (magnitude_of (signed_of ls v))
IsPiece f p n m (unsigned_piece b ls d v) =
    IsDirective d × IsNumeric (unsigned_spec b (spec_of d (start_spec (pos 0)))) (unsigned_of ls v)
IsPiece f p n m (pointer_piece d a) =
    let spec = address_spec (spec_of d (start_spec (pos 0))) in
    IsDirective d × (0 < a) × (a < 2 ^ 64) × (pos_part (spec.precision) < max_number_len)
IsPiece f p n m (char_piece d v) = IsDirective d
IsPiece f p n m (string_piece d q s) =
    IsDirective d
    × IsString m (or_null (f.k_null) q) s
    × Separate f p n (or_null (f.k_null) q) (length s + 1)

-- The first character of a piece.
abbrev pub first : Piece → ℕ
first (plain_piece c) = c
first percent_piece = b'%'
first (signed_piece x ls d v) = b'%'
first (unsigned_piece b ls d v) = b'%'
first (pointer_piece d a) = b'%'
first (char_piece d v) = b'%'
first (string_piece d q s) = b'%'

-- The same of a list of pieces.
abbrev pub format_text : List Piece → List ℕ
format_text [] = []
format_text (pc ∷ ps) = piece_format pc ++ format_text ps

abbrev pub all_args : List Piece → List Arg → List Arg
all_args [] args = args
all_args (pc ∷ ps) args = piece_args pc (all_args ps args)

abbrev pub rendered_all : List Piece → List ℕ
rendered_all [] = []
rendered_all (pc ∷ ps) = rendered pc ++ rendered_all ps

abbrev pub ArePieces : Frame → (p n : ℕ) → Mem → List Piece → Type 0
ArePieces f p n m [] = Unit
ArePieces f p n m (pc ∷ ps) = IsPiece f p n m pc × ArePieces f p n m ps
