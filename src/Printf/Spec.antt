-- ===== src/Printf/Spec.antt =====
-- src/vsnprintf.cpp: the state of a conversion and the functions that read its specification. `fmt` is
-- an address in memory. An `int` that would overflow is a fault, as is an argument of another type
-- than the one that is asked for; C leaves both undefined.
pub mod Decimal
pub mod Flags
pub mod Written
pub mod Directive
pub mod Specifiers
pub mod Sizes
pub mod Advance
pub mod Runs
use osdev_libstdc.Base.{
  Bool, List, Option, ap, false, if◌then◌else◌, ltb, none, not, some, suc, true, zero, ℕ, ◌*◌, ◌+◌,
  ◌-◌, ◌==◌, ◌>>=◌, ◌∷◌,
}
use osdev_libstdc.Base.Int.{negsuc, pos, schar, ℤ}
use osdev_libstdc.Ctype.{isdigit}
use osdev_libstdc.Memory.{Mem, load}

pub data LengthSpec : Type 0 where
  null h hh l ll z t : LengthSpec

-- The bits of FormatFlags.
pub record FormatFlags : Type 0 where
  pub f_minus : Bool
  pub f_plus : Bool
  pub f_space : Bool
  pub f_alt : Bool
  pub f_zero : Bool
  pub f_huge : Bool

pub record FormatSpec : Type 0 where
  pub flags : FormatFlags
  pub length_spec : LengthSpec
  pub total : ℤ
  pub field_width : ℤ
  pub precision : ℤ
  pub negative : Bool
  pub radix : ℕ

abbrev pub f_none : FormatFlags
f_none = record {
  f_minus = false;
  f_plus = false;
  f_space = false;
  f_alt = false;
  f_zero = false;
  f_huge = false;
}

-- FormatSpec::reset, which keeps `total`.
unfoldable pub reset : FormatSpec → FormatSpec
reset spec = record {
  flags = f_none;
  length_spec = LengthSpec.null;
  total = spec.total;
  field_width = negsuc 0;
  precision = negsuc 0;
  negative = false;
  radix = 10;
}

-- The arguments that va_arg has not read yet.
pub data Arg : Type 0 where
  int_arg : ℤ → Arg
  wide_arg : ℤ → Arg
  pointer_arg : Option ℕ → Arg

-- va_arg(w.ap, int)
unfoldable pub next_int : List Arg → Option (ℤ × List Arg)
next_int (int_arg i ∷ ap) = some (i, ap)
next_int ap = none

abbrev pub int_limit : ℕ
int_limit = 2147483648

-- The loop of parse_number.
unfoldable pub parse_number_loop : ℕ → Mem → (str v : ℕ) → Option (ℕ × ℕ)
unfolding isdigit
parse_number_loop zero m str v = none
parse_number_loop (suc k) m str v = do
  c ← load m str
  if isdigit (schar c)
      then (if ltb (v * 10 + (c - b'0')) int_limit
          then parse_number_loop k m (str + 1) (v * 10 + (c - b'0'))
          else none)
      else some (str, v)

-- The address behind the digits, and `out`.
pub parse_number : Mem → (str : ℕ) → Option (ℕ × ℕ)
unfolding parse_number_loop
parse_number m str = parse_number_loop (m.size - str) m str 0

-- The flags after the character `c`, if the switch has a case for it.
unfoldable pub set_flag : FormatFlags → ℕ → Option FormatFlags
set_flag fl c =
    if c == b'#'
    then some (record fl { f_alt = true })
    else if c == 32
    then some (record fl { f_space = true })
    else if c == b'0'
    then some (record fl { f_zero = true })
    else if c == b'-'
    then some (record fl { f_minus = true })
    else if c == b'+'
    then some (record fl { f_plus = true })
    else none

unfoldable pub flags_loop : ℕ → Mem → ℕ → FormatFlags → Option (ℕ × FormatFlags)
unfolding set_flag
flags_loop zero m fmt fl = none
flags_loop (suc k) m fmt fl = do
  c ← load m fmt
  elim (set_flag fl c) [ some fl' ↦ flags_loop k m (fmt + 1) fl' | none ↦ some (fmt, fl) ]

-- while (isdigit(*++fmt)) {}
unfoldable pub skip_digits : ℕ → Mem → ℕ → Option ℕ
unfolding isdigit
skip_digits zero m fmt = none
skip_digits (suc k) m fmt = do
  c ← load m (fmt + 1)
  if isdigit (schar c) then skip_digits k m (fmt + 1) else some (fmt + 1)

-- The part of parse_flags_fw_precision that reads the field width.
pub parse_field_width : Mem → ℕ → FormatSpec → List Arg → Option (ℕ × FormatSpec × List Arg)
unfolding isdigit parse_number next_int
parse_field_width m fmt spec ap = do
  c ← load m fmt
  if c == b'*'
      then (do (w, ap') ← next_int ap; some (fmt + 1, record spec { field_width = w }, ap'))
      else if isdigit (schar c)
      then (do (fmt', w) ← parse_number m fmt; some (fmt', record spec { field_width = pos w }, ap))
      else if c == b'-'
      then (do
        let left = record spec { flags = record (spec.flags) { f_minus = true } }
        d ← load m (fmt + 2)
        if isdigit (schar d)
            then (do
              (fmt', w) ← parse_number m (fmt + 2)
              some (fmt', record left { field_width = pos w }, ap))
            else some (fmt + 2, left, ap))
      else some (fmt, spec, ap)

-- The part of parse_flags_fw_precision that reads the precision.
pub parse_precision : Mem → ℕ → FormatSpec → List Arg → Option (ℕ × FormatSpec × List Arg)
unfolding isdigit parse_number next_int skip_digits
parse_precision m fmt spec ap = do
  c ← load m fmt
  if not (c == b'.') then some (fmt, spec, ap) else do
    let given = record spec { precision = pos 0; flags = record (spec.flags) { f_zero = false } }
    d ← load m (fmt + 1)
    if d == b'*'
        then (do (p, ap') ← next_int ap; some (fmt + 2, record given { precision = p }, ap'))
        else if d == b'-'
        then (do
          fmt' ← skip_digits (m.size - (fmt + 1)) m (fmt + 1)
          some (fmt', record given { precision = negsuc 0 }, ap))
        else if isdigit (schar d)
        then (do
          (fmt', p) ← parse_number m (fmt + 1)
          some (fmt', record given { precision = pos p }, ap))
        else some (fmt + 1, given, ap)

unfoldable pub parse_flags_fw_precision :
    Mem → (fmt : ℕ) → FormatSpec → List Arg → Option (ℕ × FormatSpec × List Arg)
unfolding flags_loop parse_field_width parse_precision
parse_flags_fw_precision m fmt spec ap = do
  (fmt', fl) ← flags_loop (m.size - fmt) m fmt (spec.flags)
  (fmt'', spec', ap') ← parse_field_width m fmt' (record spec { flags = fl }) ap
  parse_precision m fmt'' spec' ap'

unfoldable pub parse_size_specifier : Mem → (fmt : ℕ) → FormatSpec → Option (ℕ × FormatSpec)
parse_size_specifier m fmt spec = do
  c ← load m fmt
  if c == b'h'
      then (do
        d ← load m (fmt + 1)
        some (
            if d == b'h'
            then (fmt + 2, record spec { length_spec = LengthSpec.hh })
            else (fmt + 1, record spec { length_spec = LengthSpec.h })))
      else if c == b'l'
      then (do
        d ← load m (fmt + 1)
        some (
            if d == b'l'
            then (fmt + 2, record spec { length_spec = LengthSpec.ll })
            else (fmt + 1, record spec { length_spec = LengthSpec.l })))
      else if c == b'z'
      then some (fmt + 1, record spec { length_spec = LengthSpec.z })
      else if c == b't'
      then some (fmt + 1, record spec { length_spec = LengthSpec.t })
      else some (fmt, spec)
