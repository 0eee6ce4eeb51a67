-- ===== src/Printf/Loop.antt =====
-- src/vsnprintf.cpp: vsnprintf, the conversions that its switch chooses between, and its loop. Each
-- stays shut under the next, since a proof uses lemmas about them.
pub mod Sizes
pub mod Ends
pub mod Kept
pub mod Writes
pub mod Scratch
pub mod NumberTexts
pub mod Numbers
pub mod Texts
pub mod Pieces
pub mod Room
pub mod Steps
pub mod Ready
pub mod Rounds
pub mod Heads
pub mod Reached
pub mod Rendered
pub mod Refinement
pub mod Truncation
pub mod Bounded
pub mod Sample
mod Tests
use osdev_libstdc.Base.{
  List, Option, false, if◌then◌else◌, leb, ltb, none, not, some, suc, true, zero, ℕ, ◌%◌, ◌&&◌, ◌+◌,
  ◌-◌, ◌/◌, ◌==◌, ◌>>=◌, ◌||◌,
}
use osdev_libstdc.Base.Int.{eqb_ℤ, negsuc, pos, ℤ, ◌+ℤ◌, ◌-ℤ◌}
use osdev_libstdc.Memory.{Mem, load, store}
use osdev_libstdc.Printf.Args.{format_signed, read_format_unsigned_int, read_unsigned_number}
use osdev_libstdc.Printf.Field.{format_char, format_number, format_string, next_pointer}
use osdev_libstdc.Printf.Spec.{
  Arg, FormatSpec, LengthSpec, f_none, parse_flags_fw_precision, parse_size_specifier, reset,
}

-- The addresses of the local variable of format_char, of the array of format_number, and of the texts
-- "(null)" and "(nil)".
pub record Frame : Type 0 where
  pub c : ℕ
  pub number_str : ℕ
  pub k_null : ℕ
  pub k_nil : ℕ

-- What a conversion leaves: `pos`, the FormatSpec, memory, and the arguments not read yet.
abbrev pub Converted : Type 0
Converted = ℕ × FormatSpec × Mem × List Arg

-- *pos++ = c; ++formatSpec.total;
pub put_char : Mem → (pos' c : ℕ) → FormatSpec → List Arg → Option Converted
unfolding ◌+ℤ◌
put_char m pos' c spec args = do
  m' ← store m pos' c
  some (pos' + 1, record spec { total = spec.total +ℤ pos 1 }, m', args)

-- A size_t of `n` bytes, the lowest first.
pub store_size : (n : ℕ) → Mem → (p v : ℕ) → Option Mem
store_size zero m p v = some m
store_size (suc n) m p v = do m' ← store m p (v % 256); store_size n m' (p + 1) (v / 256)

-- The case 'n'.
pub store_written : Mem → (pos' written : ℕ) → FormatSpec → List Arg → Option ℕ → Option Converted
unfolding store_size
store_written m pos' written spec args none = some (pos', spec, m, args)
store_written m pos' written spec args (some p) = do
  m' ← store_size 8 m p written
  some (pos', spec, m', args)

-- The FormatSpec of a pointer that is not null; kPointerHexDigits is 16.
abbrev pub pointer_spec : FormatSpec → FormatSpec
pointer_spec spec = record spec {
  flags = record (spec.flags) { f_zero = false; f_space = false; f_plus = false; f_alt = false };
  radix = 16;
  precision =
      if eqb_ℤ (spec.precision) (negsuc 0) && eqb_ℤ (spec.field_width) (negsuc 0)
      then pos 16
      else spec.precision;
}

-- The case 'p'. `past` is size - i.
pub format_pointer :
    Mem → Frame → (pos' : ℕ) → FormatSpec → (room past : ℤ) → List Arg → Option Converted
unfolding read_unsigned_number format_number format_string
format_pointer m frame pos' spec room past args = do
  (value, args') ← read_unsigned_number (spec.length_spec) args
  if ltb 0 value
      then (do
        (pos'', spec', m') ← format_number m (frame.number_str) pos' value (pointer_spec spec) room
        some (pos'', spec', m', args'))
      else format_string m (frame.k_null) pos' spec past args' (some (frame.k_nil))

-- The switch on the specifier `c`, with the room that is left, size - written.
pub dispatch :
    Mem → Frame → (c pos' written : ℕ) → FormatSpec → (room past : ℤ) → List Arg → Option Converted
dispatch m frame c pos' written spec room past args =
    if c == b'%'
    then put_char m pos' c spec args
    else if c == b'd' || c == b'i'
    then format_signed m (frame.number_str) pos' spec room args
    else if c == b'u'
    then read_format_unsigned_int m (frame.number_str) pos'
        (record spec { flags = record (spec.flags) { f_alt = false } }) room args
    else if c == b'o'
    then read_format_unsigned_int m (frame.number_str) pos' (record spec { radix = 8 }) room args
    else if c == b'X'
    then read_format_unsigned_int m (frame.number_str) pos'
        (record spec { radix = 16; flags = record (spec.flags) { f_huge = true } }) room args
    else if c == b'x'
    then read_format_unsigned_int m (frame.number_str) pos' (record spec { radix = 16 }) room args
    else if c == b'p'
    then format_pointer m frame pos' spec room past args
    else if c == b'n'
    then (do (p, args') ← next_pointer args; store_written m pos' written spec args' p)
    else if c == b'c'
    then format_char m (frame.c) pos' spec room args
    else if c == b's'
    then format_string m (frame.k_null) pos' spec room args none
    else put_char m pos' c spec args

-- The variables of the loop.
pub record State : Type 0 where
  pub pos_at : ℕ
  pub fmt : ℕ
  pub i : ℕ
  pub written : ℕ
  pub spec : FormatSpec
  pub mem : Mem
  pub args : List Arg

-- One conversion, from the '%' on.
pub conversion : Frame → (buf size : ℕ) → State → Option State
unfolding ◌-ℤ◌
conversion frame buf size s = do
  (fmt', spec', args') ← parse_flags_fw_precision (s.mem) (s.fmt + 1) (reset (s.spec)) (s.args)
  (fmt'', spec'') ← parse_size_specifier (s.mem) fmt' spec'
  let fl = record (spec''.flags) { f_zero = spec''.flags.f_zero && not (spec''.flags.f_minus) }
  c ← load (s.mem) fmt''
  (pos', spec3, m', args'') ←
      dispatch (s.mem) frame c (s.pos_at) (s.written) (record spec'' { flags = fl })
        (pos size -ℤ pos (s.written)) (pos size -ℤ pos (s.i)) args'
  some (record {
    pos_at = pos';
    fmt = fmt'' + 1;
    i = s.i + 1;
    written = pos' - buf;
    spec = spec3;
    mem = m';
    args = args'';
  })

-- A character of the format that stands for itself.
pub literal : (c : ℕ) → State → Option State
unfolding reset put_char
literal c s = do
  (pos', spec', m', args') ← put_char (s.mem) (s.pos_at) c (reset (s.spec)) (s.args)
  some (record s {
    pos_at = pos';
    fmt = s.fmt + 1;
    i = s.i + 1;
    written = s.written + 1;
    spec = spec';
    mem = m';
  })

pub vsnprintf_loop : ℕ → Frame → (buf size : ℕ) → State → Option State
vsnprintf_loop zero frame buf size s = none
vsnprintf_loop (suc k) frame buf size s = do
  c ← load (s.mem) (s.fmt)
  if c == 0 || leb size (s.written) then some s else do
    s' ← (if c == b'%' then conversion frame buf size s else literal c s)
    vsnprintf_loop k frame buf size s'

pub vsnprintf : Mem → Frame → (buf max_size fmt : ℕ) → List Arg → Option (ℤ × Mem)
vsnprintf m frame buf max_size fmt args =
    if max_size == 0
    then some (pos 0, m)
    else if ltb max_size 2147483647
    then (do
      let spec = reset (record {
        flags = f_none;
        length_spec = LengthSpec.null;
        total = pos 0;
        field_width = negsuc 0;
        precision = negsuc 0;
        negative = false;
        radix = 10;
      })
      s ← vsnprintf_loop (m.size - fmt) frame buf (max_size - 1) (record {
        pos_at = buf;
        fmt = fmt;
        i = 0;
        written = 0;
        spec = spec;
        mem = m;
        args = args;
      })
      m' ← store (s.mem) (s.pos_at) 0
      some (s.spec.total, m'))
    else some (pos 0, m)

-- The limit that sprintf passes on.
abbrev pub sprintf_size : ℕ
sprintf_size = 1024

pub sprintf : Mem → Frame → (buffer fmt : ℕ) → List Arg → Option (ℤ × Mem)
sprintf m frame buffer fmt args = vsnprintf m frame buffer sprintf_size fmt args

pub snprintf : Mem → Frame → (buffer size fmt : ℕ) → List Arg → Option (ℤ × Mem)
snprintf m frame buffer size fmt args = vsnprintf m frame buffer size fmt args
