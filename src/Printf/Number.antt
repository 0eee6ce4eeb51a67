-- ===== src/Printf/Number.antt =====
-- src/vsnprintf.cpp: number_to_string. Its array `num_str` is the list of what has been written to it,
-- the last first; a character more than it has room for is a fault. The `int` `p` is an integer: it
-- does not overflow where the precision is at least 22 above the least `int`.
pub mod Digits
pub mod Laws
pub mod Sizes
pub mod Radix
pub mod Numeral
use osdev_libstdc.Base.{
  Bool, List, Option, [], drop, get_elem?, if◌then◌else◌, length, ltb, none, some, suc, zero, ℕ,
  ◌%◌, ◌&&◌, ◌+◌, ◌-◌, ◌/◌, ◌==◌, ◌>>=◌, ◌∷◌,
}
use osdev_libstdc.Base.Int.{eqb_ℤ, pos, pos_part, ℤ, ◌-ℤ◌}
use osdev_libstdc.Memory.{Mem, store}
use osdev_libstdc.Printf.Spec.{FormatSpec}
use mathlib.Core.Option
use Prim.Native.Nat.{min}

abbrev pub max_number_len : ℕ
max_number_len = 66

-- The table `digits`.
abbrev pub digit_chars : (huge : Bool) → List ℕ
digit_chars huge =
    b'0'
    ∷ b'1'
    ∷ b'2'
    ∷ b'3'
    ∷ b'4'
    ∷ b'5'
    ∷ b'6'
    ∷ b'7'
    ∷ b'8'
    ∷ b'9'
    ∷ (if huge
        then b'A' ∷ b'B' ∷ b'C' ∷ b'D' ∷ b'E' ∷ b'F' ∷ []
        else b'a' ∷ b'b' ∷ b'c' ∷ b'd' ∷ b'e' ∷ b'f' ∷ [])

-- num_str[number_len++] = c;
pub push : List ℕ → ℕ → Option (List ℕ)
push num_str c = if ltb (length num_str) max_number_len then some (c ∷ num_str) else none

-- while (nr != 0): a round that finds `num_str` full is a fault, so that there are at most as many
-- rounds as it has characters, and the test that ends them.
pub digits_loop : ℕ → (huge : Bool) → (radix nr : ℕ) → List ℕ → Option (List ℕ)
unfolding push
digits_loop zero huge radix nr num_str = none
digits_loop (suc k) huge radix nr num_str = if nr == 0 then some num_str else do
  c ← get_elem? (digit_chars huge) (nr % radix)
  num_str' ← push num_str c
  digits_loop k huge radix (nr / radix) num_str'

-- while (zero_count > 0)
pub zeros_loop : (zero_count : ℕ) → List ℕ → Option (List ℕ)
unfolding push
zeros_loop zero num_str = some num_str
zeros_loop (suc n) num_str = do num_str' ← push num_str b'0'; zeros_loop n num_str'

-- The prefix of the alternate form.
pub push_prefix : (huge : Bool) → (radix : ℕ) → List ℕ → Option (List ℕ)
unfolding push
push_prefix huge radix num_str =
    if radix == 8
    then push num_str b'0'
    else if radix == 16
    then (do num_str' ← push num_str (if huge then b'X' else b'x'); push num_str' b'0')
    else some num_str

-- *buf++ = c; for each character.
pub out_loop : Mem → (buf : ℕ) → List ℕ → Option Mem
out_loop m buf [] = some m
out_loop m buf (c ∷ cs) = do m' ← store m buf c; out_loop m' (buf + 1) cs

-- `p` without the characters of the prefix, where the zero flag stands for a precision.
pub zeros_wanted : FormatSpec → (number : ℕ) → (p : ℤ) → ℤ
unfolding ◌-ℤ◌
zeros_wanted spec number p =
    if spec.flags.f_zero && spec.flags.f_alt && ltb 0 number
    then (if spec.radix == 8 then p -ℤ pos 1 else if spec.radix == 16 then p -ℤ pos 2 else p)
    else p

unfoldable pub number_to_string :
    Mem → (buf number : ℕ) → FormatSpec → (size : ℕ) → Option (ℕ × Mem)
unfolding push digits_loop zeros_loop push_prefix out_loop zeros_wanted ◌-ℤ◌
number_to_string m buf number spec size =
    if eqb_ℤ (spec.precision) (pos 0) && (number == 0) then some (0, m) else do
      whole ←
          (if number == 0
            then push [] b'0'
            else digits_loop (max_number_len + 1) (spec.flags.f_huge) (spec.radix) number [])
      let p = zeros_wanted spec number (spec.precision -ℤ pos (length whole))
      filled ← zeros_loop (min (pos_part p) size) whole
      num_str ←
          (if spec.flags.f_alt && ltb 0 number
            then push_prefix (spec.flags.f_huge) (spec.radix) filled
            else some filled)
      let number_len = min (length num_str) size
      m' ← out_loop m buf (drop (length num_str - number_len) num_str)
      some (number_len, m')
