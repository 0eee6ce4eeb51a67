-- ===== src/Printf/Number/Laws.antt =====
-- Lemmas on number_to_string.
use osdev_libstdc.Base.{
  Bool-cases, List, Option, [], ap, arith, false, if◌then◌else◌, inl, inr, is_some, length, ltb,
  none, refl, some, true, ℕ, ◌&&◌, ◌+◌, ◌-◌, ◌<◌, ◌==◌, ◌^◌, ◌∙◌, ◌∷◌, ◌≡◌, ◌≤◌,
}
use osdev_libstdc.Base.Int.{eqb_ℤ, negsuc, pos, pos_part, ℤ, ◌-ℤ◌}
use osdev_libstdc.Ctype.{isdigit}
use osdev_libstdc.Memory.{Bytes, Mapped, Mem, load, write, write_list}
use osdev_libstdc.Memory.Laws.{
  Bytes-write, Bytes-write_list_self, Mapped-get, Mapped-sub, is_some-load-write_list,
  load-write_self,
}
use osdev_libstdc.Printf.Number.{
  digits_loop, max_number_len, number_to_string, out_loop, push, push_prefix, zeros_loop,
  zeros_wanted,
}
use osdev_libstdc.Printf.Number.Digits.{
  digits_loop-decimal, out_loop-write_list, zeros_loop-decimal, zeros_loop_full,
}
use osdev_libstdc.Printf.Spec.{FormatSpec, int_limit, parse_number}
use osdev_libstdc.Printf.Spec.Decimal.{AreDigits, decimal, parse_number-decimal}
use Prim.Native.Nat.{min}

-- The digits of a number other than 0, or of 0, before zeros and a prefix.
abbrev whole : FormatSpec → ℕ → Option (List ℕ)
whole spec number =
    if number == 0
    then push [] b'0'
    else digits_loop (max_number_len + 1) (spec.flags.f_huge) 10 number []

-- An `unsigned long long` has at most 20 decimal digits, so that the array has room for them.
whole-decimal :
    (spec : FormatSpec) (number : ℕ)
    → number < 2 ^ 64
    → (num_str : List ℕ) × (whole spec number ≡ some num_str)
      × AreDigits num_str
      × (decimal 0 num_str ≡ number)
      × (length num_str ≤ 20)
      × (0 < length num_str)
unfolding push
whole-decimal spec number low = elim (Bool-cases (number == 0)) [
  | inl e ↦
      (b'0' ∷ [], rw e refl, (omega arith, omega arith, tt), ground arith, omega arith, omega arith)
  | inr ne ↦
      let (num_str, e, ds, val, len, grown, more) =
        digits_loop-decimal 67 20 (spec.flags.f_huge) number [] (omega arith) (omega arith)
          (omega arith) tt in
      (num_str, rw ne e, ds, val, len, more (ground arith))
]

pub pos_part-sub : (a : ℤ) (n : ℕ) → pos_part (a -ℤ pos n) ≡ pos_part a - n
unfolding ◌-ℤ◌
pos_part-sub (pos k) n = ground arith
pos_part-sub (negsuc k) n = ground arith

-- The characters of the number before zeros and a prefix.
abbrev pub collected : FormatSpec → ℕ → Option (List ℕ)
collected spec number =
    if number == 0
    then push [] b'0'
    else digits_loop (max_number_len + 1) (spec.flags.f_huge) (spec.radix) number []

-- How number_to_string is put together.
pub number_to_string_lem :
    (m m' : Mem) (buf number : ℕ) (spec : FormatSpec) (w z s : List ℕ)
    → eqb_ℤ (spec.precision) (pos 0) && (number == 0) ≡ false
    → collected spec number ≡ some w
    → zeros_loop (min (pos_part (zeros_wanted spec number (spec.precision -ℤ pos (length w)))) 66) w
      ≡ some z
    → (if spec.flags.f_alt && ltb 0 number
        then push_prefix (spec.flags.f_huge) (spec.radix) z
        else some z)
      ≡ some s
    → length s ≤ 66
    → out_loop m buf s ≡ some m'
    → number_to_string m buf number spec 66 ≡ some (length s, m')
unfolding number_to_string
number_to_string_lem m m' buf number spec w z s some_text ew ez es fits done =
    let all : min (length s) 66 ≡ length s = omega arith in
    let nothing : length s - length s ≡ 0 = omega arith in
    rw (some_text, ew, ez, es, all, nothing, done) refl

no_prefix_wanted :
    (spec : FormatSpec) (number : ℕ) (p : ℤ)
    → spec.flags.f_alt ≡ false
    → zeros_wanted spec number p ≡ p
unfolding zeros_wanted
no_prefix_wanted spec number p plain = elim (Bool-cases (spec.flags.f_zero)) [
  | inl e ↦ rw (plain, e) refl
  | inr e ↦ rw (plain, e) refl
]

-- The same where there is no prefix.
pub number_to_string_plain :
    (m m' : Mem) (buf number : ℕ) (spec : FormatSpec) (w s : List ℕ)
    → spec.flags.f_alt ≡ false
    → eqb_ℤ (spec.precision) (pos 0) && (number == 0) ≡ false
    → collected spec number ≡ some w
    → zeros_loop (min (pos_part (spec.precision -ℤ pos (length w))) 66) w ≡ some s
    → length s ≤ 66
    → out_loop m buf s ≡ some m'
    → number_to_string m buf number spec 66 ≡ some (length s, m')
number_to_string_plain m m' buf number spec w s plain some_text ew es fits done =
    number_to_string_lem m m' buf number spec w s s some_text ew
      (rw (no_prefix_wanted spec number (spec.precision -ℤ pos (length w)) plain) es)
      (rw plain refl) fits done

collected_of_ten :
    (spec : FormatSpec) (number : ℕ) (w : List ℕ)
    → spec.radix ≡ 10
    → whole spec number ≡ some w
    → collected spec number ≡ some w
collected_of_ten spec number w ten e = rw ten e

-- Without the alternate form number_to_string writes decimal digits that stand for the number, at
-- least as many as the precision asks for, and nothing else.
number_to_string-digits :
    (m : Mem) (buf number : ℕ) (spec : FormatSpec)
    → spec.radix ≡ 10
    → spec.flags.f_alt ≡ false
    → pos_part (spec.precision) ≤ max_number_len
    → eqb_ℤ (spec.precision) (pos 0) && (number == 0) ≡ false
    → number < 2 ^ 64
    → Mapped m buf max_number_len
    → (s : List ℕ) × (number_to_string m buf number spec max_number_len
        ≡ some (length s, write_list m buf s))
      × AreDigits s
      × (decimal 0 s ≡ number)
      × (pos_part (spec.precision) ≤ length s)
      × (length s ≤ max_number_len)
number_to_string-digits m buf number spec ten plain short some_text low room =
    let (w, ew, dw, vw, lw, above) = whole-decimal spec number low in
    let count : pos_part (spec.precision -ℤ pos (length w)) ≡ pos_part (spec.precision) - length w =
      pos_part-sub (spec.precision) (length w) in
    let n = min (pos_part (spec.precision -ℤ pos (length w))) 66 in
    let (s, es, ds, vs, ls) = zeros_loop-decimal n w (omega (arith, count)) dw in
    let fits : length s ≤ 66 = omega (arith, count, ls) in
    let all : min (length s) 66 ≡ length s = omega arith in
    (
      s,
      number_to_string_plain m (write_list m buf s) buf number spec w s plain some_text
          (collected_of_ten spec number w ten ew) es fits
          (out_loop-write_list m buf s (Mapped-sub m buf 66 (length s) room fits)),
      ds,
      vs ∙ vw,
      omega (arith, count, ls),
      fits,
    )

-- Where the radix is 10 and there is no alternate form, and the number is an `int`, number_to_string
-- writes, into a buffer of its largest output, as many characters as it returns, not fewer than the
-- precision; and with a NUL behind them, parse_number reads the number back from the buffer. The
-- precision is at most 66, and the case of 0 with precision 0, which writes nothing, is left out.
pub parse_number-number_to_string :
    (m : Mem) (buf number : ℕ) (spec : FormatSpec)
    → spec.radix ≡ 10
    → spec.flags.f_alt ≡ false
    → pos_part (spec.precision) ≤ max_number_len
    → eqb_ℤ (spec.precision) (pos 0) && (number == 0) ≡ false
    → number < int_limit
    → Mapped m buf (max_number_len + 1)
    → (n : ℕ) × (m' : Mem) × (number_to_string m buf number spec max_number_len ≡ some (n, m'))
      × (pos_part (spec.precision) ≤ n)
      × (n ≤ max_number_len)
      × (parse_number (write m' (buf + n) 0) buf ≡ some (buf + n, number))
unfolding isdigit
parse_number-number_to_string m buf number spec ten plain short some_text low room =
    let (s, e, ds, val, wide, fits) =
      number_to_string-digits m buf number spec ten plain short some_text (omega arith)
        (Mapped-sub m buf 67 66 room (omega arith)) in
    let m' = write_list m buf s in
    let there : Bytes m' buf s =
      Bytes-write_list_self m buf s (Mapped-sub m buf 67 (length s) room (omega arith)) in
    let free : is_some (load m' (buf + length s)) ≡ true =
      is_some-load-write_list m buf s (buf + length s)
        (Mapped-sub m buf 67 (length s) room (omega arith))
      ∙ Mapped-get m buf 67 (length s) room (omega arith) in
    let read =
      parse_number-decimal (write m' (buf + length s) 0) buf 0 s
        (Bytes-write m' buf s (buf + length s) 0 (omega arith) there) ds
        (load-write_self m' (buf + length s) 0 free) refl (omega (arith, val)) in
    (length s, m', e, wide, fits, read ∙ ap (λ (v : ℕ). some (buf + length s, v)) val)

eqb_ℤ_of_long : (p : ℤ) → max_number_len < pos_part p → eqb_ℤ p (pos 0) ≡ false
eqb_ℤ_of_long (pos n) long = ground arith
eqb_ℤ_of_long (negsuc n) long = absurd (omega arith)

overflow_at :
    (m : Mem) (buf number : ℕ) (spec : FormatSpec) (w : List ℕ)
    → spec.radix ≡ 10
    → max_number_len < pos_part (spec.precision)
    → whole spec number ≡ some w
    → length w ≤ 20
    → 0 < length w
    → number_to_string m buf number spec max_number_len ≡ none
unfolding number_to_string
overflow_at m buf number spec w ten long ew lw above =
    let count : pos_part (spec.precision -ℤ pos (length w)) ≡ pos_part (spec.precision) - length w =
      pos_part-sub (spec.precision) (length w) in
    let given = eqb_ℤ_of_long (spec.precision) long in
    let full =
      zeros_loop_full (min (pos_part (spec.precision -ℤ pos (length w))) 66) w
        (omega (arith, count)) (omega arith) in
    elim (Bool-cases (spec.flags.f_zero && spec.flags.f_alt && ltb 0 number)) [
      | inl e ↦ rw (given, ten, ew, e, full) refl
      | inr e ↦ rw (given, ten, ew, e, full) refl
    ]

-- With radix 10, a precision above 66 and the size 66 that format_number passes, number_to_string
-- writes behind the end of its array, whatever the number and the flags are.
pub number_to_string_overflow :
    (m : Mem) (buf number : ℕ) (spec : FormatSpec)
    → spec.radix ≡ 10
    → max_number_len < pos_part (spec.precision)
    → number < 2 ^ 64
    → number_to_string m buf number spec max_number_len ≡ none
number_to_string_overflow m buf number spec ten long low =
    let (w, ew, dw, vw, lw, above) = whole-decimal spec number low in
    overflow_at m buf number spec w ten long ew lw above
