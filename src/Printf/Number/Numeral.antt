-- ===== src/Printf/Number/Numeral.antt =====
-- What number_to_string writes where there are no zeros and no prefix, against a reference numeral.
use osdev_libstdc.Base.{
  Bool, Bool-cases, List, [], ap, arith, false, if◌then◌else◌, inl, inr, length, length-append,
  length-replicate, ltb, refl, replicate, some, suc, sym, true, zero, ℕ, ◌&&◌, ◌++◌, ◌+◌, ◌-◌, ◌<◌,
  ◌==◌, ◌^◌, ◌∙◌, ◌∷◌, ◌≡◌, ◌≤◌,
}
use osdev_libstdc.Base.Int.{eqb_ℤ, pos, pos_part, ◌-ℤ◌}
use osdev_libstdc.Memory.{Mapped, Mem, write_list}
use osdev_libstdc.Printf.Number.{
  max_number_len, number_to_string, push, push_prefix, zeros_loop, zeros_wanted,
}
use osdev_libstdc.Printf.Number.Digits.{out_loop-write_list}
use osdev_libstdc.Printf.Number.Laws.{number_to_string_lem, pos_part-sub}
use osdev_libstdc.Printf.Number.Radix.{IsRadix, length-numeral, numeral, whole-numeral}
use osdev_libstdc.Printf.Spec.{FormatSpec}
use Prim.Native.Nat.{min}

replicate-cons : (n a : ℕ) (l : List ℕ) → replicate n a ++ a ∷ l ≡ a ∷ (replicate n a ++ l)
replicate-cons zero a l = refl
replicate-cons (suc n) a l = ap (λ t. a ∷ t) (replicate-cons n a l)

zeros_loop-replicate :
    (n : ℕ) (l : List ℕ)
    → length l + n ≤ max_number_len
    → zeros_loop n l ≡ some (replicate n b'0' ++ l)
unfolding zeros_loop push
zeros_loop-replicate zero l room = refl
zeros_loop-replicate (suc n) l room =
    let free : ltb (length l) 66 ≡ true = ground arith in
    let space : suc (length l) + n ≤ max_number_len = omega arith in
    rw free (zeros_loop-replicate n (b'0' ∷ l) space ∙ ap some (replicate-cons n b'0' l))

-- The numeral with at least `k` digits.
abbrev pub padded_text : (k : ℕ) → (huge : Bool) → (radix n : ℕ) → List ℕ
padded_text k huge radix n =
    replicate (k - length (numeral huge radix n)) b'0' ++ numeral huge radix n

-- The prefix of the alternate form, which 0 does not have.
abbrev pub prefix_text : (alt huge : Bool) → (radix n : ℕ) → List ℕ
prefix_text alt huge radix n =
    if alt && ltb 0 n
    then (if radix == 8
        then b'0' ∷ []
        else if radix == 16
        then b'0' ∷ (if huge then b'X' else b'x') ∷ []
        else [])
    else []

abbrev pub prefix_of : FormatSpec → (n : ℕ) → List ℕ
prefix_of spec n = prefix_text (spec.flags.f_alt) (spec.flags.f_huge) (spec.radix) n

-- The digits that the precision asks for: with the zero flag it counts the prefix as well.
abbrev pub digits_wanted : FormatSpec → (n : ℕ) → ℕ
digits_wanted spec n =
    pos_part (spec.precision) - (if spec.flags.f_zero then length (prefix_of spec n) else 0)

-- The prefix and the numeral, but nothing for 0 with precision 0.
abbrev pub number_text : FormatSpec → (n : ℕ) → List ℕ
number_text spec n =
    if eqb_ℤ (spec.precision) (pos 0) && (n == 0)
    then []
    else prefix_of spec n ++ padded_text (digits_wanted spec n) (spec.flags.f_huge) (spec.radix) n

pub length-padded_text :
    (k : ℕ) (huge : Bool) (radix n : ℕ)
    → length (padded_text k huge radix n)
      ≡ k - length (numeral huge radix n) + length (numeral huge radix n)
length-padded_text k huge radix n =
    let t = numeral huge radix n in
    let zeros : length {A = ℕ} (replicate (k - length t) b'0') ≡ k - length t =
      length-replicate (k - length t) b'0' in
    omega (arith, length-append (replicate (k - length t) b'0') t, zeros)

pub length-prefix_text : (alt huge : Bool) (radix n : ℕ) → length (prefix_text alt huge radix n) ≤ 2
length-prefix_text alt huge radix n = ground arith

zeros_wanted-digits_wanted :
    (spec : FormatSpec) (n k : ℕ)
    → pos_part (zeros_wanted spec n (spec.precision -ℤ pos k)) ≡ digits_wanted spec n - k
unfolding zeros_wanted
zeros_wanted-digits_wanted spec n k = ground (
  arith,
  pos_part-sub (spec.precision) k,
  pos_part-sub (spec.precision -ℤ pos k) 1,
  pos_part-sub (spec.precision -ℤ pos k) 2,
)

push_prefix-prefix_of :
    (spec : FormatSpec) (n : ℕ) (l : List ℕ)
    → length (prefix_of spec n) + length l ≤ max_number_len
    → (if spec.flags.f_alt && ltb 0 n
        then push_prefix (spec.flags.f_huge) (spec.radix) l
        else some l)
      ≡ some (prefix_of spec n ++ l)
unfolding push_prefix push
push_prefix-prefix_of spec n l room = ground arith

number_to_string-shown :
    (m : Mem) (buf number : ℕ) (spec : FormatSpec)
    → IsRadix (spec.radix)
    → digits_wanted spec number + length (prefix_of spec number) ≤ max_number_len
    → eqb_ℤ (spec.precision) (pos 0) && (number == 0) ≡ false
    → number < 2 ^ 64
    → (s : List ℕ)
    → prefix_of spec number
        ++ padded_text (digits_wanted spec number) (spec.flags.f_huge) (spec.radix) number
      ≡ s
    → Mapped m buf (length s)
    → number_to_string m buf number spec max_number_len ≡ some (length s, write_list m buf s)
number_to_string-shown m buf number spec radix short some_text low s same room =
    let t = numeral (spec.flags.f_huge) (spec.radix) number in
    let n = digits_wanted spec number - length t in
    let z = padded_text (digits_wanted spec number) (spec.flags.f_huge) (spec.radix) number in
    let low_len : length t ≤ 22 = length-numeral (spec.flags.f_huge) (spec.radix) number in
    let len =
      length-padded_text (digits_wanted spec number) (spec.flags.f_huge) (spec.radix) number in
    let prefix = length-prefix_text (spec.flags.f_alt) (spec.flags.f_huge) (spec.radix) number in
    let all : length s ≡ length (prefix_of spec number) + length z =
      sym (ap length same) ∙ length-append (prefix_of spec number) z in
    let count : min (pos_part (zeros_wanted spec number (spec.precision -ℤ pos (length t)))) 66
        ≡ n =
      omega (arith, zeros_wanted-digits_wanted spec number (length t)) in
    number_to_string_lem m (write_list m buf s) buf number spec t z s some_text
      (whole-numeral (spec.flags.f_huge) (spec.radix) number radix low)
      (rw count (zeros_loop-replicate n t (omega (arith, low_len))))
      (push_prefix-prefix_of spec number z (omega (arith, len, low_len, prefix)) ∙ ap some same)
      (omega (arith, len, low_len, prefix, all)) (out_loop-write_list m buf s room)

number_to_string_nothing :
    (m : Mem) (buf number : ℕ) (spec : FormatSpec)
    → eqb_ℤ (spec.precision) (pos 0) && (number == 0) ≡ true
    → number_to_string m buf number spec max_number_len ≡ some (0, m)
unfolding number_to_string
number_to_string_nothing m buf number spec h = rw h refl

-- Where the digits that the precision asks for and the prefix have room in the array, number_to_string
-- writes the numeral of a number below 2 ^ 64 in base 8, 10 or 16, with zeros before it as the
-- precision asks for, behind the prefix of the alternate form, which is 0 in base 8, 0x or 0X in base
-- 16, and nothing for 0; and it writes nothing else. With the zero flag the precision counts the
-- prefix as well. For 0 with precision 0 it writes nothing.
pub number_to_string-number_text :
    (m : Mem) (buf number : ℕ) (spec : FormatSpec)
    → IsRadix (spec.radix)
    → digits_wanted spec number + length (prefix_of spec number) ≤ max_number_len
    → number < 2 ^ 64
    → Mapped m buf (length (number_text spec number))
    → number_to_string m buf number spec max_number_len
      ≡ some (length (number_text spec number), write_list m buf (number_text spec number))
unfolding write_list
number_to_string-number_text m buf number spec radix short low room =
    let s =
      prefix_of spec number
      ++ padded_text (digits_wanted spec number) (spec.flags.f_huge) (spec.radix) number in
    elim (Bool-cases (eqb_ℤ (spec.precision) (pos 0) && (number == 0))) [
      | inl nothing_wanted ↦
          rw nothing_wanted (number_to_string_nothing m buf number spec nothing_wanted)
      | inr wanted ↦ rw wanted (
          number_to_string-shown m buf number spec radix short wanted low s refl
            (rw wanted at room))
    ]
