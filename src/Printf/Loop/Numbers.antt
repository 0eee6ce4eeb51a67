-- ===== src/Printf/Loop/Numbers.antt =====
-- Lemmas on format_number with room for what it writes.
use osdev_libstdc.Base.{
  Bool, Bool-cases, List, [], ap, append-nil, arith, false, if◌then◌else◌, inl, inr, length, refl,
  subst, sym, take, true, ℕ, ◌&&◌, ◌++◌, ◌+◌, ◌-◌, ◌<◌, ◌==◌, ◌^◌, ◌∙◌, ◌≡◌, ◌≤◌, ◌⊎◌,
}
use osdev_libstdc.Base.Int.{eqb_ℤ, pos, pos_part, ℤ}
use osdev_libstdc.Memory.{Apart, Mapped, Mem, write_list}
use osdev_libstdc.Printf.Field.{format_number, put_with_field_width, zeros_as_precision}
use osdev_libstdc.Printf.Field.Laws.{
  blanks_of, digits_at, field, format_number_lem, padding_len-blanks_of, sign_char,
  zeros_as_precision_lem,
}
use osdev_libstdc.Printf.Field.Shown.{Apart-le}
use osdev_libstdc.Printf.Field.Zeros.{ZerosMade, zeros_made}
use osdev_libstdc.Printf.Loop.{Frame}
use osdev_libstdc.Printf.Loop.NumberTexts.{
  IsNumeric, length-number_text, number_body, number_field, zero_filled,
}
use osdev_libstdc.Printf.Loop.Scratch.{Scratch, length-signed_text, number-Scratch, signed_text}
use osdev_libstdc.Printf.Loop.Writes.{IsRoom, Puts, in_field, put-Writes}
use osdev_libstdc.Printf.Number.{max_number_len}
use osdev_libstdc.Printf.Number.Laws.{pos_part-sub}
use osdev_libstdc.Printf.Number.Numeral.{
  digits_wanted, length-prefix_text, number_text, number_to_string-number_text, padded_text,
  prefix_of,
}
use osdev_libstdc.Printf.Number.Radix.{IsRadix}
use osdev_libstdc.Printf.Spec.{FormatSpec}

at_most_sign :
    (sign : ℕ) (t : List ℕ)
    → length t < max_number_len
    → length (signed_text sign t) ≤ max_number_len
at_most_sign sign t short = elim (Bool-cases (sign == 0)) [
  | inl e ↦ rw e (omega arith)
  | inr e ↦ rw e (omega arith)
]

-- format_number where the zero flag has made the precision `pr` and the field width `fw` of its own.
number-Writes :
    (f : Frame) (m : Mem) (p t n : ℕ) (spec : FormatSpec) (pr fw : ℤ) (room : ℕ)
    → zeros_as_precision (sign_char (spec.negative) (spec.flags.f_plus) (spec.flags.f_space)) spec
      ≡ record spec { precision = pr; field_width = fw }
    → IsRadix (spec.radix)
    → n < 2 ^ 64
    → digits_wanted (record spec { precision = pr; field_width = fw }) n + length (prefix_of spec n)
      < max_number_len
    → spec.total ≡ pos t
    → Mapped m (f.number_str) max_number_len
    → IsRoom
        (record spec { precision = pr; field_width = fw })
        (length (number_body (record spec { precision = pr; field_width = fw }) n))
        room
    → (out : List ℕ)
    → in_field
        (record spec { precision = pr; field_width = fw })
        (number_body (record spec { precision = pr; field_width = fw }) n)
      ≡ out
    → Mapped m p (length (take room out))
    → Apart p (length (take room out)) (f.number_str) max_number_len
    → Puts f m p
        (t + length out)
        (take room out)
        (format_number m (f.number_str) p n spec (pos room))
unfolding Scratch
number-Writes f m p t n spec pr fw room zeros radix_ok low small counted scratch_there fits out same
      mapped apart =
    let spec2 = record spec { precision = pr; field_width = fw } in
    let sign = sign_char (spec.negative) (spec.flags.f_plus) (spec.flags.f_space) in
    let digits = number_text spec2 n in
    let short = length-number_text spec2 n small in
    let (m', stored, free, there, scratch) = number-Scratch f m sign digits scratch_there short in
    let len = length-signed_text sign digits in
    let m2 = write_list m' (f.number_str + digits_at sign) digits in
    let (spec', m'', e, total, kept, bytes) =
      put-Writes f m m2 p t (f.number_str) (signed_text sign digits) spec2 room counted scratch
        there fits (rw same mapped)
        (rw same (
          Apart-le p (length (take room out)) (f.number_str) max_number_len
            (length (signed_text sign digits)) apart (at_most_sign sign digits short))) in
    subst
      (λ o.
        Puts f m p (t + length o) (take room o)
          (format_number m (f.number_str) p n spec (pos room)))
      same
      (
        spec',
        m'',
        format_number_lem m m' m2 (f.number_str) p n (length digits) spec spec2 (pos room) sign refl
              zeros stored
              (number_to_string-number_text m' (f.number_str + digits_at sign) n spec2 radix_ok
                (omega (arith, small)) low free)
            ∙ ap (λ (k : ℕ). put_with_field_width m2 p (f.number_str) k spec2 (pos room)) (sym len)
            ∙ e,
        total,
        kept,
        bytes,
      )

field_no_blanks : (minus : Bool) (bs : List ℕ) → field minus 0 bs ≡ bs
field_no_blanks true bs = append-nil bs
field_no_blanks false bs = refl

zero_filled_no_blanks :
    (spec : FormatSpec) (n : ℕ)
    → (z : ZerosMade (sign_char (spec.negative) (spec.flags.f_plus) (spec.flags.f_space)) spec)
    → let spec2 = record spec { precision = z.precision; field_width = z.width } in
      blanks_of spec2 (length (number_body spec2 n)) ≡ 0
zero_filled_no_blanks spec n z =
    let spec2 = record spec { precision = z.precision; field_width = z.width } in
    omega (
      arith,
      padding_len-blanks_of spec2 (length (number_body spec2 n)),
      pos_part-sub (z.width) (length (number_body spec2 n)),
      z.no_blanks,
    )

-- A FormatSpec with the precision and the width that the zero flag has made of it.
zero_filled_made :
    (spec : FormatSpec) (n : ℕ)
    → (z : ZerosMade (sign_char (spec.negative) (spec.flags.f_plus) (spec.flags.f_space)) spec)
    → spec.flags.f_zero ≡ true
    → eqb_ℤ (z.precision) (pos 0) && (n == 0) ≡ false
    → in_field
        (record spec { precision = z.precision; field_width = z.width })
        (number_body (record spec { precision = z.precision; field_width = z.width }) n)
      ≡ zero_filled spec n
zero_filled_made spec n z filled shown =
    let prefix = prefix_of spec n in
    let spec2 = record spec { precision = z.precision; field_width = z.width } in
    let sign = sign_char (spec.negative) (spec.flags.f_plus) (spec.flags.f_space) in
    let body = number_body spec2 n in
    rw (zero_filled_no_blanks spec n z) (field_no_blanks (spec.flags.f_minus) body)
    ∙ ap
        (λ (c : Bool). signed_text sign (
          if c
          then []
          else prefix ++ padded_text (digits_wanted spec2 n) (spec.flags.f_huge) (spec.radix) n))
        shown
    ∙ ap (λ (k : ℕ). signed_text sign (prefix ++ padded_text k (spec.flags.f_huge) (spec.radix) n))
        (rw filled (ap (λ (k : ℕ). k - length prefix) z.digits))

zero_filled_short :
    (spec : FormatSpec) (n : ℕ)
    → (z : ZerosMade (sign_char (spec.negative) (spec.flags.f_plus) (spec.flags.f_space)) spec)
    → spec.flags.f_zero ≡ true
    → pos_part (spec.field_width) < max_number_len
    → digits_wanted (record spec { precision = z.precision; field_width = z.width }) n
        + length (prefix_of spec n)
      < max_number_len
zero_filled_short spec n z filled small = rw filled (
    omega
      (arith, z.digits, length-prefix_text (spec.flags.f_alt) (spec.flags.f_huge) (spec.radix) n))

-- The room for a number: with the zero flag there are no blanks.
abbrev pub IsNumberRoom : FormatSpec → (n room : ℕ) → Type 0
IsNumberRoom spec n room =
    (spec.flags.f_zero ≡ true) ⊎ IsRoom spec (length (number_body spec n)) room

pub plain_number_field :
    (spec : FormatSpec) (n : ℕ)
    → spec.flags.f_zero ≡ false
    → number_field spec n ≡ in_field spec (number_body spec n)
plain_number_field spec n no_zero =
    ap (λ (c : Bool). if c then zero_filled spec n else in_field spec (number_body spec n)) no_zero

plain_digits :
    (spec : FormatSpec) (n : ℕ)
    → spec.flags.f_zero ≡ false
    → pos_part (spec.precision) + length (prefix_of spec n) < max_number_len
    → digits_wanted spec n + length (prefix_of spec n) < max_number_len
plain_digits spec n no_zero small =
    let all : digits_wanted spec n ≡ pos_part (spec.precision) - 0 =
      ap (λ (c : Bool). pos_part (spec.precision) - (if c then length (prefix_of spec n) else 0))
        no_zero in
    omega (arith, all, small)

pub format_number-Writes :
    (f : Frame) (m : Mem) (p t n : ℕ) (spec : FormatSpec) (room : ℕ)
    → IsNumeric spec n
    → spec.total ≡ pos t
    → Mapped m (f.number_str) max_number_len
    → IsNumberRoom spec n room
    → Mapped m p (length (take room (number_field spec n)))
    → Apart p (length (take room (number_field spec n))) (f.number_str) max_number_len
    → Puts f m p
        (t + length (number_field spec n))
        (take room (number_field spec n))
        (format_number m (f.number_str) p n spec (pos room))
format_number-Writes f m p t n spec room (radix_ok, low, inl (no_zero, small)) counted scratch_there
      (inl filled) mapped apart =
    absurd (ground (arith, no_zero, filled))
format_number-Writes f m p t n spec room (radix_ok, low, inl (no_zero, small)) counted scratch_there
      (inr fits) mapped apart =
    let sign = sign_char (spec.negative) (spec.flags.f_plus) (spec.flags.f_space) in
    number-Writes f m p t n spec (spec.precision) (spec.field_width) room
      (zeros_as_precision_lem sign spec no_zero) radix_ok low (plain_digits spec n no_zero small)
      counted scratch_there fits (number_field spec n) (sym (plain_number_field spec n no_zero))
      mapped apart
format_number-Writes f m p t n spec room
      (radix_ok, low, inr (filled, none_given, width, small, shown)) counted scratch_there fits
      mapped apart =
    let sign = sign_char (spec.negative) (spec.flags.f_plus) (spec.flags.f_space) in
    let z = zeros_made sign spec filled none_given width in
    number-Writes f m p t n spec (z.precision) (z.width) room z.made radix_ok low
      (zero_filled_short spec n z filled small) counted scratch_there
      (inr (inr (zero_filled_no_blanks spec n z))) (number_field spec n)
      (zero_filled_made spec n z filled (rw z.no_digit shown) ∙ rw filled refl) mapped apart
