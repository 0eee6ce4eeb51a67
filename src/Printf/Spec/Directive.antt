-- ===== src/Printf/Spec/Directive.antt =====
-- What the parser makes of a conversion specification.
use osdev_libstdc.Base.{
  List, [], ap, append_assoc, arith, false, is_some, length, length-append, none, refl, some, suc,
  ℕ, ◌++◌, ◌+◌, ◌-◌, ◌<◌, ◌==◌, ◌∙◌, ◌∷◌, ◌≡◌,
}
use osdev_libstdc.Ctype.{isdigit}
use osdev_libstdc.Memory.{Bytes, Mem, load}
use osdev_libstdc.Memory.Laws.{Bytes-append_left, Bytes-append_right, load-lt-size}
use osdev_libstdc.Printf.Spec.{
  Arg, FormatFlags, FormatSpec, parse_field_width, parse_flags_fw_precision, parse_precision,
  set_flag,
}
use osdev_libstdc.Printf.Spec.Decimal.{decimal, parse_number-decimal}
use osdev_libstdc.Printf.Spec.Flags.{
  flags_loop-with_flags, parse_field_width_of_digit, parse_field_width_of_star,
  parse_precision_bare, parse_precision_of_digit, parse_precision_of_minus, parse_precision_of_star,
  set_flag_of_digit, skip_digits-AreDigits, with_flags,
}
use osdev_libstdc.Printf.Spec.Written.{
  Directive, IsDirective, IsEnd, IsPrecision, IsWidth, Precision, Width, bare_precision,
  directive_args, directive_text, minus_precision, no_precision, no_width, parsed, precision_args,
  precision_argument, precision_digits, precision_text, set_precision, set_width, width_args,
  width_argument, width_digits, width_text,
}

dot-IsEnd : IsEnd b'.'
unfolding set_flag isdigit
dot-IsEnd = record { no_flag = λ fl. refl; no_digit = refl; no_star = refl; no_minus = refl }

-- The character behind the field width.
abbrev behind_width : Precision → ℕ → ℕ
behind_width no_precision x = x
behind_width pr x = b'.'

behind_width-IsEnd : (pr : Precision) (x : ℕ) → IsEnd x → IsEnd (behind_width pr x)
behind_width-IsEnd no_precision x h = h
behind_width-IsEnd _ x h = dot-IsEnd

-- The character behind the flags.
abbrev behind_flags : Width → Precision → ℕ → ℕ
behind_flags no_width pr x = behind_width pr x
behind_flags (width_digits c w) pr x = c
behind_flags (width_argument v) pr x = b'*'

behind_width_there :
    (m : Mem) (q : ℕ) (pr : Precision) (x : ℕ)
    → Bytes m q (precision_text pr ++ x ∷ [])
    → load m q ≡ some (behind_width pr x)
behind_width_there m q no_precision x h = h.0
behind_width_there m q bare_precision x h = h.0
behind_width_there m q (precision_digits d p) x h = h.0
behind_width_there m q (precision_argument v) x h = h.0
behind_width_there m q (minus_precision p) x h = h.0

behind_flags_there :
    (m : Mem) (q : ℕ) (w : Width) (pr : Precision) (x : ℕ)
    → Bytes m q (width_text w ++ (precision_text pr ++ x ∷ []))
    → load m q ≡ some (behind_flags w pr x)
behind_flags_there m q no_width pr x h = behind_width_there m q pr x h
behind_flags_there m q (width_digits c w) pr x h = h.0
behind_flags_there m q (width_argument v) pr x h = h.0

star_no_flag : (fl : FormatFlags) → set_flag fl b'*' ≡ none
unfolding set_flag
star_no_flag fl = refl

behind_flags_no_flag :
    (w : Width) (pr : Precision) (x : ℕ) (fl : FormatFlags)
    → IsWidth w
    → IsEnd x
    → set_flag fl (behind_flags w pr x) ≡ none
behind_flags_no_flag no_width pr x fl h end = IsEnd.no_flag (behind_width-IsEnd pr x end) fl
behind_flags_no_flag (width_digits c w) pr x fl h end = set_flag_of_digit c fl h.1 h.0.1
behind_flags_no_flag (width_argument v) pr x fl h end = star_no_flag fl

parse_field_width_none :
    (m : Mem) (q x : ℕ) (spec : FormatSpec) (args : List Arg)
    → load m q ≡ some x
    → IsEnd x
    → parse_field_width m q spec args ≡ some (q, spec, args)
unfolding parse_field_width isdigit
parse_field_width_none m q x spec args h end = rw (h, end.no_star, end.no_digit, end.no_minus) refl

parse_width :
    (m : Mem) (q : ℕ) (w : Width) (pr : Precision) (x : ℕ) (spec : FormatSpec) (args : List Arg)
    → IsWidth w
    → IsEnd x
    → Bytes m q (width_text w ++ (precision_text pr ++ x ∷ []))
    → parse_field_width m q spec (width_args w args)
      ≡ some (q + length (width_text w), set_width w spec, args)
parse_width m q no_width pr x spec args ok end h =
    parse_field_width_none m q (behind_width pr x) spec args (behind_width_there m q pr x h)
      (behind_width-IsEnd pr x end)
    ∙ ap (λ (k : ℕ). some (k, spec, args)) (omega arith)
parse_width m q (width_digits c w) pr x spec args ok end h =
    parse_field_width_of_digit m q c (q + length (c ∷ w)) (decimal 0 (c ∷ w)) spec args h.0 ok.1
      (ok.0.1)
      (parse_number-decimal m q (behind_width pr x) (c ∷ w)
        (Bytes-append_left m q (c ∷ w) (precision_text pr ++ x ∷ []) h) ok.0
        (behind_width_there m (q + length (c ∷ w)) pr x
          (Bytes-append_right m q (c ∷ w) (precision_text pr ++ x ∷ []) h))
        (IsEnd.no_digit (behind_width-IsEnd pr x end)) ok.2)
parse_width m q (width_argument v) pr x spec args ok end h =
    parse_field_width_of_star m q v spec args h.0

-- The character behind a part of a text.
next_in :
    (m : Mem) (q : ℕ) (t : List ℕ) (x : ℕ)
    → Bytes m q (t ++ x ∷ [])
    → load m (q + length t) ≡ some x
next_in m q t x h = (Bytes-append_right m q t (x ∷ []) h).0

module _ (m : Mem) (q x : ℕ) (spec : FormatSpec) (args : List Arg) where
  parse_precision_none :
      load m q ≡ some x → (x == b'.') ≡ false → parse_precision m q spec args ≡ some (q, spec, args)
  unfolding parse_precision
  parse_precision_none h no_dot = rw (h, no_dot) refl

  parse_precision_part :
      (pr : Precision)
      → IsPrecision pr
      → IsEnd x
      → (x == b'.') ≡ false
      → Bytes m q (precision_text pr ++ x ∷ [])
      → parse_precision m q spec (precision_args pr args)
        ≡ some (q + length (precision_text pr), set_precision pr spec, args)
  parse_precision_part no_precision ok end no_dot h =
      parse_precision_none h.0 no_dot ∙ ap (λ (k : ℕ). some (k, spec, args)) (omega arith)
  parse_precision_part bare_precision ok end no_dot h =
      parse_precision_bare m q x spec args h.0 (h.1.0) end.no_star end.no_minus end.no_digit
  parse_precision_part (precision_digits d p) ok end no_dot h =
      let next : q + suc (suc (length p)) ≡ q + 1 + length (d ∷ p) = omega arith in
      rw next (
        parse_precision_of_digit m q d (q + 1 + length (d ∷ p)) (decimal 0 (d ∷ p)) spec args h.0
          (h.1.0) (ok.0.0) (ok.0.1)
          (parse_number-decimal m (q + 1) x (d ∷ p)
            (Bytes-append_left m (q + 1) (d ∷ p) (x ∷ []) h.1) ok.0
            (next_in m (q + 1) (d ∷ p) x h.1) end.no_digit ok.1))
  parse_precision_part (precision_argument v) ok end no_dot h =
      parse_precision_of_star m q v spec args h.0 (h.1.0)
  parse_precision_part (minus_precision p) ok end no_dot h =
      let next : q + suc (suc (length p)) ≡ q + 1 + length p + 1 = omega arith in
      let there : load m (q + 1 + 1 + length p) ≡ some x = next_in m (q + 1 + 1) p x h.1.1 in
      rw next (
        parse_precision_of_minus m q (q + 1 + length p + 1) spec args h.0 (h.1.0) (
          skip_digits-AreDigits (m.size - (q + 1)) m (q + 1) x p
            (omega (arith, load-lt-size m (q + 1 + 1 + length p) (ap is_some there)))
            (Bytes-append_left m (q + 1 + 1) p (x ∷ []) h.1.1) ok there end.no_digit))

-- Of a specification that has flags, then a field width in decimal digits or as an argument, or none,
-- then a precision in the same way, a '.' alone, or a '-' and digits behind that, or none, and then a
-- character that belongs to none of them, parse_flags_fw_precision stores all three and returns the
-- address of that character and the arguments that are left: each flag is set if its character occurs
-- or if it was set before, except that the zero flag is cleared where there is a precision; a number
-- that is not written keeps its value, a '.' alone is the precision 0, and one with '-' is -1. Numbers
-- in digits are below 2 ^ 31, and the field width does not begin with 0.
pub parse_flags_fw_precision-parsed :
    (m : Mem) (fmt x : ℕ) (d : Directive) (spec : FormatSpec) (args : List Arg)
    → IsDirective d
    → IsEnd x
    → (x == b'.') ≡ false
    → Bytes m fmt (directive_text d ++ x ∷ [])
    → parse_flags_fw_precision m fmt spec (directive_args d args)
      ≡ some (fmt + length (directive_text d), parsed d spec, args)
unfolding parse_flags_fw_precision
parse_flags_fw_precision-parsed m fmt x d spec args ok end no_dot h =
    let w = width_text (d.width) in
    let p = precision_text (d.precision) in
    let whole : Bytes m fmt (d.flags ++ (w ++ (p ++ x ∷ []))) =
      rw (append_assoc (d.flags) (w ++ p) (x ∷ []), append_assoc w p (x ∷ [])) at h in
    let a = fmt + length (d.flags) in
    let after_flags = Bytes-append_right m fmt (d.flags) (w ++ (p ++ x ∷ [])) whole in
    let after_width = Bytes-append_right m a w (p ++ x ∷ []) after_flags in
    let there = behind_flags_there m a (d.width) (d.precision) x after_flags in
    let in_memory : a < m.size = load-lt-size m a (ap is_some there) in
    let spec' = record spec { flags = with_flags (d.flags) (spec.flags) } in
    let len : fmt + length (directive_text d) ≡ a + length w + length p =
      omega (arith, length-append (d.flags) (w ++ p), length-append w p) in
    rw
      (
        flags_loop-with_flags (m.size - fmt) m fmt (behind_flags (d.width) (d.precision) x)
            (d.flags) (spec.flags) (omega arith)
            (Bytes-append_left m fmt (d.flags) (w ++ (p ++ x ∷ [])) whole) ok.flags_ok there
            (λ fl. behind_flags_no_flag (d.width) (d.precision) x fl ok.width_ok end),
        parse_width m a (d.width) (d.precision) x spec' (precision_args (d.precision) args)
            ok.width_ok end after_flags,
        parse_precision_part m (a + length w) x (set_width (d.width) spec') args (d.precision)
            ok.precision_ok end no_dot after_width,
        len,
      )
      refl
