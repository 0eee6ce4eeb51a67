-- ===== src/Printf/Spec/Flags.antt =====
-- Lemmas on the parts of parse_flags_fw_precision.
use osdev_libstdc.Base.{
  Bool, Bool-cases, List, Option, [], ap, arith, false, inl, inr, length, none, refl, some, suc,
  sym, true, zero, ℕ, ◌+◌, ◌-◌, ◌<◌, ◌==◌, ◌||◌, ◌∙◌, ◌∷◌, ◌≡◌, ◌≤◌, ◌⊎◌,
}
use osdev_libstdc.Base.Int.{negsuc, pos, schar, ℤ}
use osdev_libstdc.Ctype.{isdigit}
use osdev_libstdc.Memory.{Bytes, Mem, load}
use osdev_libstdc.Printf.Spec.{
  Arg, FormatFlags, FormatSpec, flags_loop, int_arg, next_int, parse_field_width, parse_number,
  parse_precision, set_flag, skip_digits,
}
use osdev_libstdc.Printf.Spec.Decimal.{AreDigits}

-- The characters '#', ' ', '0', '-' and '+'.
abbrev pub IsFlag : ℕ → Type 0
IsFlag c = (c ≡ b'#') ⊎ ((c ≡ 32) ⊎ ((c ≡ b'0') ⊎ ((c ≡ b'-') ⊎ (c ≡ b'+'))))

abbrev pub AreFlags : List ℕ → Type 0
AreFlags [] = Unit
AreFlags (c ∷ s) = IsFlag c × AreFlags s

abbrev pub mem_char : ℕ → List ℕ → Bool
mem_char c [] = false
mem_char c (d ∷ s) = c == d || mem_char c s

-- The flags with those that `s` has a character for.
abbrev pub with_flags : List ℕ → FormatFlags → FormatFlags
with_flags s fl = record {
  f_minus = mem_char b'-' s || fl.f_minus;
  f_plus = mem_char b'+' s || fl.f_plus;
  f_space = mem_char 32 s || fl.f_space;
  f_alt = mem_char b'#' s || fl.f_alt;
  f_zero = mem_char b'0' s || fl.f_zero;
  f_huge = fl.f_huge;
}

or_true : (b : Bool) → b || true ≡ true
or_true b = elim (Bool-cases b) [ inl e ↦ rw e refl | inr e ↦ rw e refl ]

set_flag-with_flags :
    (c : ℕ) (s : List ℕ) (fl : FormatFlags)
    → IsFlag c
    → (fl' : FormatFlags) × (set_flag fl c ≡ some fl') × (with_flags s fl' ≡ with_flags (c ∷ s) fl)
unfolding set_flag
set_flag-with_flags c s fl (inl e) =
    rw e (record fl { f_alt = true }, refl, rw (or_true (mem_char b'#' s)) refl)
set_flag-with_flags c s fl (inr (inl e)) =
    rw e (record fl { f_space = true }, refl, rw (or_true (mem_char 32 s)) refl)
set_flag-with_flags c s fl (inr (inr (inl e))) =
    rw e (record fl { f_zero = true }, refl, rw (or_true (mem_char b'0' s)) refl)
set_flag-with_flags c s fl (inr (inr (inr (inl e)))) =
    rw e (record fl { f_minus = true }, refl, rw (or_true (mem_char b'-' s)) refl)
set_flag-with_flags c s fl (inr (inr (inr (inr e)))) =
    rw e (record fl { f_plus = true }, refl, rw (or_true (mem_char b'+' s)) refl)

-- A digit other than 0 ends the flags.
pub set_flag_of_digit : (c : ℕ) (fl : FormatFlags) → b'1' ≤ c → c ≤ b'9' → set_flag fl c ≡ none
unfolding set_flag
set_flag_of_digit c fl low high = ground arith

flags_loop_step :
    (k : ℕ) (m : Mem) (fmt c : ℕ) (fl : FormatFlags) (r : Option FormatFlags)
    → load m fmt ≡ some c
    → set_flag fl c ≡ r
    → flags_loop (suc k) m fmt fl ≡ (elim r as (λ x. Option (ℕ × FormatFlags)) [
      | some fl' ↦ flags_loop k m (fmt + 1) fl'
      | none ↦ some (fmt, fl)
    ])
unfolding flags_loop
flags_loop_step k m fmt c fl r h e = rw h (
    ap
      (λ (x : Option FormatFlags). elim x as (λ y. Option (ℕ × FormatFlags)) [
        | some fl' ↦ flags_loop k m (fmt + 1) fl'
        | none ↦ some (fmt, fl)
      ])
      e)

pub flags_loop-with_flags :
    (k : ℕ) (m : Mem) (fmt stop : ℕ) (s : List ℕ) (fl : FormatFlags)
    → length s < k
    → Bytes m fmt s
    → AreFlags s
    → load m (fmt + length s) ≡ some stop
    → ((fl' : FormatFlags) → set_flag fl' stop ≡ none)
    → flags_loop k m fmt fl ≡ some (fmt + length s, with_flags s fl)
flags_loop-with_flags zero m fmt stop s fl lt h fs ends none_here = absurd (omega arith)
flags_loop-with_flags (suc k) m fmt stop [] fl lt h fs ends none_here =
    let here : fmt + length {A = ℕ} [] ≡ fmt = omega arith in
    flags_loop_step k m fmt stop fl none (ap (load m) (sym here) ∙ ends) (none_here fl)
    ∙ ap (λ (p : ℕ). some (p, fl)) (sym here)
flags_loop-with_flags (suc k) m fmt stop (c ∷ s) fl lt h fs ends none_here =
    let (fl', e, rest) = set_flag-with_flags c s fl fs.0 in
    let next : fmt + suc (length s) ≡ fmt + 1 + length s = omega arith in
    flags_loop_step k m fmt c fl (some fl') h.0 e
    ∙ flags_loop-with_flags k m (fmt + 1) stop s fl' (omega arith) h.1 fs.1 (rw next at ends)
        none_here
    ∙ rw (next, rest) refl

pub parse_field_width_of_digit :
    (m : Mem) (fmt c q v : ℕ) (spec : FormatSpec) (args : List Arg)
    → load m fmt ≡ some c
    → b'1' ≤ c
    → c ≤ b'9'
    → parse_number m fmt ≡ some (q, v)
    → parse_field_width m fmt spec args ≡ some (q, record spec { field_width = pos v }, args)
unfolding parse_field_width isdigit
parse_field_width_of_digit m fmt c q v spec args h low high e =
    let no_star : (c == b'*') ≡ false = ground arith in
    let is_digit : isdigit (schar c) ≡ true = ground arith in rw (h, no_star, is_digit, e) refl

pub parse_precision_of_digit :
    (m : Mem) (fmt d q v : ℕ) (spec : FormatSpec) (args : List Arg)
    → load m fmt ≡ some b'.'
    → load m (fmt + 1) ≡ some d
    → b'0' ≤ d
    → d ≤ b'9'
    → parse_number m (fmt + 1) ≡ some (q, v)
    → parse_precision m fmt spec args
      ≡ some (
        q,
        record spec { precision = pos v; flags = record (spec.flags) { f_zero = false } },
        args,
      )
unfolding parse_precision isdigit
parse_precision_of_digit m fmt d q v spec args h h' low high e =
    let no_star : (d == b'*') ≡ false = ground arith in
    let no_minus : (d == b'-') ≡ false = ground arith in
    let is_digit : isdigit (schar d) ≡ true = ground arith in
    rw (h, h', no_star, no_minus, is_digit, e) refl

pub parse_field_width_of_star :
    (m : Mem) (fmt : ℕ) (v : ℤ) (spec : FormatSpec) (args : List Arg)
    → load m fmt ≡ some b'*'
    → parse_field_width m fmt spec (int_arg v ∷ args)
      ≡ some (fmt + 1, record spec { field_width = v }, args)
unfolding parse_field_width next_int
parse_field_width_of_star m fmt v spec args h = rw h refl

-- The precision in its other forms.
module _ (m : Mem) (fmt : ℕ) where
  abbrev with_precision : ℤ → FormatSpec → FormatSpec
  with_precision v spec = record spec {
    precision = v;
    flags = record (spec.flags) { f_zero = false };
  }

  pub parse_precision_of_star :
      (v : ℤ) (spec : FormatSpec) (args : List Arg)
      → load m fmt ≡ some b'.'
      → load m (fmt + 1) ≡ some b'*'
      → parse_precision m fmt spec (int_arg v ∷ args) ≡ some (fmt + 2, with_precision v spec, args)
  unfolding parse_precision next_int
  parse_precision_of_star v spec args h h' = rw (h, h') refl

  pub parse_precision_bare :
      (x : ℕ) (spec : FormatSpec) (args : List Arg)
      → load m fmt ≡ some b'.'
      → load m (fmt + 1) ≡ some x
      → (x == b'*') ≡ false
      → (x == b'-') ≡ false
      → isdigit (schar x) ≡ false
      → parse_precision m fmt spec args ≡ some (fmt + 1, with_precision (pos 0) spec, args)
  unfolding parse_precision
  parse_precision_bare x spec args h h' no_star no_minus no_digit =
      rw (h, h', no_star, no_minus, no_digit) refl

  pub parse_precision_of_minus :
      (q : ℕ) (spec : FormatSpec) (args : List Arg)
      → load m fmt ≡ some b'.'
      → load m (fmt + 1) ≡ some b'-'
      → skip_digits (m.size - (fmt + 1)) m (fmt + 1) ≡ some q
      → parse_precision m fmt spec args ≡ some (q, with_precision (negsuc 0) spec, args)
  unfolding parse_precision
  parse_precision_of_minus q spec args h h' e = rw (h, h', e) refl

-- The digits behind `fmt`, and the first other character.
pub skip_digits-AreDigits :
    (k : ℕ) (m : Mem) (fmt stop : ℕ) (s : List ℕ)
    → length s < k
    → Bytes m (fmt + 1) s
    → AreDigits s
    → load m (fmt + 1 + length s) ≡ some stop
    → isdigit (schar stop) ≡ false
    → skip_digits k m fmt ≡ some (fmt + length s + 1)
unfolding skip_digits isdigit
skip_digits-AreDigits zero m fmt stop s lt h digits ends other = absurd (omega arith)
skip_digits-AreDigits (suc k) m fmt stop [] lt h digits ends other =
    let here : fmt + 1 + length {A = ℕ} [] ≡ fmt + 1 = omega arith in
    let ends' : load m (fmt + 1) ≡ some stop = ap (load m) (sym here) ∙ ends in
    rw (ends', other) (ap some (omega arith))
skip_digits-AreDigits (suc k) m fmt stop (c ∷ s) lt h digits ends other =
    let is_digit : isdigit (schar c) ≡ true = ground arith in
    let next : fmt + 1 + suc (length s) ≡ fmt + 1 + 1 + length s = omega arith in
    let end : fmt + suc (length s) + 1 ≡ fmt + 1 + length s + 1 = omega arith in
    rw (h.0, is_digit, end)
      (skip_digits-AreDigits k m (fmt + 1) stop s (omega arith) h.1 digits.2 (rw next at ends)
        other)
