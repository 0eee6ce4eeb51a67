-- ===== src/Printf/Spec/Advance.antt =====
-- What is read of a specification ends no earlier than it begins, and its loops end.
use osdev_libstdc.Base.{
  List, ap, arith, ltb, not, some, suc, zero, ℕ, ◌*◌, ◌+◌, ◌-◌, ◌==◌, ◌>>=◌, ◌≤◌,
}
use osdev_libstdc.Base.Int.{schar}
use osdev_libstdc.Base.Returns.{
  Returns, Returns-bind, Returns-elim, Returns-if, Returns-then, Returns-weaken,
}
use osdev_libstdc.Ctype.{isdigit}
use osdev_libstdc.Memory.{Mem, load}
use osdev_libstdc.Printf.Spec.{
  Arg, FormatFlags, FormatSpec, flags_loop, int_limit, next_int, parse_field_width,
  parse_flags_fw_precision, parse_number, parse_number_loop, parse_precision, parse_size_specifier,
  set_flag, skip_digits,
}

-- The address that is returned lies at `fmt` or behind it.
abbrev pub From : {A : Type 0} → ℕ → ℕ × A → Type 0
From fmt r = fmt ≤ r.0

parse_number_loop-From :
    (k : ℕ) (m : Mem) (str v : ℕ) → Returns (From str) (parse_number_loop k m str v)
unfolding Returns parse_number_loop
parse_number_loop-From zero m str v = tt
parse_number_loop-From (suc k) m str v = Returns-then _ (load m str) _ λ c.
    Returns-if _ (isdigit (schar c)) _ _
      (Returns-if _ (ltb (v * 10 + (c - b'0')) int_limit) _ _
        (Returns-weaken (From (str + 1)) _ (parse_number_loop k m (str + 1) (v * 10 + (c - b'0')))
          (λ r h. omega arith) (parse_number_loop-From k m (str + 1) (v * 10 + (c - b'0'))))
        tt)
      (omega arith)

parse_number-From : (m : Mem) (str : ℕ) → Returns (From str) (parse_number m str)
unfolding parse_number
parse_number-From m str = parse_number_loop-From (m.size - str) m str 0

flags_loop-From :
    (k : ℕ) (m : Mem) (fmt : ℕ) (fl : FormatFlags) → Returns (From fmt) (flags_loop k m fmt fl)
unfolding Returns flags_loop
flags_loop-From zero m fmt fl = tt
flags_loop-From (suc k) m fmt fl = Returns-then _ (load m fmt) _ λ c.
    Returns-elim _ (set_flag fl c) _ _
      (λ fl'.
        Returns-weaken (From (fmt + 1)) _ (flags_loop k m (fmt + 1) fl') (λ r h. omega arith)
          (flags_loop-From k m (fmt + 1) fl'))
      (omega arith)

skip_digits-From : (k : ℕ) (m : Mem) (fmt : ℕ) → Returns (λ r. fmt ≤ r) (skip_digits k m fmt)
unfolding Returns skip_digits
skip_digits-From zero m fmt = tt
skip_digits-From (suc k) m fmt = Returns-then _ (load m (fmt + 1)) _ λ c.
    Returns-if _ (isdigit (schar c)) _ _
      (Returns-weaken (λ r. fmt + 1 ≤ r) _ (skip_digits k m (fmt + 1)) (λ r h. omega arith)
        (skip_digits-From k m (fmt + 1)))
      (omega arith)

-- A number that is read at `str`, and the rest of a result behind it.
number_then-From :
    (m : Mem) (fmt str : ℕ) (rest : ℕ → FormatSpec) (ap : List Arg)
    → fmt ≤ str
    → Returns {A = ℕ × FormatSpec × List Arg}
        (λ r. fmt ≤ r.0)
        (do (str', n) ← parse_number m str; some (str', rest n, ap))
unfolding Returns
number_then-From m fmt str rest ap h =
    Returns-bind (From str) _ (parse_number m str) _ (parse_number-From m str) λ r k. omega arith

parse_field_width-From :
    (m : Mem) (fmt : ℕ) (spec : FormatSpec) (ap : List Arg)
    → Returns (λ r. fmt ≤ r.0) (parse_field_width m fmt spec ap)
unfolding Returns parse_field_width
parse_field_width-From m fmt spec ap = Returns-then _ (load m fmt) _ λ c.
    Returns-if _ (c == b'*') _ _ (Returns-then _ (next_int ap) _ λ w. omega arith) (
      Returns-if _ (isdigit (schar c)) _ _ (number_then-From m fmt fmt _ ap (omega arith)) (
        Returns-if _ (c == b'-') _ _
          (Returns-then _ (load m (fmt + 2)) _ λ d.
            Returns-if _ (isdigit (schar d)) _ _
              (number_then-From m fmt (fmt + 2) _ ap (omega arith)) (omega arith))
          (omega arith)))

parse_precision-From :
    (m : Mem) (fmt : ℕ) (spec : FormatSpec) (ap : List Arg)
    → Returns (λ r. fmt ≤ r.0) (parse_precision m fmt spec ap)
unfolding Returns parse_precision
parse_precision-From m fmt spec ap = Returns-then _ (load m fmt) _ λ c.
    Returns-if _ (not (c == b'.')) _ _ (omega arith) (
      Returns-then _ (load m (fmt + 1)) _ λ d.
        Returns-if _ (d == b'*') _ _ (Returns-then _ (next_int ap) _ λ p. omega arith) (
          Returns-if _ (d == b'-') _ _
            (Returns-bind (λ r. fmt + 1 ≤ r) _ (skip_digits (m.size - (fmt + 1)) m (fmt + 1)) _
              (skip_digits-From (m.size - (fmt + 1)) m (fmt + 1)) λ r h. omega arith)
            (Returns-if _ (isdigit (schar d)) _ _
              (number_then-From m fmt (fmt + 1) _ ap (omega arith)) (omega arith))))

pub parse_flags_fw_precision-From :
    (m : Mem) (fmt : ℕ) (spec : FormatSpec) (ap : List Arg)
    → Returns (λ r. fmt ≤ r.0) (parse_flags_fw_precision m fmt spec ap)
unfolding parse_flags_fw_precision
parse_flags_fw_precision-From m fmt spec ap =
    Returns-bind (From fmt) _ (flags_loop (m.size - fmt) m fmt (spec.flags)) _
      (flags_loop-From (m.size - fmt) m fmt (spec.flags))
      λ r h.
        let spec' = record spec { flags = r.1 } in
        Returns-bind (λ r'. r.0 ≤ r'.0) _ (parse_field_width m (r.0) spec' ap) _
          (parse_field_width-From m (r.0) spec' ap)
          λ r' h'.
            Returns-weaken (λ r''. r'.0 ≤ r''.0) _ (parse_precision m (r'.0) (r'.1) (r'.2))
              (λ r'' h''. omega arith) (parse_precision-From m (r'.0) (r'.1) (r'.2))

pub parse_size_specifier-From :
    (m : Mem) (fmt : ℕ) (spec : FormatSpec) → Returns (From fmt) (parse_size_specifier m fmt spec)
unfolding Returns parse_size_specifier
parse_size_specifier-From m fmt spec = Returns-then _ (load m fmt) _ λ c.
    Returns-if _ (c == b'h') _ _ (Returns-then _ (load m (fmt + 1)) _ λ d. ground arith) (
      Returns-if _ (c == b'l') _ _ (Returns-then _ (load m (fmt + 1)) _ λ d. ground arith) (
        Returns-if _ (c == b'z') _ _ (omega arith)
          (Returns-if _ (c == b't') _ _ (omega arith) (omega arith))))
