-- ===== src/Printf/Spec/Runs.antt =====
-- The loops that read a specification, round by round: each comes to its end, at the latest with a
-- fault at the end of memory.
use osdev_libstdc.Base.{
  Option, ap, arith, if◌then◌else◌, inl, inr, ltb, none, refl, some, suc, sym, ℕ, ◌*◌, ◌+◌, ◌-◌,
  ◌<◌, ◌>>=◌, ◌∙◌, ◌≡◌, ◌≤◌, ◌⊎◌,
}
use osdev_libstdc.Base.Int.{schar}
use osdev_libstdc.Base.Returns.{
  Returns, Returns-bind, Returns-elim, Returns-if, bind-elim, bind-if, bind_assoc, then_ext,
}
use osdev_libstdc.Base.Runs.{IsLess, Runs, carry_on, loop-Runs}
use osdev_libstdc.Ctype.{isdigit}
use osdev_libstdc.Memory.{Mem, load}
use osdev_libstdc.Memory.Sizes.{load-inside, past_end}
use osdev_libstdc.Printf.Spec.{
  FormatFlags, flags_loop, int_limit, parse_number_loop, set_flag, skip_digits,
}

-- while (isdigit(*++fmt)) {}
abbrev pub skip_round : Mem → ℕ → Option (ℕ ⊎ ℕ)
skip_round m fmt = do
  c ← load m (fmt + 1)
  if isdigit (schar c) then some (inl (fmt + 1)) else some (inr (fmt + 1))

skip_round-IsLess :
    (m : Mem) (fmt : ℕ) → Returns (IsLess (λ s. m.size - (s + 1)) fmt) (skip_round m fmt)
unfolding Returns
skip_round-IsLess m fmt =
    Returns-bind (λ c. fmt + 1 < m.size) _ (load m (fmt + 1)) _ (load-inside m (fmt + 1))
      λ c h. Returns-if _ (isdigit (schar c)) _ _ (omega arith) tt

skip_unroll :
    (m : Mem) (k fmt : ℕ)
    → skip_digits (suc k) m fmt ≡ skip_round m fmt >>= carry_on (skip_digits k m)
unfolding skip_digits
skip_unroll m k fmt = sym (
    bind_assoc (load m (fmt + 1)) _ (carry_on (skip_digits k m))
    ∙ then_ext (load m (fmt + 1)) _ _
        λ c. bind-if (isdigit (schar c)) _ _ (carry_on (skip_digits k m)))

pub skip_digits-Runs :
    (m : Mem) (k fmt : ℕ) → m.size - (fmt + 1) ≤ k → Runs (skip_round m) fmt (skip_digits k m fmt)
unfolding skip_digits
skip_digits-Runs m k fmt h =
    loop-Runs (skip_round m) (λ s. m.size - (s + 1)) (λ n s. skip_digits n m s)
      (λ s e. sym (past_end m (s + 1) _ (omega arith))) (λ s. refl) (skip_unroll m)
      (skip_round-IsLess m) k fmt h

-- The loop of parse_number at an address, with the number read so far.
abbrev pub number_round : Mem → ℕ × ℕ → Option ((ℕ × ℕ) ⊎ (ℕ × ℕ))
number_round m (str, v) = do
  c ← load m str
  if isdigit (schar c)
      then (if ltb (v * 10 + (c - b'0')) int_limit
          then some (inl (str + 1, v * 10 + (c - b'0')))
          else none)
      else some (inr (str, v))

number_round-IsLess :
    (m : Mem) (str v : ℕ) → Returns (IsLess (λ s. m.size - s.0) (str, v)) (number_round m (str, v))
unfolding Returns
number_round-IsLess m str v =
    Returns-bind (λ c. str < m.size) _ (load m str) _ (load-inside m str)
      λ c h.
        Returns-if _ (isdigit (schar c)) _ _
          (Returns-if _ (ltb (v * 10 + (c - b'0')) int_limit) _ _ (omega arith) tt) tt

number_unroll :
    (m : Mem) (k str v : ℕ)
    → parse_number_loop (suc k) m str v
      ≡ number_round m (str, v) >>= carry_on (λ s. parse_number_loop k m (s.0) (s.1))
unfolding parse_number_loop
number_unroll m k str v =
    let rest = carry_on (λ (s : ℕ × ℕ). parse_number_loop k m (s.0) (s.1)) in
    sym (
      bind_assoc (load m str) _ rest
      ∙ then_ext (load m str) _ _ λ c.
        let v' = v * 10 + (c - b'0') in
        bind-if (isdigit (schar c)) _ _ rest
        ∙ ap (λ x. if isdigit (schar c) then x else some (str, v))
            (bind-if (ltb v' int_limit) (some (inl (str + 1, v'))) none rest))

pub parse_number_loop-Runs :
    (m : Mem) (k str v : ℕ)
    → m.size - str ≤ k
    → Runs (number_round m) (str, v) (parse_number_loop k m str v)
unfolding parse_number_loop
parse_number_loop-Runs m k str v h =
    loop-Runs (number_round m) (λ s. m.size - s.0) (λ n s. parse_number_loop n m (s.0) (s.1))
      (λ s e. sym (past_end m (s.0) _ (omega arith))) (λ s. refl)
      (λ n s. number_unroll m n (s.0) (s.1)) (λ s. number_round-IsLess m (s.0) (s.1)) k (str, v) h

-- The loop over the flags at an address, with the flags set so far.
abbrev pub flag_round : Mem → ℕ × FormatFlags → Option ((ℕ × FormatFlags) ⊎ (ℕ × FormatFlags))
flag_round m (fmt, fl) = do
  c ← load m fmt
  elim (set_flag fl c) [ some fl' ↦ some (inl (fmt + 1, fl')) | none ↦ some (inr (fmt, fl)) ]

flag_round-IsLess :
    (m : Mem) (fmt : ℕ) (fl : FormatFlags)
    → Returns (IsLess (λ s. m.size - s.0) (fmt, fl)) (flag_round m (fmt, fl))
unfolding Returns
flag_round-IsLess m fmt fl =
    Returns-bind (λ c. fmt < m.size) _ (load m fmt) _ (load-inside m fmt)
      λ c h. Returns-elim _ (set_flag fl c) _ _ (λ fl'. omega arith) tt

flag_unroll :
    (m : Mem) (k fmt : ℕ) (fl : FormatFlags)
    → flags_loop (suc k) m fmt fl
      ≡ flag_round m (fmt, fl) >>= carry_on (λ s. flags_loop k m (s.0) (s.1))
unfolding flags_loop
flag_unroll m k fmt fl =
    let rest = carry_on (λ (s : ℕ × FormatFlags). flags_loop k m (s.0) (s.1)) in
    sym (
      bind_assoc (load m fmt) _ rest
      ∙ then_ext (load m fmt) _ _ λ c.
        bind-elim (set_flag fl c) (λ fl'. some (inl (fmt + 1, fl'))) (some (inr (fmt, fl))) rest)

pub flags_loop-Runs :
    (m : Mem) (k fmt : ℕ) (fl : FormatFlags)
    → m.size - fmt ≤ k
    → Runs (flag_round m) (fmt, fl) (flags_loop k m fmt fl)
unfolding flags_loop
flags_loop-Runs m k fmt fl h =
    loop-Runs (flag_round m) (λ s. m.size - s.0) (λ n s. flags_loop n m (s.0) (s.1))
      (λ s e. sym (past_end m (s.0) _ (omega arith))) (λ s. refl)
      (λ n s. flag_unroll m n (s.0) (s.1)) (λ s. flag_round-IsLess m (s.0) (s.1)) k (fmt, fl) h
