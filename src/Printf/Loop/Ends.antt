-- ===== src/Printf/Loop/Ends.antt =====
-- The loop of vsnprintf comes to an end whatever the format is: each of its rounds keeps the size of
-- memory and gets further in the format.
use osdev_libstdc.Base.{
  Option, ap, arith, if◌then◌else◌, inl, inr, leb, not, refl, some, suc, sym, ℕ, ◌&&◌, ◌+◌, ◌-◌,
  ◌<◌, ◌==◌, ◌>>=◌, ◌||◌, ◌∙◌, ◌≡◌, ◌≤◌, ◌⊎◌,
}
use osdev_libstdc.Base.Int.{pos, ◌-ℤ◌}
use osdev_libstdc.Base.Returns.{
  Returns, Returns-bind, Returns-if, Returns-then, bind-if, bind_assoc, then_ext,
}
use osdev_libstdc.Base.Runs.{IsLess, Runs, carry_on, loop-Runs}
use osdev_libstdc.Memory.{load}
use osdev_libstdc.Memory.Sizes.{Sized, load-inside, past_end}
use osdev_libstdc.Printf.Loop.{
  Frame, State, conversion, dispatch, literal, put_char, vsnprintf_loop,
}
use osdev_libstdc.Printf.Loop.Sizes.{dispatch-Sized, put_char-Sized}
use osdev_libstdc.Printf.Spec.{
  FormatFlags, flags_loop, parse_flags_fw_precision, parse_number_loop, parse_size_specifier, reset,
  skip_digits,
}
use osdev_libstdc.Printf.Spec.Advance.{
  From, parse_flags_fw_precision-From, parse_size_specifier-From,
}
use osdev_libstdc.Printf.Spec.Runs.{
  flag_round, flags_loop-Runs, number_round, parse_number_loop-Runs, skip_digits-Runs, skip_round,
}

-- `s'` has memory of the same size as `s`, and is further in the format.
abbrev pub IsFurther : State → State → Type 0
IsFurther s s' = Sized (s.mem) (s'.mem) × (s.fmt + 1 ≤ s'.fmt)

literal-IsFurther : (c : ℕ) (s : State) → Returns (IsFurther s) (literal c s)
unfolding Returns literal
literal-IsFurther c s =
    Returns-bind (λ r. Sized (s.mem) (r.2)) _
      (put_char (s.mem) (s.pos_at) c (reset (s.spec)) (s.args)) _
      (put_char-Sized (s.mem) (s.pos_at) c (reset (s.spec)) (s.args)) λ r h. (h, omega arith)

conversion-IsFurther :
    (frame : Frame) (buf size : ℕ) (s : State) → Returns (IsFurther s) (conversion frame buf size s)
unfolding Returns conversion
conversion-IsFurther frame buf size s =
    Returns-bind (λ r. s.fmt + 1 ≤ r.0) _
      (parse_flags_fw_precision (s.mem) (s.fmt + 1) (reset (s.spec)) (s.args)) _
      (parse_flags_fw_precision-From (s.mem) (s.fmt + 1) (reset (s.spec)) (s.args))
      λ r h.
        Returns-bind (From (r.0)) _ (parse_size_specifier (s.mem) (r.0) (r.1)) _
          (parse_size_specifier-From (s.mem) (r.0) (r.1))
          λ r' h'.
            let spec'' = r'.1 in
            let fl = record (spec''.flags) {
              f_zero = spec''.flags.f_zero && not (spec''.flags.f_minus);
            } in
            let room = pos size -ℤ pos (s.written) in
            let past = pos size -ℤ pos (s.i) in
            Returns-then _ (load (s.mem) (r'.0)) _ λ c.
              Returns-bind (λ d. Sized (s.mem) (d.2)) _
                (dispatch (s.mem) frame c (s.pos_at) (s.written) (record spec'' { flags = fl }) room
                  past (r.2))
                _
                (dispatch-Sized (s.mem) frame c (s.pos_at) (s.written)
                  (record spec'' { flags = fl }) room past (r.2))
                λ d k. (k, omega arith)

module _ (frame : Frame) (buf size : ℕ) where
  -- One round of the loop: it stops at a NUL and where there is no room left.
  abbrev pub format_round : State → Option (State ⊎ State)
  format_round s = do
    c ← load (s.mem) (s.fmt)
    if c == 0 || leb size (s.written)
        then some (inr s)
        else do s' ← (if c == b'%' then conversion frame buf size s else literal c s); some (inl s')

  abbrev left_over : State → ℕ
  left_over s = s.mem.size - s.fmt

  format_round-IsLess : (s : State) → Returns (IsLess left_over s) (format_round s)
  unfolding Returns
  format_round-IsLess s =
      Returns-bind (λ c. s.fmt < s.mem.size) _ (load (s.mem) (s.fmt)) _
        (load-inside (s.mem) (s.fmt))
        λ c h. Returns-if _ (c == 0 || leb size (s.written)) _ _ tt (
          Returns-bind (IsFurther s) _
            (if c == b'%' then conversion frame buf size s else literal c s) _
            (Returns-if _ (c == b'%') _ _ (conversion-IsFurther frame buf size s)
              (literal-IsFurther c s))
            λ s' further. omega arith)

  round_unroll :
      (k : ℕ) (s : State)
      → vsnprintf_loop (suc k) frame buf size s
        ≡ format_round s >>= carry_on (vsnprintf_loop k frame buf size)
  unfolding vsnprintf_loop
  round_unroll k s =
      let rest = carry_on (vsnprintf_loop k frame buf size) in
      sym (
        bind_assoc (load (s.mem) (s.fmt)) _ rest
        ∙ then_ext (load (s.mem) (s.fmt)) _ _ λ c.
          bind-if (c == 0 || leb size (s.written)) _ _ rest
          ∙ ap (λ x. if c == 0 || leb size (s.written) then some s else x)
              (bind_assoc (if c == b'%' then conversion frame buf size s else literal c s)
                (λ s'. some (inl s')) rest))

  format_loop-Runs :
      (k : ℕ) (s : State)
      → left_over s ≤ k
      → Runs format_round s (vsnprintf_loop k frame buf size s)
  unfolding vsnprintf_loop
  format_loop-Runs =
      loop-Runs format_round left_over (λ n s. vsnprintf_loop n frame buf size s)
        (λ s e. sym (past_end (s.mem) (s.fmt) _ (omega arith))) (λ s. refl) round_unroll
        format_round-IsLess

-- The loop of vsnprintf, the loop over the flags, the one that reads a number and the one that skips
-- digits end for every format, whatever stands in it, and for all arguments: with as many rounds as
-- there are addresses from their place in the format to the end of memory, or more, what each gives is
-- the end of a finite run of its rounds, where no number of rounds is set. So each comes to a result,
-- or else a round of the run faults.
pub vsnprintf_loop-Runs :
    (frame : Frame) (buf size : ℕ) (s : State) (fl : FormatFlags) (v k : ℕ)
    → s.mem.size - s.fmt ≤ k
    → Runs (format_round frame buf size) s (vsnprintf_loop k frame buf size s)
      × Runs (flag_round (s.mem)) (s.fmt, fl) (flags_loop k (s.mem) (s.fmt) fl)
      × Runs (number_round (s.mem)) (s.fmt, v) (parse_number_loop k (s.mem) (s.fmt) v)
      × Runs (skip_round (s.mem)) (s.fmt) (skip_digits k (s.mem) (s.fmt))
vsnprintf_loop-Runs frame buf size s fl v k h = (
  format_loop-Runs frame buf size k s h,
  flags_loop-Runs (s.mem) k (s.fmt) fl h,
  parse_number_loop-Runs (s.mem) k (s.fmt) v h,
  skip_digits-Runs (s.mem) k (s.fmt) (omega arith),
)
