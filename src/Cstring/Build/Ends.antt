-- ===== src/Cstring/Build/Ends.antt =====
-- The loops of strcpy and strcat, round by round: they end, also where the two ranges overlap.
use osdev_libstdc.Base.{
  Option, ap, arith, if◌then◌else◌, inl, inr, refl, some, suc, sym, ℕ, ◌+◌, ◌-◌, ◌<◌, ◌==◌, ◌>>=◌,
  ◌∙◌, ◌≡◌, ◌≤◌, ◌⊎◌,
}
use osdev_libstdc.Base.Returns.{
  Returns, Returns-bind, Returns-if, Returns-then, bind-if, bind_assoc, then_ext,
}
use osdev_libstdc.Base.Runs.{IsLess, Runs, carry_on, loop-Runs}
use osdev_libstdc.Cstring.Build.{end_loop, strcat_loop, strcpy_loop}
use osdev_libstdc.Memory.{Mem, load, store}
use osdev_libstdc.Memory.Sizes.{Sized, load-inside, past_end, store-Sized}

-- The copying loops at a memory, a destination and a source.
abbrev Place : Type 0
Place = Mem × ℕ × ℕ

-- The distance from the source to the end of memory.
abbrev left_over : Place → ℕ
left_over p = p.0.size - p.2

-- A round of strcpy: one character is copied, and both are read again.
abbrev pub strcpy_round : Mem × ℕ × ℕ → Option ((Mem × ℕ × ℕ) ⊎ Mem)
strcpy_round (m, d, s) = do
  b ← load m s
  m' ← store m d b
  c ← load m' s
  if c == 0
      then some (inr m')
      else do c' ← load m' d; if c' == 0 then some (inr m') else some (inl (m', d + 1, s + 1))

strcpy_round-IsLess :
    (m : Mem) (d s : ℕ) → Returns (IsLess left_over (m, d, s)) (strcpy_round (m, d, s))
unfolding Returns
strcpy_round-IsLess m d s =
    Returns-bind (λ b. s < m.size) _ (load m s) _ (load-inside m s)
      λ b inside. Returns-bind (Sized m) _ (store m d b) _ (store-Sized m d b) λ m' same.
        Returns-then _ (load m' s) _ λ c.
          Returns-if _ (c == 0) _ _ tt
            (Returns-then _ (load m' d) _ λ c'. Returns-if _ (c' == 0) _ _ tt (omega arith))

strcpy_unroll :
    (k : ℕ) (m : Mem) (d s : ℕ)
    → strcpy_loop (suc k) m d s
      ≡ strcpy_round (m, d, s) >>= carry_on (λ p. strcpy_loop k p.0 p.1 p.2)
unfolding strcpy_loop
strcpy_unroll k m d s =
    let rest = carry_on (λ (p : Mem × ℕ × ℕ). strcpy_loop k p.0 p.1 p.2) in
    sym (
      bind_assoc (load m s) _ rest
      ∙ then_ext (load m s) _ _ λ b.
        bind_assoc (store m d b) _ rest
        ∙ then_ext (store m d b) _ _ λ m'.
          bind_assoc (load m' s) _ rest
          ∙ then_ext (load m' s) _ _ λ c.
            bind-if (c == 0) _ _ rest
            ∙ ap (λ x. if c == 0 then some m' else x)
                (bind_assoc (load m' d) _ rest
                  ∙ then_ext (load m' d) _ _ λ c'. bind-if (c' == 0) _ _ rest))

-- A round of strcat's copying loop.
abbrev pub strcat_round : Mem × ℕ × ℕ → Option ((Mem × ℕ × ℕ) ⊎ (ℕ × Mem))
strcat_round (m, d, s) = do
  c ← load m s
  if c == 0 then some (inr (d, m)) else do m' ← store m d c; some (inl (m', d + 1, s + 1))

strcat_round-IsLess :
    (m : Mem) (d s : ℕ) → Returns (IsLess left_over (m, d, s)) (strcat_round (m, d, s))
unfolding Returns
strcat_round-IsLess m d s =
    Returns-bind (λ c. s < m.size) _ (load m s) _ (load-inside m s)
      λ c inside.
        Returns-if _ (c == 0) _ _ tt
          (Returns-bind (Sized m) _ (store m d c) _ (store-Sized m d c) λ m' same. omega arith)

strcat_unroll :
    (k : ℕ) (m : Mem) (d s : ℕ)
    → strcat_loop (suc k) m d s
      ≡ strcat_round (m, d, s) >>= carry_on (λ p. strcat_loop k p.0 p.1 p.2)
unfolding strcat_loop
strcat_unroll k m d s =
    let rest = carry_on (λ (p : Mem × ℕ × ℕ). strcat_loop k p.0 p.1 p.2) in
    sym (
      bind_assoc (load m s) _ rest
      ∙ then_ext (load m s) _ _ λ c.
        bind-if (c == 0) _ _ rest
        ∙ ap (λ x. if c == 0 then some (d, m) else x) (bind_assoc (store m d c) _ rest))

-- A round of the loop that looks for the end of a string.
abbrev pub end_round : Mem → ℕ → Option (ℕ ⊎ ℕ)
end_round m d = do c ← load m d; if c == 0 then some (inr d) else some (inl (d + 1))

end_round-IsLess : (m : Mem) (d : ℕ) → Returns (IsLess (λ p. m.size - p) d) (end_round m d)
unfolding Returns
end_round-IsLess m d =
    Returns-bind (λ c. d < m.size) _ (load m d) _ (load-inside m d)
      λ c inside. Returns-if _ (c == 0) _ _ tt (omega arith)

end_unroll : (m : Mem) (k d : ℕ) → end_loop (suc k) m d ≡ end_round m d >>= carry_on (end_loop k m)
unfolding end_loop
end_unroll m k d = sym (
    bind_assoc (load m d) _ (carry_on (end_loop k m))
    ∙ then_ext (load m d) _ _ λ c. bind-if (c == 0) _ _ (carry_on (end_loop k m)))

-- The loops of strcpy and strcat that copy, and the one that looks for the end of the first string,
-- end wherever the two arguments point, also where a copy overwrites a NUL that it has not reached
-- yet: with as many rounds as there are addresses from the one that they read to the end of memory, or
-- more, what each gives is the end of a finite run of its rounds, where no number of rounds is set. So
-- each comes to a result, or else an access of the run faults.
pub copies-Runs :
    (m : Mem) (d s k : ℕ)
    → m.size - s ≤ k
    → Runs strcpy_round (m, d, s) (strcpy_loop k m d s)
      × Runs strcat_round (m, d, s) (strcat_loop k m d s)
      × Runs (end_round m) s (end_loop k m s)
unfolding strcpy_loop strcat_loop end_loop
copies-Runs m d s k h = (
  loop-Runs strcpy_round left_over (λ n p. strcpy_loop n p.0 p.1 p.2)
      (λ p e. sym (past_end p.0 p.2 _ (omega arith))) (λ p. refl)
      (λ n p. strcpy_unroll n p.0 p.1 p.2) (λ p. strcpy_round-IsLess p.0 p.1 p.2) k (m, d, s) h,
  loop-Runs strcat_round left_over (λ n p. strcat_loop n p.0 p.1 p.2)
      (λ p e. sym (past_end p.0 p.2 _ (omega arith))) (λ p. refl)
      (λ n p. strcat_unroll n p.0 p.1 p.2) (λ p. strcat_round-IsLess p.0 p.1 p.2) k (m, d, s) h,
  loop-Runs (end_round m) (λ p. m.size - p) (λ n p. end_loop n m p)
      (λ p e. sym (past_end m p _ (omega arith))) (λ p. refl) (end_unroll m) (end_round-IsLess m) k
      s h,
)
