-- ===== src/Cstring/Length/Laws.antt =====
-- Lemmas on strlen and strnlen.
use osdev_libstdc.Base.{
  Bool-cases, List, Option-cases, [], ap, arith, inl, inr, length, some, suc, zero, ℕ, ◌+◌, ◌-◌,
  ◌<◌, ◌==◌, ◌↔◌, ◌∙◌, ◌∷◌, ◌≡◌,
}
use osdev_libstdc.Cstring.Length.{strlen, strlen_loop, strnlen}
use osdev_libstdc.Memory.{IsString, Mem, load}
use osdev_libstdc.Memory.Strings.{IsByteMem, IsString-lt-size, IsString-tail}
use Prim.Native.Nat.{min}

strlen_loop-length :
    (k : ℕ) (m : Mem) (p res : ℕ) (s : List ℕ)
    → length s < k
    → IsString m p s
    → strlen_loop k m p res ≡ some (res + length s)
unfolding strlen_loop
strlen_loop-length zero m p res s lt h = absurd (omega arith)
strlen_loop-length (suc k) m p res [] lt h = rw h.0.0 (ap some (omega arith))
strlen_loop-length (suc k) m p res (c ∷ s) lt h = ground (
  arith,
  h.0.0,
  h.1.0,
  strlen_loop-length k m (p + 1) (res + 1) s (omega arith) (IsString-tail m p c s h),
)

-- At a string strlen returns the number of its characters.
pub strlen-length :
    (m : Mem) (str : ℕ) (s : List ℕ) → IsString m str s → strlen m str ≡ some (length s)
unfolding strlen
strlen-length m str s h =
    strlen_loop-length (m.size - str) m str 0 s (omega (arith, IsString-lt-size m str s h)) h
    ∙ ap some (omega arith)

strlen_loop_sound :
    (k : ℕ) (m : Mem) (p res n : ℕ)
    → IsByteMem m
    → strlen_loop k m p res ≡ some n
    → (s : List ℕ) × IsString m p s × (n ≡ res + length s)
unfolding strlen_loop
strlen_loop_sound zero m p res n bytes h = absurd (cc)
strlen_loop_sound (suc k) m p res n bytes h = elim (Option-cases (load m p)) [
  | inl gone ↦ absurd (ground arith)
  | inr (c, here) ↦ elim (Bool-cases (c == 0)) [
    | inl last ↦ ([], ((here ∙ ap some (ground arith), tt), tt), ground arith)
    | inr more ↦
        let (s, h', e) = strlen_loop_sound k m (p + 1) (res + 1) n bytes (ground arith) in
        (c ∷ s, ((here, h'.0), (ground arith, bytes p c here, h'.1)), omega arith)
  ]
]

strlen_iff :
    (m : Mem) (str n : ℕ)
    → IsByteMem m
    → (strlen m str ≡ some n) ↔ ((s : List ℕ) × IsString m str s × (length s ≡ n))
unfolding strlen
strlen_iff m str n bytes = (
  λ h. let (s, h', e) = strlen_loop_sound (m.size - str) m str 0 n bytes h in (s, h', omega arith),
  λ t. strlen-length m str t.0 t.1 ∙ ap some t.2,
)

-- At a string strnlen returns the smaller of the string's length and the bound.
pub strnlen-min :
    (m : Mem) (str max_len : ℕ) (s : List ℕ)
    → IsString m str s
    → strnlen m str max_len ≡ some (min (length s) max_len)
unfolding strnlen
strnlen-min m str max_len s h = rw (strlen-length m str s h)

-- strnlen has no result without a NUL, whatever its bound is.
strnlen_iff :
    (m : Mem) (str max_len n : ℕ)
    → IsByteMem m
    → (strnlen m str max_len ≡ some n)
      ↔ ((s : List ℕ) × IsString m str s × (min (length s) max_len ≡ n))
unfolding strnlen
strnlen_iff m str max_len n bytes = (
  λ h. elim (Option-cases (strlen m str)) [
    | inl gone ↦ absurd (ground arith)
    | inr (len, found) ↦
        let (s, h', e) = (strlen_iff m str len bytes).0 found in (s, h', ground arith)
  ],
  λ t. strnlen-min m str max_len t.0 t.1 ∙ ap some t.2,
)

-- strlen returns `n` exactly when a string of `n` characters stands at its argument, and strnlen
-- exactly when a string stands there whose length, or else the bound if that is smaller, is `n`. So
-- both fault exactly when no NUL ends the mapped bytes from there on, strnlen also where its bound
-- keeps to the mapped bytes.
pub lengths_iff :
    (m : Mem) (str max_len n : ℕ)
    → IsByteMem m
    → ((strlen m str ≡ some n) ↔ ((s : List ℕ) × IsString m str s × (length s ≡ n)))
      × ((strnlen m str max_len ≡ some n)
          ↔ ((s : List ℕ) × IsString m str s × (min (length s) max_len ≡ n)))
lengths_iff m str max_len n bytes = (strlen_iff m str n bytes, strnlen_iff m str max_len n bytes)
