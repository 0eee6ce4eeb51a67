-- ===== src/Cstring/Edit/Reverse.antt =====
-- Lemmas on strrev.
use osdev_libstdc.Base.{
  List, [], ap, arith, false, inr, is_some, length, length-append, ltb, lt→ltb, refl, reverse,
  snoc_view, some, suc, sym, zero, ℕ, ◌++◌, ◌+◌, ◌-◌, ◌<◌, ◌∙◌, ◌∷◌, ◌≡◌, ◌≤◌,
}
use osdev_libstdc.Cstring.Build.Appending.{IsChars-append}
use osdev_libstdc.Cstring.Edit.{strrev, strrev_loop}
use osdev_libstdc.Cstring.Length.Laws.{strlen-length}
use osdev_libstdc.Memory.{Bytes, IsChars, IsString, Mapped, Mem, load, write, write_list}
use osdev_libstdc.Memory.Laws.{
  Bytes-Mapped, Bytes-append, Bytes-append_left, Bytes-append_right, Bytes-write,
  Bytes-write_list_self, is_some-load-write, load-write_list_out, store-eq-write, write_list-Bytes,
  write_list-append, write_list-write, write_list-write_list,
}
use osdev_libstdc.Memory.Strings.{IsString-Bytes, IsString-end}
use mathlib.Core.List.{reverse-append, reverse-reverse}
use native.Mathlib.Nat.{le_refl}

two_ends :
    (n : ℕ) (bs : List ℕ)
    → length bs ≡ suc (suc n)
    → (x : ℕ) × (mid : List ℕ) × (y : ℕ) × (bs ≡ x ∷ (mid ++ y ∷ [])) × (length mid ≡ n)
two_ends n [] e = absurd (omega arith)
two_ends n (x ∷ bs) e =
    let (mid, y, split, len) = snoc_view n bs (omega arith) in
    (x, mid, y, ap (λ t. x ∷ t) split, len)

reverse_ends :
    (x y : ℕ) (mid : List ℕ) → reverse (x ∷ (mid ++ y ∷ [])) ≡ y ∷ (reverse mid ++ x ∷ [])
reverse_ends x y mid =
    reverse-append (x ∷ mid) (y ∷ []) ∙ ap (λ t. y ∷ t) (reverse-append (x ∷ []) mid)

length-reverse : (n : ℕ) (s : List ℕ) → length s ≡ n → length (reverse s) ≡ n
length-reverse zero [] e = refl
length-reverse zero (x ∷ s) e = absurd (omega arith)
length-reverse (suc n) [] e = absurd (omega arith)
length-reverse (suc n) (x ∷ s) e =
    rw (reverse-append (x ∷ []) s)
      (omega (arith, length-append (reverse s) (x ∷ []), length-reverse n s (omega arith)))

reverse_short : (bs : List ℕ) → length bs < 2 → reverse bs ≡ bs
reverse_short [] h = refl
reverse_short (x ∷ []) h = refl
reverse_short (x ∷ y ∷ bs) h = absurd (omega arith)

-- One round: the characters at the two ends change places.
strrev_loop_round :
    (k : ℕ) (m : Mem) (str i j x y : ℕ)
    → i < j
    → load m (str + i) ≡ some x
    → load m (str + j) ≡ some y
    → strrev_loop (suc k) m str i j
      ≡ strrev_loop k (write (write m (str + i) y) (str + j) x) str (i + 1) (j - 1)
unfolding strrev_loop
strrev_loop_round k m str i j x y lt hx hy = rw (
  lt→ltb i j lt,
  hx,
  hy,
  store-eq-write m (str + i) y (ap is_some hx),
  store-eq-write (write m (str + i) y) (str + j) x
      (is_some-load-write m (str + i) y (str + j) (ap is_some hx) ∙ ap is_some hy),
)

write_list_ends :
    (m : Mem) (p q x y : ℕ) (mid : List ℕ)
    → q ≡ p + 1 + length mid
    → write_list m p (y ∷ (mid ++ x ∷ [])) ≡ write_list (write (write m p y) q x) (p + 1) mid
unfolding write_list
write_list_ends m p q x y mid e =
    write_list-append (write m p y) (p + 1) mid (x ∷ [])
    ∙ rw (← e) (sym (write_list-write (write m p y) (p + 1) mid q x (omega arith)))

strrev_loop-reverse :
    (k n : ℕ) (m : Mem) (str i j : ℕ) (bs : List ℕ)
    → length bs ≡ n
    → n ≤ k
    → i + n ≡ j + 1
    → Bytes m (str + i) bs
    → strrev_loop k m str i j ≡ some (write_list m (str + i) (reverse bs))
unfolding strrev_loop
strrev_loop-reverse zero n m str i j bs e le ij h =
    let r = reverse_short bs (omega arith) in rw (r, write_list-Bytes m (str + i) bs h)
strrev_loop-reverse (suc k) zero m str i j bs e le ij h =
    let stop : ltb i j ≡ false = ground arith in
    let r = reverse_short bs (omega arith) in rw (stop, r, write_list-Bytes m (str + i) bs h)
strrev_loop-reverse (suc k) (suc zero) m str i j bs e le ij h =
    let stop : ltb i j ≡ false = ground arith in
    let r = reverse_short bs (omega arith) in rw (stop, r, write_list-Bytes m (str + i) bs h)
strrev_loop-reverse (suc k) (suc (suc n)) m str i j bs e le ij h =
    let (x, mid, y, split, len) = two_ends n bs e in
    let h' : Bytes m (str + i) (x ∷ (mid ++ y ∷ [])) = rw split at h in
    let at_j : str + i + 1 + length mid ≡ str + j = omega arith in
    let at_i : str + i + 1 ≡ str + (i + 1) = omega arith in
    let last : load m (str + j) ≡ some y =
      rw at_j at (Bytes-append_right m (str + i + 1) mid (y ∷ []) h'.1).0 in
    let m' = write (write m (str + i) y) (str + j) x in
    let inner : Bytes m' (str + (i + 1)) mid = rw at_i at (
      Bytes-write (write m (str + i) y) (str + i + 1) mid (str + j) x (omega arith) (
        Bytes-write m (str + i + 1) mid (str + i) y (omega arith)
          (Bytes-append_left m (str + i + 1) mid (y ∷ []) h'.1))) in
    let turned : reverse bs ≡ y ∷ (reverse mid ++ x ∷ []) =
      ap reverse split ∙ reverse_ends x y mid in
    let q : str + j ≡ str + i + 1 + length (reverse mid) =
      omega (arith, length-reverse n mid len) in
    strrev_loop_round k m str i j x y (omega arith) h'.0 last
    ∙ strrev_loop-reverse k n m' str (i + 1) (j - 1) mid len (omega arith) (omega arith) inner
    ∙ ap some (
        ap (λ t. write_list m' t (reverse mid)) (sym at_i)
        ∙ sym (
            ap (write_list m (str + i)) turned
            ∙ write_list_ends m (str + i) (str + j) x y (reverse mid) q))

-- strrev returns its argument and turns the order of the characters of the string round; the NUL
-- stays where it is, and nothing else changes.
pub strrev-reverse :
    (m : Mem) (str : ℕ) (s : List ℕ)
    → IsString m str s
    → strrev m (some str) ≡ some (some str, write_list m str (reverse s))
unfolding strrev
strrev-reverse m str [] h = rw (strlen-length m str [] h) (unfold write_list in refl)
strrev-reverse m str (c ∷ s) h =
    let e : str + 0 ≡ str = omega arith in
    let loop =
      strrev_loop-reverse (suc (length s)) (suc (length s)) m str 0 (suc (length s) - 1) (c ∷ s)
        refl (omega arith) (omega arith) (rw e (IsString-Bytes m str (c ∷ s) h)) in
    rw (strlen-length m str (c ∷ s) h, lt→ltb 0 (suc (length s)) (omega arith), loop, e)

IsChars-reverse : (s : List ℕ) → IsChars s → IsChars (reverse s)
IsChars-reverse [] h = tt
IsChars-reverse (c ∷ s) h =
    rw (reverse-append (c ∷ []) s)
      (IsChars-append (reverse s) (c ∷ []) (IsChars-reverse s h.2) (h.0, h.1, tt))

-- strrev leaves at its argument the characters in the opposite order, as a string, and a second call
-- restores memory as it was.
pub strrev-strrev :
    (m : Mem) (str : ℕ) (s : List ℕ)
    → IsString m str s
    → (m' : Mem) × (strrev m (some str) ≡ some (some str, m'))
      × IsString m' str (reverse s)
      × (strrev m' (some str) ≡ some (some str, m))
strrev-strrev m str s h =
    let m' = write_list m str (reverse s) in
    let same : length (reverse s) ≡ length s = length-reverse (length s) s refl in
    let bytes = IsString-Bytes m str s h in
    let room : Mapped m str (length (reverse s)) = rw same (Bytes-Mapped m str s bytes) in
    let nul : load m' (str + length (reverse s)) ≡ some 0 =
      load-write_list_out m str (reverse s) (str + length (reverse s)) (inr (le_refl _))
      ∙ (rw same (IsString-end m str s h)) in
    let there : IsString m' str (reverse s) = (
      Bytes-append m' str (reverse s) (0 ∷ []) (Bytes-write_list_self m str (reverse s) room)
          (nul, tt),
      IsChars-reverse s h.1,
    ) in
    (
      m',
      strrev-reverse m str s h,
      there,
      strrev-reverse m' str (reverse s) there
          ∙ ap (λ t. some (some str, t))
              (ap (write_list m' str) (reverse-reverse s)
                ∙ write_list-write_list m str (reverse s) s same
                ∙ write_list-Bytes m str s bytes),
    )
