-- ===== src/Cstring/Search/Spans.antt =====
-- strspn, strcspn, strpbrk and strstr, on top of strchr, strlen and strncmp.
use osdev_libstdc.Base.{
  Bool, Bool-cases, List, Option, [], any, ap, arith, false, find_index, if◌then◌else◌, inl, inr,
  leb, leb→le, length, none, not, refl, some, suc, take, take_while, true, zero, ℕ, ◌&&◌, ◌+◌, ◌-◌,
  ◌<◌, ◌==◌, ◌∙◌, ◌∷◌, ◌≡◌, ◌≤◌,
}
use osdev_libstdc.Base.Int.{eqb_ℤ, pos, ◌-ℤ◌}
use osdev_libstdc.Cstring.Compare.Laws.{char_diff, strncmp-char_diff}
use osdev_libstdc.Cstring.Length.Laws.{strlen-length}
use osdev_libstdc.Cstring.Search.{
  strcspn, strcspn_loop, strpbrk, strpbrk_loop, strspn, strspn_loop, strstr, strstr_loop,
}
use osdev_libstdc.Cstring.Search.Chars.{is_byte, strchr-any}
use osdev_libstdc.Memory.{IsChars, IsString, Mem}
use osdev_libstdc.Memory.Strings.{IsString-lt-size, IsString-tail}
use mathlib.Core.Option

-- Whether a character belongs to a set of characters, given as a string.
abbrev pub in_set : List ℕ → ℕ → Bool
in_set set c = any (is_byte c) set

abbrev pub not_in_set : List ℕ → ℕ → Bool
not_in_set set c = not (any (is_byte c) set)

strspn_loop-take_while :
    (k : ℕ) (m : Mem) (p accept res : ℕ) (s set : List ℕ)
    → length s < k
    → IsString m p s
    → IsString m accept set
    → strspn_loop k m p accept res ≡ some (res + length (take_while (in_set set) s))
unfolding strspn_loop
strspn_loop-take_while zero m p accept res s set lt h hs = absurd (omega arith)
strspn_loop-take_while (suc k) m p accept res [] set lt h hs = ground (arith, h.0.0)
strspn_loop-take_while (suc k) m p accept res (c ∷ s) set lt h hs =
    let (r, found, says) = strchr-any m accept c set hs h.1.0 h.1.1 in
    ground (
      arith,
      h.0.0,
      h.1.0,
      found,
      says,
      strspn_loop-take_while k m (p + 1) accept (res + 1) s set (omega arith)
          (IsString-tail m p c s h) hs,
    )

-- strspn returns the length of the longest beginning of the string with characters of `accept` only.
pub strspn-take_while :
    (m : Mem) (str accept : ℕ) (s set : List ℕ)
    → IsString m str s
    → IsString m accept set
    → strspn m str accept ≡ some (length (take_while (in_set set) s))
unfolding strspn
strspn-take_while m str accept s set h hs =
    strspn_loop-take_while (m.size - str) m str accept 0 s set
      (omega (arith, IsString-lt-size m str s h)) h hs
    ∙ ap some (omega arith)

strcspn_loop-take_while :
    (k : ℕ) (m : Mem) (p reject res : ℕ) (s set : List ℕ)
    → length s < k
    → IsString m p s
    → IsString m reject set
    → strcspn_loop k m p reject res ≡ some (res + length (take_while (not_in_set set) s))
unfolding strcspn_loop
strcspn_loop-take_while zero m p reject res s set lt h hs = absurd (omega arith)
strcspn_loop-take_while (suc k) m p reject res [] set lt h hs = ground (arith, h.0.0)
strcspn_loop-take_while (suc k) m p reject res (c ∷ s) set lt h hs =
    let (r, found, says) = strchr-any m reject c set hs h.1.0 h.1.1 in
    ground (
      arith,
      h.0.0,
      h.1.0,
      found,
      says,
      strcspn_loop-take_while k m (p + 1) reject (res + 1) s set (omega arith)
          (IsString-tail m p c s h) hs,
    )

-- strcspn returns the length of the longest beginning of the string with no character of `reject`.
pub strcspn-take_while :
    (m : Mem) (str reject : ℕ) (s set : List ℕ)
    → IsString m str s
    → IsString m reject set
    → strcspn m str reject ≡ some (length (take_while (not_in_set set) s))
unfolding strcspn
strcspn-take_while m str reject s set h hs =
    strcspn_loop-take_while (m.size - str) m str reject 0 s set
      (omega (arith, IsString-lt-size m str s h)) h hs
    ∙ ap some (omega arith)

strpbrk_loop-find_index :
    (k : ℕ) (m : Mem) (p accept : ℕ) (s set : List ℕ)
    → length s < k
    → IsString m p s
    → IsString m accept set
    → strpbrk_loop k m p accept ≡ some (Option.map (λ i. p + i) (find_index (in_set set) s))
unfolding strpbrk_loop
strpbrk_loop-find_index zero m p accept s set lt h hs = absurd (omega arith)
strpbrk_loop-find_index (suc k) m p accept [] set lt h hs = ground (arith, h.0.0)
strpbrk_loop-find_index (suc k) m p accept (c ∷ s) set lt h hs =
    let (r, found, says) = strchr-any m accept c set hs h.1.0 h.1.1 in
    ground (
      arith,
      h.0.0,
      h.1.0,
      found,
      says,
      strpbrk_loop-find_index k m (p + 1) accept s set (omega arith) (IsString-tail m p c s h) hs,
    )

-- strpbrk returns the address of the first character of the string that is one of `accept`, and null
-- if there is none.
pub strpbrk-find_index :
    (m : Mem) (str accept : ℕ) (s set : List ℕ)
    → IsString m str s
    → IsString m accept set
    → strpbrk m str accept ≡ some (Option.map (λ i. str + i) (find_index (in_set set) s))
unfolding strpbrk
strpbrk-find_index m str accept s set h hs =
    strpbrk_loop-find_index (m.size - str) m str accept s set
      (omega (arith, IsString-lt-size m str s h)) h hs

-- strspn returns the length of the longest beginning of the string with characters of the set only,
-- strcspn that of the longest with none of them, and strpbrk the address of the first character of the
-- string that is one of them, and null if there is none.
pub spans-take_while :
    (m : Mem) (str set_at : ℕ) (s set : List ℕ)
    → IsString m str s
    → IsString m set_at set
    → (strspn m str set_at ≡ some (length (take_while (in_set set) s)))
      × (strcspn m str set_at ≡ some (length (take_while (not_in_set set) s)))
      × (strpbrk m str set_at ≡ some (Option.map (λ i. str + i) (find_index (in_set set) s)))
spans-take_while m str set_at s set h hs = (
  strspn-take_while m str set_at s set h hs,
  strcspn-take_while m str set_at s set h hs,
  strpbrk-find_index m str set_at s set h hs,
)

abbrev pub is_prefix : List ℕ → List ℕ → Bool
is_prefix [] ys = true
is_prefix (x ∷ xs) [] = false
is_prefix (x ∷ xs) (y ∷ ys) = x == y && is_prefix xs ys

-- The first place where one list stands in another.
abbrev pub find_sub : List ℕ → List ℕ → Option ℕ
find_sub sub [] = if is_prefix sub [] then some 0 else none
find_sub sub (c ∷ s) =
    if is_prefix sub (c ∷ s) then some 0 else Option.map (λ i. i + 1) (find_sub sub s)

char_diff-is_prefix :
    (h n : List ℕ)
    → IsChars h
    → IsChars n
    → eqb_ℤ (char_diff (take (length n) h) (take (length n) n)) (pos 0) ≡ is_prefix n h
unfolding ◌-ℤ◌
char_diff-is_prefix h [] ch cn = refl
char_diff-is_prefix [] (y ∷ n) ch cn = ground (arith, cn.0, cn.1)
char_diff-is_prefix (x ∷ h) (y ∷ n) ch cn =
    ground (arith, ch.0, ch.1, cn.0, cn.1, char_diff-is_prefix h n ch.2 cn.2)

is_prefix_short : (n h : List ℕ) → length h < length n → is_prefix n h ≡ false
is_prefix_short [] h lt = absurd (omega arith)
is_prefix_short (y ∷ n) [] lt = refl
is_prefix_short (y ∷ n) (x ∷ h) lt = ground (arith, is_prefix_short n h (omega arith))

find_sub_short : (n h : List ℕ) → length h < length n → find_sub n h ≡ none
find_sub_short n [] lt = rw (is_prefix_short n [] lt)
find_sub_short n (c ∷ h) lt = rw (is_prefix_short n (c ∷ h) lt, find_sub_short n h (omega arith))

is_prefix_nil : (n : List ℕ) → length n ≤ 0 → is_prefix n [] ≡ true
is_prefix_nil [] h = refl
is_prefix_nil (y ∷ n) h = absurd (omega arith)

-- The early return of strstr, where both strings are empty, says the same as the loop.
find_sub_empty : (n h : List ℕ) → length n ≡ 0 → length h ≡ 0 → find_sub n h ≡ some 0
find_sub_empty [] [] e f = refl
find_sub_empty [] (c ∷ h) e f = absurd (omega arith)
find_sub_empty (y ∷ n) h e f = absurd (omega arith)

strstr_loop-find_sub :
    (m : Mem) (p q : ℕ) (h n : List ℕ)
    → IsString m p h
    → IsString m q n
    → strstr_loop (suc (length h)) m p q (length n) ≡ some (Option.map (λ i. p + i) (find_sub n h))
unfolding strstr_loop
strstr_loop-find_sub m p q [] n hp hq = elim (Bool-cases (leb (length n) 0)) [
  | inl fits ↦ ground (
    arith,
    strncmp-char_diff m p q (length n) [] n hp hq,
    char_diff-is_prefix [] n hp.1 hq.1,
    leb→le (length n) 0 fits,
    is_prefix_nil n,
  )
  | inr long ↦ rw (long, find_sub_short n [] (ground arith))
]
strstr_loop-find_sub m p q (c ∷ h) n hp hq = elim (Bool-cases (leb (length n) (suc (length h)))) [
  | inl fits ↦ ground (
    arith,
    fits,
    strncmp-char_diff m p q (length n) (c ∷ h) n hp hq,
    char_diff-is_prefix (c ∷ h) n hp.1 hq.1,
    strstr_loop-find_sub m (p + 1) q h n (IsString-tail m p c h hp) hq,
  )
  | inr long ↦ rw (long, find_sub_short n (c ∷ h) (ground arith))
]

-- strstr returns the address of the first place where the characters of `needle` stand in
-- `haystack`, and null if they stand nowhere; an empty needle is found at the beginning.
pub strstr-find_sub :
    (m : Mem) (haystack needle : ℕ) (h n : List ℕ)
    → IsString m haystack h
    → IsString m needle n
    → strstr m haystack needle ≡ some (Option.map (λ i. haystack + i) (find_sub n h))
unfolding strstr
strstr-find_sub m haystack needle h n hp hq =
    let e : length h + 1 ≡ suc (length h) = omega arith in
    rw (strlen-length m needle n hq, strlen-length m haystack h hp, e)
      (ground (arith, strstr_loop-find_sub m haystack needle h n hp hq, find_sub_empty n h))
