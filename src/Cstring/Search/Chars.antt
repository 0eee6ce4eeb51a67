-- ===== src/Cstring/Search/Chars.antt =====
-- Lemmas on memchr, memrchr, strchr and strrchr.
use osdev_libstdc.Base.{
  Bool, List, Option, [], any, ap, arith, find_index, find_last_index, if◌then◌else◌, is_some,
  length, none, refl, snoc_view, some, suc, zero, ℕ, ◌++◌, ◌+◌, ◌-◌, ◌<◌, ◌==◌, ◌∙◌, ◌∷◌, ◌≡◌, ◌≤◌,
}
use osdev_libstdc.Base.Int.{eqb_ℤ, negsuc, pos, schar, to_unsigned, ℤ}
use osdev_libstdc.Cstring.Search.{
  memchr, memchr_loop, memrchr, memrchr_loop, strchr, strchr_loop, strrchr, strrchr_loop,
}
use osdev_libstdc.Memory.{Bytes, IsString, Mem, load}
use osdev_libstdc.Memory.Laws.{Bytes-append_left, Bytes-append_right}
use osdev_libstdc.Memory.Strings.{IsString-lt-size, IsString-tail}
use mathlib.Core.Option

abbrev pub is_byte : ℕ → ℕ → Bool
is_byte c b = b == c

pub to_unsigned-schar : (b : ℕ) → b < 256 → to_unsigned 8 (schar b) ≡ b
to_unsigned-schar b h = ground arith

memchr_loop-find_index :
    (m : Mem) (p c : ℕ) (bs : List ℕ)
    → Bytes m p bs
    → memchr_loop (length bs) m p c ≡ some (Option.map (λ i. p + i) (find_index (is_byte c) bs))
unfolding memchr_loop
memchr_loop-find_index m p c [] h = refl
memchr_loop-find_index m p c (b ∷ bs) h =
    ground (arith, h.0, memchr_loop-find_index m (p + 1) c bs h.1)

-- memchr returns the address of the first byte that equals the low byte of `needle`, and null if
-- there is none.
pub memchr-find_index :
    (m : Mem) (memory : ℕ) (needle : ℤ) (bs : List ℕ)
    → Bytes m memory bs
    → memchr m memory needle (length bs)
      ≡ some (Option.map (λ i. memory + i) (find_index (is_byte (to_unsigned 8 needle)) bs))
unfolding memchr
memchr-find_index m memory needle bs h = memchr_loop-find_index m memory (to_unsigned 8 needle) bs h

find_last_index-snoc :
    (test : ℕ → Bool) (xs : List ℕ) (b : ℕ)
    → find_last_index test (xs ++ b ∷ [])
      ≡ (if test b then some (length xs) else find_last_index test xs)
find_last_index-snoc test [] b = ground arith
find_last_index-snoc test (x ∷ xs) b = ground (arith, find_last_index-snoc test xs b)

memrchr_loop-find_last_index :
    (n : ℕ) (m : Mem) (p c : ℕ) (bs : List ℕ)
    → length bs ≡ n
    → Bytes m p bs
    → memrchr_loop n m (p + n - 1) c
      ≡ some (Option.map (λ i. p + i) (find_last_index (is_byte c) bs))
unfolding memrchr_loop
memrchr_loop-find_last_index zero m p c [] e h = refl
memrchr_loop-find_last_index zero m p c (b ∷ bs) e h = absurd (omega arith)
memrchr_loop-find_last_index (suc n) m p c bs e h =
    let (xs, b, split, len) = snoc_view n bs e in
    let h' : Bytes m p (xs ++ b ∷ []) = rw split at h in
    let there : load m (p + n) ≡ some b = rw len at (Bytes-append_right m p xs (b ∷ []) h').0 in
    let at_end : p + suc n - 1 ≡ p + n = omega arith in
    rw (at_end, there, split, find_last_index-snoc (is_byte c) xs b)
      (ground (
        arith,
        len,
        memrchr_loop-find_last_index n m p c xs len (Bytes-append_left m p xs (b ∷ []) h'),
      ))

-- memrchr returns the address of the last byte that equals the low byte of `needle`, and null if
-- there is none.
memrchr-find_last_index :
    (m : Mem) (mem : ℕ) (needle : ℤ) (bs : List ℕ)
    → Bytes m mem bs
    → memrchr m mem needle (length bs)
      ≡ some (Option.map (λ i. mem + i) (find_last_index (is_byte (to_unsigned 8 needle)) bs))
unfolding memrchr
memrchr-find_last_index m mem needle bs h =
    memrchr_loop-find_last_index (length bs) m mem (to_unsigned 8 needle) bs refl h

strchr_loop-find_index :
    (k : ℕ) (m : Mem) (p c : ℕ) (s : List ℕ)
    → length s < k
    → IsString m p s
    → strchr_loop k m p c ≡ some (Option.map (λ i. p + i) (find_index (is_byte c) (s ++ 0 ∷ [])))
unfolding strchr_loop
strchr_loop-find_index zero m p c s lt h = absurd (omega arith)
strchr_loop-find_index (suc k) m p c [] lt h = ground (arith, h.0.0)
strchr_loop-find_index (suc k) m p c (b ∷ s) lt h = ground (
  arith,
  h.0.0,
  h.1.0,
  strchr_loop-find_index k m (p + 1) c s (omega arith) (IsString-tail m p b s h),
)

-- strchr returns the address of the first character, the NUL at the end included, that equals the
-- low byte of `needle`, and null if there is none.
strchr-find_index :
    (m : Mem) (str : ℕ) (needle : ℤ) (s : List ℕ)
    → IsString m str s
    → strchr m str needle
      ≡ some (Option.map (λ i. str + i) (find_index (is_byte (to_unsigned 8 needle)) (s ++ 0 ∷ [])))
unfolding strchr
strchr-find_index m str needle s h =
    strchr_loop-find_index (m.size - str) m str (to_unsigned 8 needle) s
      (omega (arith, IsString-lt-size m str s h)) h

is_some-find_index :
    (c : ℕ) (s : List ℕ)
    → 0 < c
    → is_some (find_index (is_byte c) (s ++ 0 ∷ [])) ≡ any (is_byte c) s
is_some-find_index c [] h = ground arith
is_some-find_index c (b ∷ s) h = ground (arith, is_some-find_index c s h)

-- What strchr says of a character that is not NUL: whether the string has it.
pub strchr-any :
    (m : Mem) (str c : ℕ) (s : List ℕ)
    → IsString m str s
    → 0 < c
    → c < 256
    → (r : Option ℕ) × (strchr m str (schar c) ≡ some r) × (is_some r ≡ any (is_byte c) s)
strchr-any m str c s h lo hi = (
  Option.map (λ i. str + i) (find_index (is_byte c) (s ++ 0 ∷ [])),
  strchr-find_index m str (schar c) s h
      ∙ ap (λ d. some (Option.map (λ i. str + i) (find_index (is_byte d) (s ++ 0 ∷ []))))
          (to_unsigned-schar c hi),
  ground (arith, is_some-find_index c s lo),
)

abbrev pub is_schar : ℤ → ℕ → Bool
is_schar needle b = eqb_ℤ (schar b) needle

-- The variable `pos` of strrchr behind the loop.
abbrev last_or : ℕ → ℤ → Option ℕ → ℤ
last_or i last none = last
last_or i last (some j) = pos (i + j)

strrchr_loop-find_last_index :
    (k : ℕ) (m : Mem) (str i : ℕ) (needle last : ℤ) (s : List ℕ)
    → length s < k
    → IsString m (str + i) s
    → strrchr_loop k m str (str + i) needle last
      ≡ some (last_or i last (find_last_index (is_schar needle) (s ++ 0 ∷ [])))
unfolding strrchr_loop
strrchr_loop-find_last_index zero m str i needle last s lt h = absurd (omega arith)
strrchr_loop-find_last_index (suc k) m str i needle last [] lt h = ground (arith, h.0.0)
strrchr_loop-find_last_index (suc k) m str i needle last (b ∷ s) lt h =
    let e : str + (i + 1) ≡ str + i + 1 = omega arith in
    let last' = if eqb_ℤ (schar b) needle then pos (str + i - str) else last in
    let ih : strrchr_loop k m str (str + i + 1) needle last'
        ≡ some (last_or (i + 1) last' (find_last_index (is_schar needle) (s ++ 0 ∷ []))) =
      rw e at (
        strrchr_loop-find_last_index k m str (i + 1) needle last' s (omega arith)
          (rw e (IsString-tail m (str + i) b s h))) in
    ground (arith, h.0.0, h.1.0, ih)

-- strrchr returns the address of the last character, the NUL at the end included, that as a signed
-- `char` equals the whole `needle`, and null if there is none.
pub strrchr-find_last_index :
    (m : Mem) (str : ℕ) (needle : ℤ) (s : List ℕ)
    → IsString m str s
    → strrchr m str needle
      ≡ some (Option.map (λ i. str + i) (find_last_index (is_schar needle) (s ++ 0 ∷ [])))
unfolding strrchr
strrchr-find_last_index m str needle s h =
    let e : str + 0 ≡ str = omega arith in
    let loop =
      strrchr_loop-find_last_index (m.size - str) m str 0 needle (negsuc 0) s
        (omega (arith, IsString-lt-size m str s h)) (rw e h) in
    ground (arith, rw e at loop)

find_last_index-is_schar_high :
    (c : ℕ) (s : List ℕ) → 128 ≤ c → find_last_index (is_schar (pos c)) s ≡ none
find_last_index-is_schar_high c [] h = refl
find_last_index-is_schar_high c (b ∷ s) h = ground (arith, find_last_index-is_schar_high c s h)

-- strrchr does not convert `needle` to a `char`: with one of 128 or more, such as an unsigned
-- character above 127 is, it returns null, whatever the string holds.
pub strrchr_high :
    (m : Mem) (str c : ℕ) (s : List ℕ)
    → IsString m str s
    → 128 ≤ c
    → strrchr m str (pos c) ≡ some none
strrchr_high m str c s h hi =
    strrchr-find_last_index m str (pos c) s h
    ∙ ap (λ o. some (Option.map (λ i. str + i) o))
        (find_last_index-is_schar_high c (s ++ 0 ∷ []) hi)
