-- ===== src/Cstring/Compare/Laws.antt =====
-- The comparisons against descriptions over lists: the first difference, equality, the order.
use osdev_libstdc.Base.{
  List, [], arith, if◌then◌else◌, length, refl, some, suc, take, zero, ℕ, ◌++◌, ◌+◌, ◌-◌, ◌<◌, ◌==◌,
  ◌↔◌, ◌∷◌, ◌≡◌, ◌≤◌, ◌⊎◌,
}
use osdev_libstdc.Base.Int.{pos, schar, ℤ, ◌-ℤ◌, ◌<ℤ◌}
use osdev_libstdc.Cstring.Compare.{memcmp, memcmp_loop, strcmp, strcmp_loop, strncmp, strncmp_loop}
use osdev_libstdc.Memory.{Bytes, IsChars, IsString, Mem}
use osdev_libstdc.Memory.Strings.{IsString-lt-size, IsString-tail}
use osdev_libstdc.Printf.Loop.Pieces.{first}

-- The difference at the first place where two lists of equal length differ.
abbrev pub byte_diff : List ℕ → List ℕ → ℤ
byte_diff [] ys = pos 0
byte_diff (x ∷ xs) [] = pos 0
byte_diff (x ∷ xs) (y ∷ ys) = if x == y then byte_diff xs ys else pos x -ℤ pos y

-- The same of strings, where the end of the shorter counts as NUL and characters are signed.
abbrev pub char_diff : List ℕ → List ℕ → ℤ
char_diff [] [] = pos 0
char_diff [] (y ∷ t) = schar 0 -ℤ schar y
char_diff (x ∷ s) [] = schar x -ℤ schar 0
char_diff (x ∷ s) (y ∷ t) = if x == y then char_diff s t else schar x -ℤ schar y

-- The lexicographic order on bytes.
abbrev pub Precedes : List ℕ → List ℕ → Type 0
Precedes s [] = ⊥
Precedes [] (y ∷ t) = Unit
Precedes (x ∷ s) (y ∷ t) = (x < y) ⊎ ((x ≡ y) × Precedes s t)

abbrev pub IsAscii : List ℕ → Type 0
IsAscii [] = Unit
IsAscii (c ∷ s) = (c < 128) × IsAscii s

pub -ℤ-eq_zero : (x y : ℕ) → x < 256 → y < 256 → schar x -ℤ schar y ≡ pos 0 → x ≡ y
unfolding ◌-ℤ◌
-ℤ-eq_zero x y hx hy h = ground arith

memcmp_loop-byte_diff :
    (m : Mem) (p q i : ℕ) (xs ys : List ℕ)
    → length xs ≡ length ys
    → Bytes m (p + i) xs
    → Bytes m (q + i) ys
    → memcmp_loop (length xs) m p q i ≡ some (byte_diff xs ys)
unfolding memcmp_loop
memcmp_loop-byte_diff m p q i [] ys e h k = refl
memcmp_loop-byte_diff m p q i (x ∷ xs) [] e h k = absurd (omega arith)
memcmp_loop-byte_diff m p q i (x ∷ xs) (y ∷ ys) e h k =
    let ps : p + (i + 1) ≡ p + i + 1 = omega arith in
    let qs : q + (i + 1) ≡ q + i + 1 = omega arith in
    ground (
      arith,
      h.0,
      k.0,
      memcmp_loop-byte_diff m p q (i + 1) xs ys (omega arith) (rw ps h.1) (rw qs k.1),
    )

-- memcmp of two ranges of one length returns the difference of the first two bytes that differ, as
-- unsigned values, and 0 if none do.
pub memcmp-byte_diff :
    (m : Mem) (first second : ℕ) (xs ys : List ℕ)
    → length xs ≡ length ys
    → Bytes m first xs
    → Bytes m second ys
    → memcmp m first second (length xs) ≡ some (byte_diff xs ys)
unfolding memcmp
memcmp-byte_diff m first second xs ys e h k =
    let ps : first + 0 ≡ first = omega arith in
    let qs : second + 0 ≡ second = omega arith in
    memcmp_loop-byte_diff m first second 0 xs ys e (rw ps h) (rw qs k)

byte_diff_sign :
    (xs ys : List ℕ)
    → length xs ≡ length ys
    → ((byte_diff xs ys ≡ pos 0) ↔ (xs ≡ ys)) × ((byte_diff xs ys <ℤ pos 0) ↔ Precedes xs ys)
unfolding ◌-ℤ◌
byte_diff_sign [] [] e = ((λ h. refl, λ h. refl), (λ h. absurd (omega arith), λ h. absurd h))
byte_diff_sign [] (y ∷ ys) e = absurd (omega arith)
byte_diff_sign (x ∷ xs) [] e = absurd (omega arith)
byte_diff_sign (x ∷ xs) (y ∷ ys) e = ground (arith, byte_diff_sign xs ys (omega arith))

-- memcmp orders byte ranges of one length: it returns 0 exactly for equal ranges, and a negative
-- number exactly where the first comes before the second in the lexicographic order of unsigned bytes.
pub memcmp_order :
    (m : Mem) (first second : ℕ) (xs ys : List ℕ)
    → length xs ≡ length ys
    → Bytes m first xs
    → Bytes m second ys
    → (r : ℤ) × (memcmp m first second (length xs) ≡ some r)
      × ((r ≡ pos 0) ↔ (xs ≡ ys))
      × ((r <ℤ pos 0) ↔ Precedes xs ys)
memcmp_order m first second xs ys e h k =
    let s = byte_diff_sign xs ys e in
    (byte_diff xs ys, memcmp-byte_diff m first second xs ys e h k, s.0, s.1)

strcmp_loop-char_diff :
    (k : ℕ) (m : Mem) (f s : ℕ) (a b : List ℕ)
    → length a < k
    → IsString m f a
    → IsString m s b
    → strcmp_loop k m f s ≡ some (char_diff a b)
unfolding strcmp_loop
strcmp_loop-char_diff zero m f s a b lt ha hb = absurd (omega arith)
strcmp_loop-char_diff (suc k) m f s [] [] lt ha hb = ground (arith, ha.0.0, hb.0.0)
strcmp_loop-char_diff (suc k) m f s [] (y ∷ b) lt ha hb = ground (arith, ha.0.0, hb.0.0, hb.1.0)
strcmp_loop-char_diff (suc k) m f s (x ∷ a) [] lt ha hb = ground (arith, ha.0.0, hb.0.0, ha.1.0)
strcmp_loop-char_diff (suc k) m f s (x ∷ a) (y ∷ b) lt ha hb = ground (
  arith,
  ha.0.0,
  hb.0.0,
  ha.1.0,
  strcmp_loop-char_diff k m (f + 1) (s + 1) a b (omega arith) (IsString-tail m f x a ha)
      (IsString-tail m s y b hb),
)

-- strcmp of two strings returns the difference of the first characters that differ, as signed
-- values, the end of a string counting as NUL.
pub strcmp-char_diff :
    (m : Mem) (first second : ℕ) (a b : List ℕ)
    → IsString m first a
    → IsString m second b
    → strcmp m first second ≡ some (char_diff a b)
unfolding strcmp
strcmp-char_diff m first second a b ha hb =
    strcmp_loop-char_diff (m.size - first) m first second a b
      (omega (arith, IsString-lt-size m first a ha)) ha hb

char_diff_zero : (a b : List ℕ) → IsChars a → IsChars b → (char_diff a b ≡ pos 0) ↔ (a ≡ b)
unfolding ◌-ℤ◌
char_diff_zero [] [] ha hb = (λ h. refl, λ h. refl)
char_diff_zero [] (y ∷ b) ha hb = (λ h. absurd (ground (arith, hb.0, hb.1)), λ h. cc)
char_diff_zero (x ∷ a) [] ha hb = (λ h. absurd (ground (arith, ha.0, ha.1)), λ h. cc)
char_diff_zero (x ∷ a) (y ∷ b) ha hb = ground (arith, ha.1, hb.1, char_diff_zero a b ha.2 hb.2)

char_diff_sign :
    (a b : List ℕ)
    → IsChars a
    → IsChars b
    → IsAscii a
    → IsAscii b
    → (char_diff a b <ℤ pos 0) ↔ Precedes a b
unfolding ◌-ℤ◌
char_diff_sign [] [] ha hb ka kb = (λ h. absurd (omega arith), λ h. absurd h)
char_diff_sign [] (y ∷ b) ha hb ka kb = (λ h. tt, λ h. ground (arith, hb.0, kb.0))
char_diff_sign (x ∷ a) [] ha hb ka kb = (λ h. ground (arith, ha.0, ka.0), λ h. absurd h)
char_diff_sign (x ∷ a) (y ∷ b) ha hb ka kb =
    ground (arith, ka.0, kb.0, char_diff_sign a b ha.2 hb.2 ka.1 kb.1)

-- The lexicographic order of strings with the characters as signed ones, the end counting as 0.
abbrev pub ComesBefore : List ℕ → List ℕ → Type 0
ComesBefore [] [] = ⊥
ComesBefore [] (y ∷ b) = pos 0 <ℤ schar y
ComesBefore (x ∷ a) [] = schar x <ℤ pos 0
ComesBefore (x ∷ a) (y ∷ b) = (schar x <ℤ schar y) ⊎ ((x ≡ y) × ComesBefore a b)

char_diff-ComesBefore :
    (a b : List ℕ) → IsChars a → IsChars b → (char_diff a b <ℤ pos 0) ↔ ComesBefore a b
unfolding ◌-ℤ◌
char_diff-ComesBefore [] [] ha hb = (λ h. absurd (omega arith), λ h. absurd h)
char_diff-ComesBefore [] (y ∷ b) ha hb = ground (arith, hb.0, hb.1)
char_diff-ComesBefore (x ∷ a) [] ha hb = ground (arith, ha.0, ha.1)
char_diff-ComesBefore (x ∷ a) (y ∷ b) ha hb =
    ground (arith, ha.1, hb.1, char_diff-ComesBefore a b ha.2 hb.2)

-- strcmp returns 0 exactly for equal strings, and a negative number exactly where the first comes
-- before the second in the lexicographic order of signed characters.
pub strcmp_order :
    (m : Mem) (first second : ℕ) (a b : List ℕ)
    → IsString m first a
    → IsString m second b
    → (r : ℤ) × (strcmp m first second ≡ some r)
      × ((r ≡ pos 0) ↔ (a ≡ b))
      × ((r <ℤ pos 0) ↔ ComesBefore a b)
strcmp_order m first second a b ha hb = (
  char_diff a b,
  strcmp-char_diff m first second a b ha hb,
  char_diff_zero a b ha.1 hb.1,
  char_diff-ComesBefore a b ha.1 hb.1,
)

-- Of ASCII strings that is the order of the bytes, as with memcmp.
strcmp_order_of_ascii :
    (m : Mem) (first second : ℕ) (a b : List ℕ)
    → IsString m first a
    → IsString m second b
    → IsAscii a
    → IsAscii b
    → (r : ℤ) × (strcmp m first second ≡ some r) × ((r <ℤ pos 0) ↔ Precedes a b)
strcmp_order_of_ascii m first second a b ha hb ka kb =
    (char_diff a b, strcmp-char_diff m first second a b ha hb, char_diff_sign a b ha.1 hb.1 ka kb)

char_diff_high :
    (x y : ℕ) (s a b : List ℕ)
    → x < 128
    → 128 ≤ y
    → y < 256
    → pos 0 <ℤ char_diff (s ++ x ∷ a) (s ++ y ∷ b)
unfolding ◌-ℤ◌
char_diff_high x y [] a b hx hy hz = ground arith
char_diff_high x y (z ∷ s) a b hx hy hz = ground (arith, char_diff_high x y s a b hx hy hz)

strncmp_loop-char_diff :
    (n : ℕ) (m : Mem) (p q i : ℕ) (a b : List ℕ)
    → IsString m (p + i) a
    → IsString m (q + i) b
    → strncmp_loop n m p q i ≡ some (char_diff (take n a) (take n b))
unfolding strncmp_loop
strncmp_loop-char_diff zero m p q i a b ha hb = refl
strncmp_loop-char_diff (suc n) m p q i [] [] ha hb = ground (arith, ha.0.0, hb.0.0)
strncmp_loop-char_diff (suc n) m p q i [] (y ∷ b) ha hb = ground (arith, ha.0.0, hb.0.0, hb.1.0)
strncmp_loop-char_diff (suc n) m p q i (x ∷ a) [] ha hb = ground (arith, ha.0.0, hb.0.0, ha.1.0)
strncmp_loop-char_diff (suc n) m p q i (x ∷ a) (y ∷ b) ha hb =
    let ps : p + (i + 1) ≡ p + i + 1 = omega arith in
    let qs : q + (i + 1) ≡ q + i + 1 = omega arith in
    ground (
      arith,
      ha.0.0,
      hb.0.0,
      ha.1.0,
      strncmp_loop-char_diff n m p q (i + 1) a b (rw ps (IsString-tail m (p + i) x a ha))
          (rw qs (IsString-tail m (q + i) y b hb)),
    )

-- strncmp returns the difference of the first characters, as signed ones, in which the first `n`
-- characters of the two strings differ, a NUL standing behind the last, and 0 if they do not differ.
pub strncmp-char_diff :
    (m : Mem) (first second n : ℕ) (a b : List ℕ)
    → IsString m first a
    → IsString m second b
    → strncmp m first second n ≡ some (char_diff (take n a) (take n b))
unfolding strncmp
strncmp-char_diff m first second n a b ha hb =
    let ps : first + 0 ≡ first = omega arith in
    let qs : second + 0 ≡ second = omega arith in
    strncmp_loop-char_diff n m first second 0 a b (rw ps ha) (rw qs hb)

-- With a character above 127 strcmp departs from the order of unsigned characters: where the first
-- string has an ASCII character and the second, behind the same characters, one of 128 to
-- 255, it returns a positive number.
pub strcmp_high :
    (m : Mem) (first second x y : ℕ) (s a b : List ℕ)
    → IsString m first (s ++ x ∷ a)
    → IsString m second (s ++ y ∷ b)
    → x < 128
    → 128 ≤ y
    → y < 256
    → (r : ℤ) × (strcmp m first second ≡ some r) × (pos 0 <ℤ r)
strcmp_high m first second x y s a b ha hb hx hy hz = (
  char_diff (s ++ x ∷ a) (s ++ y ∷ b),
  strcmp-char_diff m first second (s ++ x ∷ a) (s ++ y ∷ b) ha hb,
  char_diff_high x y s a b hx hy hz,
)
