-- ===== src/Posix/Fold.antt =====
-- Lemmas on strcasecmp and strncasecmp.
use osdev_libstdc.Base.{
  Bool-cases, List, [], ap₂, arith, false, inl, inr, length, map, refl, some, suc, take, zero, ℕ,
  ◌+◌, ◌-◌, ◌<◌, ◌==◌, ◌∙◌, ◌∷◌, ◌≡◌,
}
use osdev_libstdc.Base.Int.{eqb_ℤ, schar, ◌+ℤ◌, ◌-ℤ◌}
use osdev_libstdc.Cstring.Compare.Laws.{char_diff}
use osdev_libstdc.Cstring.Edit.Case.{lower}
use osdev_libstdc.Ctype.{tolower}
use osdev_libstdc.Memory.{IsString, Mem}
use osdev_libstdc.Memory.Strings.{IsString-lt-size, IsString-tail}
use osdev_libstdc.Posix.{strcasecmp, strcasecmp_loop, strncasecmp, strncasecmp_loop}
use osdev_libstdc.Printf.Loop.Pieces.{first}

tolower-lower : (c : ℕ) → c < 256 → tolower (schar c) ≡ schar (lower c)
unfolding tolower ◌+ℤ◌
tolower-lower c h = ground arith

schar-injective : (x y : ℕ) → x < 256 → y < 256 → eqb_ℤ (schar x) (schar y) ≡ (x == y)
schar-injective x y hx hy = ground arith

lower_nonzero : (c : ℕ) → 0 < c → c < 256 → (0 < lower c) × (lower c < 256)
lower_nonzero c lo hi = (ground arith, ground arith)

-- The test of the loops, as one on characters in lower case.
fold_test :
    (x y : ℕ)
    → x < 256
    → y < 256
    → (eqb_ℤ (tolower (schar x)) (tolower (schar y)) ≡ (lower x == lower y))
      × (tolower (schar x) -ℤ tolower (schar y) ≡ schar (lower x) -ℤ schar (lower y))
fold_test x y hx hy = (
  ap₂ eqb_ℤ (tolower-lower x hx) (tolower-lower y hy)
      ∙ schar-injective (lower x) (lower y) (ground arith) (ground arith),
  ap₂ ◌-ℤ◌ (tolower-lower x hx) (tolower-lower y hy),
)

strcasecmp_loop-char_diff :
    (k : ℕ) (m : Mem) (f s : ℕ) (a b : List ℕ)
    → length a < k
    → IsString m f a
    → IsString m s b
    → strcasecmp_loop k m f s ≡ some (char_diff (map lower a) (map lower b))
unfolding strcasecmp_loop
strcasecmp_loop-char_diff zero m f s a b lt ha hb = absurd (omega arith)
strcasecmp_loop-char_diff (suc k) m f s [] [] lt ha hb = rw (ha.0.0, hb.0.0)
strcasecmp_loop-char_diff (suc k) m f s [] (y ∷ b) lt ha hb =
    let t = fold_test 0 y (omega arith) hb.1.1 in
    let n = lower_nonzero y hb.1.0 hb.1.1 in
    let other : (0 == lower y) ≡ false = ground (arith, n.0) in
    rw (ha.0.0, hb.0.0) (rw (t.0, t.1, other))
strcasecmp_loop-char_diff (suc k) m f s (x ∷ a) [] lt ha hb =
    let t = fold_test x 0 ha.1.1 (omega arith) in
    let n = lower_nonzero x ha.1.0 ha.1.1 in
    let other : (lower x == 0) ≡ false = ground (arith, n.0) in
    rw (ha.0.0, hb.0.0) (rw (t.0, t.1, other))
strcasecmp_loop-char_diff (suc k) m f s (x ∷ a) (y ∷ b) lt ha hb =
    let t = fold_test x y ha.1.1 hb.1.1 in
    let nx : (x == 0) ≡ false = ground (arith, ha.1.0) in
    let ny : (y == 0) ≡ false = ground (arith, hb.1.0) in
    let rest =
      strcasecmp_loop-char_diff k m (f + 1) (s + 1) a b (omega arith) (IsString-tail m f x a ha)
        (IsString-tail m s y b hb) in
    rw (ha.0.0, hb.0.0)
      (rw (t.0, t.1, nx, ny, rest)
        (elim (Bool-cases (lower x == lower y)) [ inl e ↦ rw e | inr e ↦ rw e ]))

-- strcasecmp returns what strcmp would of the two strings with their letters in lower case.
pub strcasecmp-char_diff :
    (m : Mem) (first second : ℕ) (a b : List ℕ)
    → IsString m first a
    → IsString m second b
    → strcasecmp m first second ≡ some (char_diff (map lower a) (map lower b))
unfolding strcasecmp
strcasecmp-char_diff m first second a b ha hb =
    strcasecmp_loop-char_diff (m.size - first) m first second a b
      (omega (arith, IsString-lt-size m first a ha)) ha hb

strncasecmp_loop-char_diff :
    (n : ℕ) (m : Mem) (p q i : ℕ) (a b : List ℕ)
    → IsString m (p + i) a
    → IsString m (q + i) b
    → strncasecmp_loop n m p q i ≡ some (char_diff (map lower (take n a)) (map lower (take n b)))
unfolding strncasecmp_loop
strncasecmp_loop-char_diff zero m p q i a b ha hb = refl
strncasecmp_loop-char_diff (suc n) m p q i [] [] ha hb = rw (ha.0.0, hb.0.0)
strncasecmp_loop-char_diff (suc n) m p q i [] (y ∷ b) ha hb =
    let t = fold_test 0 y (omega arith) hb.1.1 in
    let nz = lower_nonzero y hb.1.0 hb.1.1 in
    let other : (0 == lower y) ≡ false = ground (arith, nz.0) in
    rw (ha.0.0, hb.0.0) (rw (t.0, t.1, other))
strncasecmp_loop-char_diff (suc n) m p q i (x ∷ a) [] ha hb =
    let t = fold_test x 0 ha.1.1 (omega arith) in
    let nz = lower_nonzero x ha.1.0 ha.1.1 in
    let other : (lower x == 0) ≡ false = ground (arith, nz.0) in
    rw (ha.0.0, hb.0.0) (rw (t.0, t.1, other))
strncasecmp_loop-char_diff (suc n) m p q i (x ∷ a) (y ∷ b) ha hb =
    let ps : p + (i + 1) ≡ p + i + 1 = omega arith in
    let qs : q + (i + 1) ≡ q + i + 1 = omega arith in
    let t = fold_test x y ha.1.1 hb.1.1 in
    let nx : (x == 0) ≡ false = ground (arith, ha.1.0) in
    let ny : (y == 0) ≡ false = ground (arith, hb.1.0) in
    let rest =
      strncasecmp_loop-char_diff n m p q (i + 1) a b (rw ps (IsString-tail m (p + i) x a ha))
        (rw qs (IsString-tail m (q + i) y b hb)) in
    rw (ha.0.0, hb.0.0)
      (rw (t.0, t.1, nx, ny, rest)
        (elim (Bool-cases (lower x == lower y)) [ inl e ↦ rw e | inr e ↦ rw e ]))

-- strncasecmp returns the difference of the first characters, as signed ones, in which the first `n`
-- characters of the two strings, all in lower case, differ, a NUL standing behind the last, and 0 if
-- they do not differ.
pub strncasecmp-char_diff :
    (m : Mem) (first second n : ℕ) (a b : List ℕ)
    → IsString m first a
    → IsString m second b
    → strncasecmp m first second n ≡ some (char_diff (map lower (take n a)) (map lower (take n b)))
unfolding strncasecmp
strncasecmp-char_diff m first second n a b ha hb =
    let ps : first + 0 ≡ first = omega arith in
    let qs : second + 0 ≡ second = omega arith in
    strncasecmp_loop-char_diff n m first second 0 a b (rw ps ha) (rw qs hb)

-- strcasecmp and strncasecmp return the difference of the first characters, as signed ones, in which
-- the two strings, or their first `n` characters, all in lower case, differ, a NUL standing behind the
-- last, and 0 if they do not differ.
pub casecmp-char_diff :
    (m : Mem) (first second n : ℕ) (a b : List ℕ)
    → IsString m first a
    → IsString m second b
    → (strcasecmp m first second ≡ some (char_diff (map lower a) (map lower b)))
      × (strncasecmp m first second n
          ≡ some (char_diff (map lower (take n a)) (map lower (take n b))))
casecmp-char_diff m first second n a b ha hb = (
  strcasecmp-char_diff m first second a b ha hb,
  strncasecmp-char_diff m first second n a b ha hb,
)
