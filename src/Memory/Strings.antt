-- ===== src/Memory/Strings.antt =====
-- Lemmas on strings in memory.
use osdev_libstdc.Base.{
  List, [], ap, arith, is_some, length, length-append, some, suc, take, zero, ℕ, ◌++◌, ◌+◌, ◌<◌,
  ◌∙◌, ◌∷◌, ◌≡◌, ◌⊎◌,
}
use osdev_libstdc.Memory.{Apart, Bytes, IsString, Mapped, Mem, load, write, write_list}
use osdev_libstdc.Memory.Laws.{
  Bytes-Mapped, Bytes-append_left, Bytes-append_right, Bytes-le-size, Bytes-write, Bytes-write_list,
  load-write_ne, load-write_self,
}

-- Every cell holds a byte.
abbrev pub IsByteMem : Mem → Type 0
IsByteMem m = (q : ℕ) (b : ℕ) → load m q ≡ some b → b < 256

pub IsString-lt-size : (m : Mem) (p : ℕ) (s : List ℕ) → IsString m p s → p + length s < m.size
IsString-lt-size m p [] h = omega (arith, Bytes-le-size m p 0 [] h.0)
IsString-lt-size m p (c ∷ s) h =
    omega (arith, Bytes-le-size m p c (s ++ 0 ∷ []) h.0, length-append s (0 ∷ []))

pub IsString-tail :
    (m : Mem) (p : ℕ) (c : ℕ) (s : List ℕ) → IsString m p (c ∷ s) → IsString m (p + 1) s
IsString-tail m p c s h = (h.0.1, h.1.2)

pub IsString-write :
    (m : Mem) (p : ℕ) (s : List ℕ) (q v : ℕ)
    → (q < p) ⊎ (p + length s < q)
    → IsString m p s
    → IsString (write m q v) p s
IsString-write m p s q v out h =
    (Bytes-write m p (s ++ 0 ∷ []) q v (omega (arith, length-append s (0 ∷ []))) h.0, h.1)

pub IsString-write_list :
    (m : Mem) (p : ℕ) (bs : List ℕ) (q : ℕ) (s : List ℕ)
    → Apart p (length bs) q (length s + 1)
    → IsString m q s
    → IsString (write_list m p bs) q s
IsString-write_list m p bs q s apart h =
    (Bytes-write_list m p bs q (s ++ 0 ∷ []) (omega (arith, length-append s (0 ∷ []))) h.0, h.1)

pub length-string : (s : List ℕ) → length (s ++ 0 ∷ []) ≡ suc (length s)
length-string s = omega (arith, length-append s (0 ∷ []))

-- The characters before the NUL are there as bytes.
pub IsString-Bytes : (m : Mem) (p : ℕ) (s : List ℕ) → IsString m p s → Bytes m p s
IsString-Bytes m p s h = Bytes-append_left m p s (0 ∷ []) h.0

pub Bytes-take : (m : Mem) (p n : ℕ) (bs : List ℕ) → Bytes m p bs → Bytes m p (take n bs)
Bytes-take m p zero bs h = tt
Bytes-take m p (suc n) [] h = tt
Bytes-take m p (suc n) (b ∷ bs) h = (h.0, Bytes-take m (p + 1) n bs h.1)

pub IsString-Mapped : (m : Mem) (p : ℕ) (s : List ℕ) → IsString m p s → Mapped m p (length s + 1)
IsString-Mapped m p s h =
    let e : length (s ++ 0 ∷ []) ≡ length s + 1 = omega (arith, length-string s) in
    rw e at (Bytes-Mapped m p (s ++ 0 ∷ []) h.0)

pub IsString-end : (m : Mem) (p : ℕ) (s : List ℕ) → IsString m p s → load m (p + length s) ≡ some 0
IsString-end m p s h = (Bytes-append_right m p s (0 ∷ []) h.0).0

-- What stands behind the first characters of a string is a string.
pub IsString-drop :
    (m : Mem) (p : ℕ) (xs ys : List ℕ) → IsString m p (xs ++ ys) → IsString m (p + length xs) ys
IsString-drop m p [] ys h = let e : p + 0 ≡ p = omega arith in rw e h
IsString-drop m p (x ∷ xs) ys h =
    let e : p + suc (length xs) ≡ p + 1 + length xs = omega arith in
    rw e (IsString-drop m (p + 1) xs ys (IsString-tail m p x (xs ++ ys) h))

-- A NUL written into a string cuts it in two.
pub IsString-cut :
    (m : Mem) (p q : ℕ) (xs : List ℕ) (e : ℕ) (r : List ℕ)
    → q ≡ p + length xs
    → IsString m p (xs ++ e ∷ r)
    → IsString (write m q 0) p xs
IsString-cut m p q [] e r at_q h =
    let same : q ≡ p = omega arith in rw same ((load-write_self m p 0 (ap is_some h.0.0), tt), tt)
IsString-cut m p q (x ∷ xs) e r at_q h =
    let rest =
      IsString-cut m (p + 1) q xs e r (omega arith) (IsString-tail m p x (xs ++ e ∷ r) h) in
    ((load-write_ne m q 0 p (omega arith) ∙ h.0.0, rest.0), (h.1.0, h.1.1, rest.1))
