-- ===== src/Cstring/Build/Copying.antt =====
-- Lemmas on strcpy, strncpy, stpcpy and strdup.
use osdev_libstdc.Base.{
  List, Option, [], arith, inl, is_some, length, none, refl, some, suc, true, zero, ℕ, ◌++◌, ◌+◌,
  ◌-◌, ◌<◌, ◌∷◌, ◌≡◌,
}
use osdev_libstdc.Cstring.Build.{stpcpy, strcpy, strcpy_loop, strdup, strncpy, strncpy_loop}
use osdev_libstdc.Cstring.Copy.Laws.{memcpy-write_list}
use osdev_libstdc.Cstring.Length.Laws.{strlen-length}
use osdev_libstdc.Memory.{Apart, IsString, Mapped, Mem, load, write, write_list}
use osdev_libstdc.Memory.Laws.{
  Mapped-head, Mapped-write, load-write_ne, load-write_self, store-eq-write,
}
use osdev_libstdc.Memory.Strings.{IsString-lt-size, IsString-tail, IsString-write, length-string}

strcpy_loop-write_list :
    (k : ℕ) (m : Mem) (d p : ℕ) (s : List ℕ)
    → length s < k
    → IsString m p s
    → Mapped m d (length s + 1)
    → Apart d (length s + 1) p (length s + 1)
    → strcpy_loop k m d p ≡ some (write_list m d (s ++ 0 ∷ []))
unfolding strcpy_loop write_list
strcpy_loop-write_list zero m d p s lt h room apart = absurd (omega arith)
strcpy_loop-write_list (suc k) m d p [] lt h room apart =
    let free : is_some (load m d) ≡ true = Mapped-head m d 0 room in
    ground (arith, h.0.0, store-eq-write m d 0 free, load-write_ne m d 0 p)
strcpy_loop-write_list (suc k) m d p (c ∷ s) lt h room apart =
    let e : length (c ∷ s) + 1 ≡ suc (length s + 1) = omega arith in
    let room' : Mapped m d (suc (length s + 1)) = rw e at room in
    ground (
      arith,
      h.0.0,
      h.1.0,
      store-eq-write m d c room'.0,
      load-write_ne m d c p,
      load-write_self m d c room'.0,
      strcpy_loop-write_list k (write m d c) (d + 1) (p + 1) s (omega arith)
          (IsString-write m (p + 1) s d c (omega arith) (IsString-tail m p c s h))
          (Mapped-write m (d + 1) (length s + 1) d c room'.0 room'.1) (omega arith),
    )

-- strcpy to a range that does not overlap the string writes the string with its NUL, and nothing
-- else, and returns `dest`.
pub strcpy-write_list :
    (m : Mem) (dest src : ℕ) (s : List ℕ)
    → IsString m src s
    → Mapped m dest (length s + 1)
    → Apart dest (length s + 1) src (length s + 1)
    → strcpy m dest src ≡ some (dest, write_list m dest (s ++ 0 ∷ []))
unfolding strcpy
strcpy-write_list m dest src s h room apart = rw (
    strcpy_loop-write_list (m.size - src) m dest src s (omega (arith, IsString-lt-size m src s h)) h
      room apart)

-- The first `n` characters of a string, filled up with NULs to `n` bytes.
abbrev pub padded : ℕ → List ℕ → List ℕ
padded zero s = []
padded (suc n) [] = 0 ∷ padded n []
padded (suc n) (c ∷ s) = c ∷ padded n s

strncpy_loop-write_list :
    (n : ℕ) (m : Mem) (d p : ℕ) (s : List ℕ)
    → IsString m p s
    → Mapped m d n
    → Apart d n p (length s + 1)
    → strncpy_loop n m d p ≡ some (write_list m d (padded n s))
unfolding strncpy_loop write_list
strncpy_loop-write_list zero m d p s h room apart = refl
strncpy_loop-write_list (suc n) m d p [] h room apart =
    rw (h.0.0, store-eq-write m d 0 room.0)
      (strncpy_loop-write_list n (write m d 0) (d + 1) p []
        (IsString-write m p [] d 0 (omega arith) h) (Mapped-write m (d + 1) n d 0 room.0 room.1)
        (omega arith))
strncpy_loop-write_list (suc n) m d p (c ∷ s) h room apart = ground (
  arith,
  h.0.0,
  h.1.0,
  store-eq-write m d c room.0,
  strncpy_loop-write_list n (write m d c) (d + 1) (p + 1) s
      (IsString-write m (p + 1) s d c (omega arith) (IsString-tail m p c s h))
      (Mapped-write m (d + 1) n d c room.0 room.1) (omega arith),
)

-- strncpy to `n` bytes that do not overlap the string writes its first `n` characters and fills the
-- rest with NULs, and nothing else, and returns `dest`.
pub strncpy-padded :
    (m : Mem) (dest src n : ℕ) (s : List ℕ)
    → IsString m src s
    → Mapped m dest n
    → Apart dest n src (length s + 1)
    → strncpy m dest src n ≡ some (dest, write_list m dest (padded n s))
unfolding strncpy
strncpy-padded m dest src n s h room apart =
    rw (strncpy_loop-write_list n m dest src s h room apart)

-- stpcpy writes what strcpy writes, and returns the address of the NUL.
pub stpcpy-write_list :
    (m : Mem) (dest src : ℕ) (s : List ℕ)
    → IsString m src s
    → Mapped m dest (length s + 1)
    → Apart dest (length s + 1) src (length s + 1)
    → stpcpy m dest src ≡ some (dest + length s, write_list m dest (s ++ 0 ∷ []))
unfolding stpcpy
stpcpy-write_list m dest src s h room apart =
    let e : length s + 1 ≡ length (s ++ 0 ∷ []) = omega (arith, length-string s) in
    rw (
      strlen-length m src s h,
      e,
      memcpy-write_list m dest src (s ++ 0 ∷ []) h.0 (rw e at room) (inl (rw (← e) apart)),
    )

-- strcpy and stpcpy to a range that does not overlap the string write the string with its NUL, and
-- nothing else; strcpy returns `dest`, and stpcpy the address of the NUL.
pub copies-write_list :
    (m : Mem) (dest src : ℕ) (s : List ℕ)
    → IsString m src s
    → Mapped m dest (length s + 1)
    → Apart dest (length s + 1) src (length s + 1)
    → (strcpy m dest src ≡ some (dest, write_list m dest (s ++ 0 ∷ [])))
      × (stpcpy m dest src ≡ some (dest + length s, write_list m dest (s ++ 0 ∷ [])))
copies-write_list m dest src s h room apart =
    (strcpy-write_list m dest src s h room apart, stpcpy-write_list m dest src s h room apart)

module _ (malloc : Mem → ℕ → Option ℕ × Mem) where
  -- strdup asks for one byte more than the string has characters. Where malloc returns such a block,
  -- apart from the string and with the string kept, strdup returns it with a copy of the string.
  pub strdup-write_list :
      (m m' : Mem) (str block : ℕ) (s : List ℕ)
      → IsString m str s
      → malloc m (length s + 1) ≡ (some block, m')
      → IsString m' str s
      → Mapped m' block (length s + 1)
      → Apart block (length s + 1) str (length s + 1)
      → strdup malloc m (some str) ≡ some (some block, write_list m' block (s ++ 0 ∷ []))
  unfolding strdup
  strdup-write_list m m' str block s h given h' room apart =
      rw (strlen-length m str s h, given, strcpy-write_list m' block str s h' room apart)

  -- Where malloc has no memory left strdup does not return null: it copies to the null pointer.
  pub strdup_null :
      (m m' : Mem) (str : ℕ) (s : List ℕ)
      → IsString m str s
      → malloc m (length s + 1) ≡ (none, m')
      → strdup malloc m (some str) ≡ none
  unfolding strdup
  strdup_null m m' str s h given = rw (strlen-length m str s h, given)
