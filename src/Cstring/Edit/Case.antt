-- ===== src/Cstring/Edit/Case.antt =====
-- Lemmas on strupr and strlwr.
use osdev_libstdc.Base.{
  Bool, List, [], ap, ap₂, arith, false, if◌then◌else◌, is_some, leb, length, map, refl, some, suc,
  zero, ℕ, ◌&&◌, ◌+◌, ◌-◌, ◌<◌, ◌==◌, ◌∷◌, ◌≡◌,
}
use osdev_libstdc.Base.Int.{schar, to_unsigned, ℤ, ◌+ℤ◌, ◌-ℤ◌}
use osdev_libstdc.Cstring.Edit.{case_loop, strlwr, strupr}
use osdev_libstdc.Ctype.{islower, isupper, tolower, toupper}
use osdev_libstdc.Memory.{IsChars, IsString, Mem, write, write_list}
use osdev_libstdc.Memory.Laws.{load-write_self, store-eq-write, write-load}
use osdev_libstdc.Memory.Strings.{IsString-lt-size, IsString-tail, IsString-write}

-- What the loop stores for the character `c`.
abbrev stored : (ℤ → Bool) → (ℤ → ℤ) → ℕ → ℕ
stored is to c = to_unsigned 8 (if is (schar c) then to (schar c) else schar c)

-- The loop stores NUL for NUL only.
abbrev KeepsNul : (ℤ → Bool) → (ℤ → ℤ) → Type 0
KeepsNul is to = (stored is to 0 ≡ 0) × ((c : ℕ) → 0 < c → c < 256 → 0 < stored is to c)

case_loop-map :
    (is : ℤ → Bool) (to : ℤ → ℤ) (k : ℕ) (m : Mem) (p : ℕ) (s : List ℕ)
    → KeepsNul is to
    → length s < k
    → IsString m p s
    → case_loop is to k m p ≡ some (write_list m p (map (stored is to) s))
unfolding case_loop write_list
case_loop-map is to zero m p s keep lt h = absurd (omega arith)
case_loop-map is to (suc k) m p [] keep lt h = rw (
  h.0.0,
  keep.0,
  store-eq-write m p 0 (ap is_some h.0.0),
  load-write_self m p 0 (ap is_some h.0.0),
  write-load m p 0 h.0.0,
)
case_loop-map is to (suc k) m p (c ∷ s) keep lt h =
    let v = stored is to c in
    let free = ap is_some h.0.0 in
    let more : (v == 0) ≡ false = ground (arith, keep.1 c h.1.0 h.1.1) in
    rw (h.0.0, store-eq-write m p v free, load-write_self m p v free, more)
      (case_loop-map is to k (write m p v) (p + 1) s keep (omega arith)
        (IsString-write m (p + 1) s p v (omega arith) (IsString-tail m p c s h)))

-- The letters of ASCII, in upper and in lower case.
abbrev pub upper : ℕ → ℕ
upper c = if leb b'a' c && leb c b'z' then c - 32 else c

abbrev pub lower : ℕ → ℕ
lower c = if leb b'A' c && leb c b'Z' then c + 32 else c

stored-upper : (c : ℕ) → c < 256 → stored islower toupper c ≡ upper c
unfolding islower toupper ◌-ℤ◌
stored-upper c h = ground arith

stored-lower : (c : ℕ) → c < 256 → stored isupper tolower c ≡ lower c
unfolding isupper tolower ◌+ℤ◌
stored-lower c h = ground arith

map-congr :
    (f g : ℕ → ℕ) (s : List ℕ) → ((c : ℕ) → c < 256 → f c ≡ g c) → IsChars s → map f s ≡ map g s
map-congr f g [] e h = refl
map-congr f g (c ∷ s) e h = ap₂ ◌∷◌ (e c h.1) (map-congr f g s e h.2)

-- strupr puts every letter of the string at `str` in upper case, in place, writes nothing behind the
-- string, and returns `str`.
strupr-map :
    (m : Mem) (str : ℕ) (s : List ℕ)
    → IsString m str s
    → strupr m str ≡ some (str, write_list m str (map upper s))
unfolding strupr
strupr-map m str s h = rw (
  ← map-congr (stored islower toupper) upper s stored-upper h.1,
  case_loop-map islower toupper (m.size - str) m str s
      (stored-upper 0 (omega arith), λ c lo hi. ground (arith, stored-upper c hi))
      (omega (arith, IsString-lt-size m str s h)) h,
)

pub strlwr-map :
    (m : Mem) (str : ℕ) (s : List ℕ)
    → IsString m str s
    → strlwr m str ≡ some (str, write_list m str (map lower s))
unfolding strlwr
strlwr-map m str s h = rw (
  ← map-congr (stored isupper tolower) lower s stored-lower h.1,
  case_loop-map isupper tolower (m.size - str) m str s
      (stored-lower 0 (omega arith), λ c lo hi. ground (arith, stored-lower c hi))
      (omega (arith, IsString-lt-size m str s h)) h,
)
