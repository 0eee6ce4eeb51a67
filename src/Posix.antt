-- ===== src/Posix.antt =====
-- posix/posix_strings.cpp: strlcpy, strlcat, strcasecmp, strncasecmp, ffs, ffsl and ffsll.
pub mod Bounded
pub mod Fold
pub mod FirstSet
mod Tests
use osdev_libstdc.Base.{
  Option, false, if◌then◌else◌, ltb, none, not, some, suc, true, zero, ℕ, ◌&&◌, ◌+◌, ◌-◌, ◌/◌, ◌==◌,
  ◌>>=◌, ◌||◌,
}
use osdev_libstdc.Base.Int.{eqb_ℤ, pos, schar, to_unsigned, ℤ, ◌-ℤ◌}
use osdev_libstdc.Cstring.Copy.{memcpy}
use osdev_libstdc.Cstring.Length.{strlen}
use osdev_libstdc.Ctype.{tolower}
use osdev_libstdc.Memory.{Mem, load, store}
use Prim.Native.Nat.{bit_and}

pub strlcpy : Mem → (dst src size : ℕ) → Option (ℕ × Mem)
unfolding strlen memcpy
strlcpy m dst src size = do
  len ← strlen m src
  m' ←
      (if ltb (len + 1) size
        then (do (_, m') ← memcpy m dst src (len + 1); some m')
        else if ltb 0 size
        then (do (_, m') ← memcpy m dst src (size - 1); store m' (dst + (size - 1)) 0)
        else some m)
  some (len, m')

-- for (; n > 0 && *d; n--, d++) {}
bounded_end : ℕ → Mem → ℕ → Option ℕ
bounded_end zero m d = some d
bounded_end (suc n) m d = do c ← load m d; if c == 0 then some d else bounded_end n m (d + 1)

-- while (*s) { if (n > 1) { *d++ = *s; n--; } s++; }
strlcat_loop : ℕ → Mem → (d s n : ℕ) → Option (ℕ × ℕ × Mem)
strlcat_loop zero m d s n = none
strlcat_loop (suc k) m d s n = do
  c ← load m s
  if c == 0 then some (d, s, m) else elim (ltb 1 n) [
    | true ↦ (store m d c >>= λ m'. strlcat_loop k m' (d + 1) (s + 1) (n - 1))
    | false ↦ strlcat_loop k m d (s + 1) n
  ]

pub strlcat : Mem → (dst src dstsize : ℕ) → Option (ℕ × Mem)
unfolding strlen bounded_end strlcat_loop
strlcat m dst src dstsize = do
  d ← bounded_end dstsize m dst
  let dst_len = d - dst
  let n = dstsize - dst_len
  if n == 0 then (do len ← strlen m src; some (len + dst_len, m)) else (do
    (d', s', m') ← strlcat_loop (m.size - src) m d src n
    m'' ← store m' d' 0
    some (dst_len + (s' - src), m''))

strcasecmp_loop : ℕ → Mem → (f s : ℕ) → Option ℤ
unfolding tolower
strcasecmp_loop zero m f s = none
strcasecmp_loop (suc k) m f s = do
  x ← load m f
  y ← load m s
  if not (eqb_ℤ (tolower (schar x)) (tolower (schar y)))
      then some (tolower (schar x) -ℤ tolower (schar y))
      else if not (x == 0) && not (y == 0)
      then strcasecmp_loop k m (f + 1) (s + 1)
      else some (pos 0)

pub strcasecmp : Mem → (first second : ℕ) → Option ℤ
unfolding strcasecmp_loop
strcasecmp m first second = strcasecmp_loop (m.size - first) m first second

strncasecmp_loop : ℕ → Mem → (first second i : ℕ) → Option ℤ
unfolding tolower
strncasecmp_loop zero m first second i = some (pos 0)
strncasecmp_loop (suc n) m first second i = do
  x ← load m (first + i)
  y ← load m (second + i)
  if not (eqb_ℤ (tolower (schar x)) (tolower (schar y)))
      then some (tolower (schar x) -ℤ tolower (schar y))
      else if x == 0 || y == 0
      then some (pos 0)
      else strncasecmp_loop n m first second (i + 1)

pub strncasecmp : Mem → (first second n : ℕ) → Option ℤ
unfolding strncasecmp_loop
strncasecmp m first second n = strncasecmp_loop n m first second 0

-- for (i = 1; !(val & 1); i++) { val = (unsigned) val >> 1; } over the pattern of `val`, which has as
-- many bits as rounds are allowed.
ffs_loop : ℕ → (val i : ℕ) → Option ℕ
ffs_loop zero val i = none
ffs_loop (suc k) val i = if bit_and val 1 == 0 then ffs_loop k (val / 2) (i + 1) else some i

-- ffs, ffsl and ffsll, for a type of `w` bits.
pub ffs_width : ℕ → ℤ → Option ℕ
unfolding ffs_loop
ffs_width w val = if eqb_ℤ val (pos 0) then some 0 else ffs_loop w (to_unsigned w val) 1

pub ffs : ℤ → Option ℕ
unfolding ffs_width
ffs val = ffs_width 32 val

-- `long` has 32 or 64 bits, by the target.
pub ffsl : (long_bits : ℕ) → ℤ → Option ℕ
unfolding ffs_width
ffsl long_bits val = ffs_width long_bits val

pub ffsll : ℤ → Option ℕ
unfolding ffs_width
ffsll val = ffs_width 64 val
