-- ===== src/Cstring/Copy.antt =====
-- src/cstring.cpp: memcpy, memmove, memset, mempcpy and memccpy.
pub mod Laws
pub mod Sizes
use osdev_libstdc.Base.{
  Option, if◌then◌else◌, leb, length, ltb, none, some, suc, zero, ℕ, ◌+◌, ◌-◌, ◌==◌, ◌>>=◌,
}
use osdev_libstdc.Base.Int.{eqb_ℤ, pos, to_unsigned, ℤ}
use osdev_libstdc.Memory.{Mem, load, store}

-- while (length-- > 0) { *d++ = *s++; }
pub copy_loop : ℕ → Mem → ℕ → ℕ → Option Mem
copy_loop zero m d s = some m
copy_loop (suc n) m d s = do b ← load m s; m' ← store m d b; copy_loop n m' (d + 1) (s + 1)

unfoldable pub memcpy : Mem → (dest src length : ℕ) → Option (ℕ × Mem)
unfolding copy_loop
memcpy m dest src n =
    if dest == src then some (dest, m) else do m' ← copy_loop n m dest src; some (dest, m')

-- while (length-- > 0) { *--d = *--s; }
copy_back_loop : ℕ → Mem → ℕ → ℕ → Option Mem
copy_back_loop zero m d s = some m
copy_back_loop (suc n) m d s = do
  b ← load m (s - 1)
  m' ← store m (d - 1) b
  copy_back_loop n m' (d - 1) (s - 1)

pub memmove : Mem → (dest src length : ℕ) → Option (ℕ × Mem)
unfolding copy_loop copy_back_loop
memmove m dest src n = do
  m' ←
      (if leb dest src
        then copy_loop n m dest src
        else if leb src dest
        then copy_back_loop n m (dest + n) (src + n)
        else some m)
  some (dest, m')

-- while (length-- > 0) { *p++ = (unsigned char) value; }
pub set_loop : ℕ → Mem → ℕ → ℕ → Option Mem
set_loop zero m p v = some m
set_loop (suc n) m p v = do m' ← store m p v; set_loop n m' (p + 1) v

unfoldable pub memset : Mem → (dest : ℕ) → (value : ℤ) → (length : ℕ) → Option (ℕ × Mem)
unfolding set_loop
memset m dest value n = do m' ← set_loop n m dest (to_unsigned 8 value); some (dest, m')

unfoldable pub mempcpy : Mem → (dest src n : ℕ) → Option (ℕ × Mem)
unfolding memcpy
mempcpy m dest src n = do (d, m') ← memcpy m dest src n; some (d + n, m')

-- The loop of memccpy at index `i`, with `n - i` rounds left. The byte stored is read again for the
-- test, after the store.
memccpy_loop : ℕ → Mem → (dest src : ℕ) → ℤ → ℕ → Option (Option ℕ × Mem)
memccpy_loop zero m dest src c i = some (none, m)
memccpy_loop (suc n) m dest src c i = do
  b ← load m (src + i)
  m' ← store m (dest + i) b
  b' ← load m' (src + i)
  if eqb_ℤ (pos b') c then some (some (dest + i + 1), m') else memccpy_loop n m' dest src c (i + 1)

pub memccpy : Mem → (dest src : ℕ) → ℤ → ℕ → Option (Option ℕ × Mem)
unfolding memccpy_loop
memccpy m dest src c n = if ltb 0 n then memccpy_loop n m dest src c 0 else some (none, m)
