-- ===== src/Cstring/Compare.antt =====
-- src/cstring.cpp: memcmp, strcmp and strncmp. Bytes are compared through `char`, which is signed,
-- in the string functions, and as unsigned char in memcmp.
pub mod Laws
use osdev_libstdc.Base.{
  Option, if◌then◌else◌, none, not, some, suc, zero, ℕ, ◌&&◌, ◌+◌, ◌-◌, ◌==◌, ◌>>=◌, ◌||◌,
}
use osdev_libstdc.Base.Int.{pos, schar, ℤ, ◌-ℤ◌}
use osdev_libstdc.Memory.{Mem, load}

memcmp_loop : ℕ → Mem → (first second : ℕ) → ℕ → Option ℤ
memcmp_loop zero m first second i = some (pos 0)
memcmp_loop (suc n) m first second i = do
  x ← load m (first + i)
  y ← load m (second + i)
  if not (x == y) then some (pos x -ℤ pos y) else memcmp_loop n m first second (i + 1)

pub memcmp : Mem → (first second length : ℕ) → Option ℤ
unfolding memcmp_loop
memcmp m first second n = memcmp_loop n m first second 0

strcmp_loop : ℕ → Mem → (f s : ℕ) → Option ℤ
strcmp_loop zero m f s = none
strcmp_loop (suc k) m f s = do
  x ← load m f
  y ← load m s
  if not (x == y)
      then some (schar x -ℤ schar y)
      else if not (x == 0) && not (y == 0)
      then strcmp_loop k m (f + 1) (s + 1)
      else some (pos 0)

pub strcmp : Mem → (first second : ℕ) → Option ℤ
unfolding strcmp_loop
strcmp m first second = strcmp_loop (m.size - first) m first second

strncmp_loop : ℕ → Mem → (first second : ℕ) → ℕ → Option ℤ
strncmp_loop zero m first second i = some (pos 0)
strncmp_loop (suc n) m first second i = do
  x ← load m (first + i)
  y ← load m (second + i)
  if not (x == y)
      then some (schar x -ℤ schar y)
      else if x == 0 || y == 0
      then some (pos 0)
      else strncmp_loop n m first second (i + 1)

unfoldable pub strncmp : Mem → (first second length : ℕ) → Option ℤ
unfolding strncmp_loop
strncmp m first second n = strncmp_loop n m first second 0
