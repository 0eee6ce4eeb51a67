-- ===== src/Cstring/Build.antt =====
-- src/cstring.cpp: strcpy, strncpy, strcat, strncat, stpcpy and strdup.
pub mod Copying
pub mod Appending
pub mod Ends
mod Tests
use osdev_libstdc.Base.{
  Option, false, if◌then◌else◌, none, some, suc, true, zero, ℕ, ◌+◌, ◌-◌, ◌==◌, ◌>>=◌,
}
use osdev_libstdc.Cstring.Copy.{memcpy}
use osdev_libstdc.Cstring.Length.{strlen}
use osdev_libstdc.Memory.{Mem, load, store}

-- do { *d = *s; } while (*s++ && *d++); both characters are read again after the store.
pub strcpy_loop : ℕ → Mem → (d s : ℕ) → Option Mem
strcpy_loop zero m d s = none
strcpy_loop (suc k) m d s = do
  b ← load m s
  m' ← store m d b
  c ← load m' s
  if c == 0
      then some m'
      else do c' ← load m' d; if c' == 0 then some m' else strcpy_loop k m' (d + 1) (s + 1)

pub strcpy : Mem → (dest src : ℕ) → Option (ℕ × Mem)
unfolding strcpy_loop
strcpy m dest src = do m' ← strcpy_loop (m.size - src) m dest src; some (dest, m')

-- while (n > 0): once the NUL of `src` is reached `s` stays there.
strncpy_loop : ℕ → Mem → (d s : ℕ) → Option Mem
strncpy_loop zero m d s = some m
strncpy_loop (suc n) m d s = do
  c ← load m s
  elim (c == 0) [
    | false ↦ (store m d c >>= λ m'. strncpy_loop n m' (d + 1) (s + 1))
    | true ↦ (store m d 0 >>= λ m'. strncpy_loop n m' (d + 1) s)
  ]

pub strncpy : Mem → (dest src n : ℕ) → Option (ℕ × Mem)
unfolding strncpy_loop
strncpy m dest src n = do m' ← strncpy_loop n m dest src; some (dest, m')

-- while (*d++) {} --d;
pub end_loop : ℕ → Mem → ℕ → Option ℕ
end_loop zero m d = none
end_loop (suc k) m d = do c ← load m d; if c == 0 then some d else end_loop k m (d + 1)

-- while (*s) { *d++ = *s++; }
pub strcat_loop : ℕ → Mem → (d s : ℕ) → Option (ℕ × Mem)
strcat_loop zero m d s = none
strcat_loop (suc k) m d s = do
  c ← load m s
  if c == 0 then some (d, m) else do m' ← store m d c; strcat_loop k m' (d + 1) (s + 1)

pub strcat : Mem → (dest src : ℕ) → Option (ℕ × Mem)
unfolding end_loop strcat_loop
strcat m dest src = do
  d ← end_loop (m.size - dest) m dest
  (d', m') ← strcat_loop (m.size - src) m d src
  m'' ← store m' d' 0
  some (dest, m'')

-- while (*s && length-- > 0) { *d++ = *s++; } reads `*s` also when no round is left.
strncat_loop : ℕ → Mem → (d s : ℕ) → Option (ℕ × Mem)
strncat_loop zero m d s = do c ← load m s; some (d, m)
strncat_loop (suc n) m d s = do
  c ← load m s
  if c == 0 then some (d, m) else do m' ← store m d c; strncat_loop n m' (d + 1) (s + 1)

pub strncat : Mem → (dest src length : ℕ) → Option (ℕ × Mem)
unfolding end_loop strncat_loop
strncat m dest src n = do
  d ← end_loop (m.size - dest) m dest
  (d', m') ← strncat_loop n m d src
  m'' ← store m' d' 0
  some (dest, m'')

pub stpcpy : Mem → (dest src : ℕ) → Option (ℕ × Mem)
unfolding strlen memcpy
stpcpy m dest src = do
  src_len ← strlen m src
  (_, m') ← memcpy m dest src (src_len + 1)
  some (dest + src_len, m')

-- The allocator is a parameter: what it returns, and the memory after the call.
module _ (malloc : Mem → ℕ → Option ℕ × Mem) where
  -- A null result of malloc goes to strcpy, which stores through it: a fault.
  strdup_into : ℕ → Option ℕ × Mem → Option (Option ℕ × Mem)
  unfolding strcpy
  strdup_into s (none, m) = none
  strdup_into s (some str, m) = do (d, m') ← strcpy m str s; some (some d, m')

  pub strdup : Mem → Option ℕ → Option (Option ℕ × Mem)
  unfolding strlen strdup_into
  strdup m none = some (none, m)
  strdup m (some s) = do n ← strlen m s; strdup_into s (malloc m (n + 1))
