-- ===== src/Cstring/Edit.antt =====
-- src/cstring.cpp: strrev, strupr and strlwr, which change a string in place.
pub mod Case
pub mod Reverse
use osdev_libstdc.Base.{
  Bool, Option, if◌then◌else◌, ltb, none, some, suc, zero, ℕ, ◌+◌, ◌-◌, ◌==◌, ◌>>=◌,
}
use osdev_libstdc.Base.Int.{schar, to_unsigned, ℤ}
use osdev_libstdc.Cstring.Length.{strlen}
use osdev_libstdc.Ctype.{islower, isupper, tolower, toupper}
use osdev_libstdc.Memory.{Mem, load, store}

-- for (i = 0, j = len - 1; i < j; i++, j--): the exchange of two characters. `j` bounds the rounds.
strrev_loop : ℕ → Mem → (str i j : ℕ) → Option Mem
strrev_loop zero m str i j = some m
strrev_loop (suc k) m str i j =
    if ltb i j
    then (do
      c ← load m (str + i)
      b ← load m (str + j)
      m' ← store m (str + i) b
      m'' ← store m' (str + j) c
      strrev_loop k m'' str (i + 1) (j - 1))
    else some m

pub strrev : Mem → Option ℕ → Option (Option ℕ × Mem)
unfolding strlen strrev_loop
strrev m none = some (none, m)
strrev m (some str) = do
  len ← strlen m str
  if ltb 0 len
      then (do m' ← strrev_loop len m str 0 (len - 1); some (some str, m'))
      else some (some str, m)

-- do { *p = is(*p) ? to(*p) : *p; } while (*p++ != '\0');
case_loop : (ℤ → Bool) → (ℤ → ℤ) → ℕ → Mem → ℕ → Option Mem
case_loop is to zero m p = none
case_loop is to (suc k) m p = do
  c ← load m p
  m' ← store m p (to_unsigned 8 (if is (schar c) then to (schar c) else schar c))
  c' ← load m' p
  if c' == 0 then some m' else case_loop is to k m' (p + 1)

pub strupr : Mem → ℕ → Option (ℕ × Mem)
unfolding case_loop islower toupper
strupr m str = do m' ← case_loop islower toupper (m.size - str) m str; some (str, m')

pub strlwr : Mem → ℕ → Option (ℕ × Mem)
unfolding case_loop isupper tolower
strlwr m str = do m' ← case_loop isupper tolower (m.size - str) m str; some (str, m')
