-- ===== src/Cstring/Token.antt =====
-- src/cstring.cpp: strtok_r and strtok. The argument `saveptr` may be null, and so may the pointer
-- that it points to.
pub mod Laws
pub mod Step
pub mod Tokens
pub mod Walk
use osdev_libstdc.Base.{Option, if◌then◌else◌, map, none, some, ℕ, ◌+◌, ◌==◌, ◌>>=◌}
use osdev_libstdc.Cstring.Search.{strcspn, strspn}
use osdev_libstdc.Memory.{Mem, load, store}
use mathlib.Core.Option

-- What strtok_r returns, what it leaves in `*saveptr`, and memory.
pub record Token : Type 0 where
  pub res : Option ℕ
  pub saved : Option (Option ℕ)
  pub mem : Mem

-- The end of a token: a NUL in place of the delimiter, unless the string ends here. With it the
-- address to go on from.
cut : Mem → ℕ → Option (ℕ × Mem)
cut m end = do
  c ← load m end
  if c == 0 then some (end, m) else do m' ← store m end 0; some (end + 1, m')

-- strtok_r once `old_str` is known.
pub strtok_from : Mem → (old_str delim : ℕ) → Option (Option ℕ) → Option Token
unfolding strspn strcspn cut
strtok_from m old_str delim saveptr = do
  n ← strspn m old_str delim
  c ← load m (old_str + n)
  if c == 0 then some (record { res = none; saved = saveptr; mem = m }) else do
    k ← strcspn m (old_str + n + 1) delim
    (rest, m') ← cut m (old_str + n + 1 + k)
    some
        (record { res = some (old_str + n); saved = Option.map (λ _. some rest) saveptr; mem = m' })

pub strtok_r : Mem → Option ℕ → ℕ → Option (Option ℕ) → Option Token
unfolding strtok_from
strtok_r m (some str) delim saveptr = strtok_from m str delim saveptr
strtok_r m none delim (some (some old_str)) = strtok_from m old_str delim (some (some old_str))
strtok_r m none delim saveptr = some (record { res = none; saved = saveptr; mem = m })

-- `old_str` is the static variable, null at the start.
unfoldable pub strtok : Mem → (old_str : Option ℕ) → Option ℕ → ℕ → Option Token
unfolding strtok_r
strtok m old_str str delim = strtok_r m str delim (some old_str)
