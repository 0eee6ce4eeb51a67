-- ===== src/Cstring/Length.antt =====
-- src/cstring.cpp: strlen and strnlen.
-- A loop that walks memory upwards takes the distance to the end of memory as its bound: where that
-- reaches zero the next access would be a fault.
pub mod Laws
use osdev_libstdc.Base.{Option, if◌then◌else◌, none, some, suc, zero, ℕ, ◌+◌, ◌-◌, ◌==◌, ◌>>=◌}
use osdev_libstdc.Memory.{Mem, load}
use Prim.Native.Nat.{min}

-- while (*str++ != '\0') { res++; }
strlen_loop : ℕ → Mem → ℕ → ℕ → Option ℕ
strlen_loop zero m str res = none
strlen_loop (suc k) m str res = do
  c ← load m str
  if c == 0 then some res else strlen_loop k m (str + 1) (res + 1)

unfoldable pub strlen : Mem → (str : ℕ) → Option ℕ
unfolding strlen_loop
strlen m str = strlen_loop (m.size - str) m str 0

unfoldable pub strnlen : Mem → (str max_len : ℕ) → Option ℕ
unfolding strlen
strnlen m str max_len = do n ← strlen m str; some (min n max_len)
