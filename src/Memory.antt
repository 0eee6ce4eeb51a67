-- ===== src/Memory.antt =====
-- The memory that the routines work on: one address space of bytes, where a pointer is an address.
-- An access to an unmapped address is the fault `none`; C leaves it undefined.
pub mod Sample
pub mod Laws
pub mod Strings
pub mod Sizes
use osdev_libstdc.Base.{
  List, Option, [], if◌then◌else◌, is_some, ltb, none, some, suc, true, zero, ℕ, ◌++◌, ◌+◌, ◌<◌,
  ◌==◌, ◌∷◌, ◌≡◌, ◌≤◌, ◌⊎◌,
}

-- No address from `size` on is mapped.
pub record Mem : Type 0 where
  pub size : ℕ
  pub cell : ℕ → Option ℕ

unfoldable pub load : Mem → ℕ → Option ℕ
load m p = if ltb p m.size then m.cell p else none

-- The memory after a write to a mapped address.
unfoldable pub write : Mem → ℕ → ℕ → Mem
write m p v = record m { cell = λ q. if p == q then some v else m.cell q }

unfoldable pub store : Mem → ℕ → ℕ → Option Mem
unfolding load write
store m p v = if is_some (load m p) then some (write m p v) else none

-- The bytes `bs` written from address `p` on, in order.
unfoldable pub write_list : Mem → ℕ → List ℕ → Mem
write_list m p [] = m
write_list m p (b ∷ bs) = write_list (write m p b) (p + 1) bs

-- `bs` stands in memory from `p` on.
abbrev pub Bytes : Mem → ℕ → List ℕ → Type 0
Bytes m p [] = Unit
Bytes m p (b ∷ bs) = (load m p ≡ some b) × Bytes m (p + 1) bs

-- The `n` addresses from `p` on are mapped.
abbrev pub Mapped : Mem → ℕ → ℕ → Type 0
Mapped m p zero = Unit
Mapped m p (suc n) = (is_some (load m p) ≡ true) × Mapped m (p + 1) n

-- `n` addresses from `p` on and `k` addresses from `q` on have none in common.
abbrev pub Apart : ℕ → ℕ → ℕ → ℕ → Type 0
Apart p n q k = (p + n ≤ q) ⊎ (q + k ≤ p)

-- Characters of a string: bytes that are not NUL.
abbrev pub IsChars : List ℕ → Type 0
IsChars [] = Unit
IsChars (c ∷ s) = (0 < c) × (c < 256) × IsChars s

-- The characters `s` and behind them a NUL stand in memory from `p` on.
abbrev pub IsString : Mem → ℕ → List ℕ → Type 0
IsString m p s = Bytes m p (s ++ 0 ∷ []) × IsChars s
