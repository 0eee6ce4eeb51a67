-- ===== src/Memory/Sample.antt =====
-- Memories given by their bytes, for examples: `none` is an unmapped address.
use osdev_libstdc.Base.{List, Option, [], arith, get_elem?, length, map, none, some, ℕ, ◌∷◌}
use osdev_libstdc.Memory.{Bytes, IsString, Mapped, Mem, load}
use osdev_libstdc.Memory.Strings.{IsByteMem}

abbrev pub of_cells : List (Option ℕ) → Mem
of_cells l = record {
  size = length l;
  cell = λ q. elim (get_elem? l q) [ some c ↦ c | none ↦ none ];
}

abbrev pub of_bytes : List ℕ → Mem
of_bytes bs = of_cells (none ∷ map some bs)

-- From address 1 the string "ab,c", from 6 the string ",", from 8 free bytes, from 14 the string "b".
abbrev pub sample : Mem
sample = of_bytes (97 ∷ 98 ∷ 44 ∷ 99 ∷ 0 ∷ 44 ∷ 0 ∷ 120 ∷ 120 ∷ 120 ∷ 120 ∷ 120 ∷ 120 ∷ 98 ∷ 0 ∷ [])

abbrev pub abc : List ℕ
abc = 97 ∷ 98 ∷ 44 ∷ 99 ∷ []

pub abc_there : IsString sample 1 abc
unfolding load
abc_there = ground arith

pub comma_there : IsString sample 6 (44 ∷ [])
unfolding load
comma_there = ground arith

pub b_there : IsString sample 14 (98 ∷ [])
unfolding load
b_there = ground arith

pub free_there : Mapped sample 8 6
unfolding load
free_there = ground arith

pub sample_there : Bytes sample 1 (97 ∷ 98 ∷ 44 ∷ [])
unfolding load
sample_there = ground arith

pub overlap_there : Mapped sample 2 3
unfolding load
overlap_there = ground arith

-- Two bytes with no NUL behind them at the end of memory, and free bytes with a string "x" before them.
abbrev pub open_text : Mem
open_text = of_bytes (120 ∷ 0 ∷ 0 ∷ 0 ∷ 0 ∷ 97 ∷ 98 ∷ [])

pub three_free : Mapped sample 8 3
unfolding load
three_free = ground arith

pub five_free : Mapped sample 8 5
unfolding load
five_free = ground arith

pub two_free : Mapped sample 8 2
unfolding load
two_free = ground arith

pub two_behind : Mapped sample 7 2
unfolding load
two_behind = ground arith

pub xs_there : Bytes sample 8 (120 ∷ 120 ∷ 120 ∷ [])
unfolding load
xs_there = ground arith

pub six_there : Bytes sample 8 (120 ∷ 120 ∷ 120 ∷ 120 ∷ 120 ∷ 120 ∷ [])
unfolding load
six_there = ground arith

pub bc_there : IsString sample 2 (98 ∷ 44 ∷ 99 ∷ [])
unfolding load
bc_there = ground arith

-- One mapped byte, a NUL.
abbrev pub empty : Mem
empty = record { size = 1; cell = λ q. some 0 }

pub empty_bytes : IsByteMem empty
unfolding load
empty_bytes q b h = ground arith

-- An allocator that always returns the same block.
abbrev pub fixed_malloc : Mem → ℕ → Option ℕ × Mem
fixed_malloc m n = (some 8, m)
