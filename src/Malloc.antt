-- ===== src/Malloc.antt =====
-- src/malloc.cpp: the six entry points of the allocator, each of which holds the lock while it calls
-- the allocator proper. That allocator (mem_malloc and its like) is the submodule `malloc`, which is
-- not part of the repository: it is a parameter.
pub mod System
use osdev_libstdc.Base.{Option, ℕ}
use osdev_libstdc.Base.Int.{ℤ}

-- A call of an entry point, with its arguments. A pointer is an address or null.
pub data Call : Type 0 where
  libstdc_allocator_initialize : (base : Option ℕ) (size : ℕ) → Call
  aligned_alloc : (alignment size : ℕ) → Call
  calloc : (num size : ℕ) → Call
  free : (ptr : Option ℕ) → Call
  malloc : (size : ℕ) → Call
  realloc : (ptr : Option ℕ) (new_size : ℕ) → Call

pub data Reply : Type 0 where
  code : ℤ → Reply
  pointer : Option ℕ → Reply
  nothing : Reply

-- The functions of the submodule, over its state.
pub record Allocator : Type 1 where
  pub State : Type 0
  pub mem_initialize : State → Option ℕ → ℕ → State × ℤ
  pub mem_malloc_aligned : State → ℕ → ℕ → State × Option ℕ
  pub mem_calloc : State → ℕ → ℕ → State × Option ℕ
  pub mem_free : State → Option ℕ → State
  pub mem_malloc : State → ℕ → State × Option ℕ
  pub mem_realloc : State → Option ℕ → ℕ → State × Option ℕ

module _ (a : Allocator) where
  open a use {
    State, mem_initialize, mem_malloc_aligned, mem_calloc, mem_free, mem_malloc, mem_realloc,
  }

  -- What an entry point does under the lock.
  pub serve : Call → State → State × Reply
  serve (libstdc_allocator_initialize base size) s =
      let (s', r) = mem_initialize s base size in (s', code r)
  serve (aligned_alloc alignment size) s =
      let (s', p) = mem_malloc_aligned s alignment size in (s', pointer p)
  serve (calloc num size) s = let (s', p) = mem_calloc s num size in (s', pointer p)
  serve (free ptr) s = (mem_free s ptr, nothing)
  serve (malloc size) s = let (s', p) = mem_malloc s size in (s', pointer p)
  serve (realloc ptr new_size) s = let (s', p) = mem_realloc s ptr new_size in (s', pointer p)
