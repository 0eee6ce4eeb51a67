-- ===== src/Atomic.antt =====
-- include/atomic.h: the operations of std::atomic and std::atomic_ref on one cell. The GCC builtins that
-- they call are a parameter; the cell's value is a number.
pub mod Orders
pub mod Objects
pub mod Registers
pub mod Sample
mod Tests
use osdev_libstdc.Base.{Bool, false, if◌then◌else◌, leb, true, ℕ, ◌&&◌, ◌==◌, ◌≡◌, ◌⊎◌}

-- enum memory_order
pub data MemoryOrder : Type 0 where
  relaxed acquire release acq_rel seq_cst : MemoryOrder

-- detail::__cas_failure_order
pub cas_failure_order : MemoryOrder → MemoryOrder
cas_failure_order MemoryOrder.release = MemoryOrder.relaxed
cas_failure_order MemoryOrder.acq_rel = MemoryOrder.acquire
cas_failure_order order = order

-- What a compare-exchange returns, and leaves in the cell and in `expected`.
pub record Exchange : Type 0 where
  pub success : Bool
  pub value : ℕ
  pub expected : ℕ

-- The orders that GCC documents for a load, for a store, and for the failure of a compare-exchange with
-- the order `success`: one for a load, and none that is stronger than `success`.
abbrev pub can_load : MemoryOrder → Bool
can_load MemoryOrder.release = false
can_load MemoryOrder.acq_rel = false
can_load order = true

abbrev pub can_store : MemoryOrder → Bool
can_store MemoryOrder.acquire = false
can_store MemoryOrder.acq_rel = false
can_store order = true

-- How much a load with the order synchronises.
abbrev pub load_strength : MemoryOrder → ℕ
load_strength MemoryOrder.relaxed = 0
load_strength MemoryOrder.acquire = 1
load_strength MemoryOrder.release = 0
load_strength MemoryOrder.acq_rel = 1
load_strength MemoryOrder.seq_cst = 2

abbrev pub can_fail : (success failure : MemoryOrder) → Bool
can_fail success failure = can_load failure && leb (load_strength failure) (load_strength success)

-- The builtins __atomic_load, __atomic_store, __atomic_exchange, __atomic_compare_exchange and
-- __atomic_is_lock_free, with what GCC documents of them, which is nothing where an order is not one
-- that it allows. A weak compare-exchange may also fail where the values agree.
pub record Builtins : Type 0 where
  pub load_value : ℕ → MemoryOrder → ℕ
  pub store_value : ℕ → ℕ → MemoryOrder → ℕ
  pub exchange_value : ℕ → ℕ → MemoryOrder → ℕ × ℕ
  pub compare_exchange :
      (value expected desired : ℕ) → (weak : Bool) → MemoryOrder → MemoryOrder → Exchange
  pub load_reads : (v : ℕ) (o : MemoryOrder) → can_load o ≡ true → load_value v o ≡ v
  pub store_writes : (v d : ℕ) (o : MemoryOrder) → can_store o ≡ true → store_value v d o ≡ d
  pub exchange_swaps : (v d : ℕ) (o : MemoryOrder) → exchange_value v d o ≡ (d, v)
  pub strong_compares :
      (v e d : ℕ) (s f : MemoryOrder)
      → can_fail s f ≡ true
      → compare_exchange v e d false s f ≡ (
          if v == e
          then record { success = true; value = d; expected = e }
          else record { success = false; value = v; expected = v })
  pub weak_compares :
      (v e d : ℕ) (s f : MemoryOrder)
      → can_fail s f ≡ true
      → (compare_exchange v e d true s f ≡ compare_exchange v e d false s f)
        ⊎ (compare_exchange v e d true s f ≡ record { success = false; value = v; expected = v })
  pub lock_free : (size p : ℕ) → Bool

module _ (b : Builtins) where
  open b use {load_value, store_value, exchange_value, compare_exchange, lock_free}

  -- operator=, which stores and returns `desired`
  pub assign : (value desired : ℕ) → ℕ × ℕ
  assign value desired = (store_value value desired MemoryOrder.seq_cst, desired)

  unfoldable pub store : (value desired : ℕ) → MemoryOrder → ℕ
  store value desired order = store_value value desired order

  unfoldable pub load : ℕ → MemoryOrder → ℕ
  load value order = load_value value order

  -- operator _Type
  pub convert : ℕ → ℕ
  convert value = load_value value MemoryOrder.seq_cst

  pub exchange : (value desired : ℕ) → MemoryOrder → ℕ × ℕ
  exchange value desired order = exchange_value value desired order

  pub compare_exchange_weak : (value expected desired : ℕ) → MemoryOrder → Exchange
  unfolding cas_failure_order
  compare_exchange_weak value expected desired order =
      compare_exchange value expected desired true order (cas_failure_order order)

  unfoldable pub compare_exchange_strong : (value expected desired : ℕ) → MemoryOrder → Exchange
  unfolding cas_failure_order
  compare_exchange_strong value expected desired order =
      compare_exchange value expected desired false order (cas_failure_order order)

  -- The overloads with an order for success and one for failure.
  pub compare_exchange_weak_orders :
      (value expected desired : ℕ) → (on_success on_failure : MemoryOrder) → Exchange
  compare_exchange_weak_orders value expected desired on_success on_failure =
      compare_exchange value expected desired true on_success on_failure

  pub compare_exchange_strong_orders :
      (value expected desired : ℕ) → (on_success on_failure : MemoryOrder) → Exchange
  compare_exchange_strong_orders value expected desired on_success on_failure =
      compare_exchange value expected desired false on_success on_failure

  -- `size` is sizeof(_Type), and `p` the address of the value.
  pub is_lock_free : (size p : ℕ) → Bool
  is_lock_free size p = lock_free size p
