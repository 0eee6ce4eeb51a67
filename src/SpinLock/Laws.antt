-- ===== src/SpinLock/Laws.antt =====
-- What the operations of the lock do, from what the builtins are documented to do.
use osdev_libstdc.Atomic.{
  Builtins, MemoryOrder, cas_failure_order, compare_exchange_strong, load, store,
}
use osdev_libstdc.Atomic.Orders.{can_fail-cas_failure_order}
use osdev_libstdc.Base.{arith, false, if◌then◌else◌, refl, true, ℕ, ◌==◌, ◌≡◌}
use osdev_libstdc.SpinLock.{k_free, k_locked, seems_locked, try_lock, unlock}

module _ (b : Builtins) (value : ℕ) where
  -- try_lock succeeds exactly on a free lock, and then leaves it locked; where it fails it leaves the
  -- value as it is.
  pub try_lock_lem :
      try_lock b value ≡ (if value == k_free then (true, k_locked) else (false, value))
  unfolding try_lock compare_exchange_strong
  try_lock_lem = ground (
    arith,
    Builtins.strong_compares b value k_free k_locked MemoryOrder.acquire
        (cas_failure_order MemoryOrder.acquire) (can_fail-cas_failure_order MemoryOrder.acquire),
  )

  pub seems_locked_lem : seems_locked b value ≡ (value == k_locked)
  unfolding seems_locked load
  seems_locked_lem = rw (Builtins.load_reads b value MemoryOrder.relaxed refl)

  pub unlock_lem : unlock b value ≡ k_free
  unfolding unlock store
  unlock_lem = Builtins.store_writes b value k_free MemoryOrder.release refl
