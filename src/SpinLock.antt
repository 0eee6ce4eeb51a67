-- ===== src/SpinLock.antt =====
-- include/dux/spin_lock.h and the interrupt functions of include/arch/x86/asm/cpu.h that it uses.
pub mod Laws
pub mod Guards
pub mod Scopes
mod Tests
use osdev_libstdc.Atomic.{
  Builtins, MemoryOrder, acquire, compare_exchange_strong, load, relaxed, release, store,
}
use osdev_libstdc.Base.{Bool, false, if◌then◌else◌, true, ℕ, ◌==◌}

abbrev pub k_free : ℕ
k_free = 0

abbrev pub k_locked : ℕ
k_locked = 1

-- irq_save_disable on a CPU whose interrupt flag is `enabled`: the flag after it, and its result.
unfoldable pub irq_save_disable : Bool → Bool × Bool
irq_save_disable enabled = (false, enabled)

-- irq_restore: the flag after it.
unfoldable pub irq_restore : (was_enabled : Bool) → Bool → Bool
irq_restore was_enabled enabled = if was_enabled then true else enabled

module _ (b : Builtins) where
  -- spin_lock::try_lock, and one attempt in the loop of spin_lock::lock: its result, and the value of
  -- the lock after it.
  unfoldable pub try_lock : ℕ → Bool × ℕ
  unfolding compare_exchange_strong
  try_lock value =
      let r = compare_exchange_strong b value k_free k_locked MemoryOrder.acquire in
      (r.success, r.value)

  -- The test of the inner loop of spin_lock::lock.
  unfoldable pub seems_locked : ℕ → Bool
  unfolding load
  seems_locked value = load b value MemoryOrder.relaxed == k_locked

  unfoldable pub unlock : ℕ → ℕ
  unfolding store
  unlock value = store b value k_free MemoryOrder.release
