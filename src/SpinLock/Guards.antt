-- ===== src/SpinLock/Guards.antt =====
-- The guards of include/dux/spin_lock.h: what their constructors and destructors do to the interrupt
-- flag of the CPU and to the lock that they are given.
-- A guard's constructor: the state after it, and its member `_M_was_enabled`.
use osdev_libstdc.Atomic.{Builtins}
use osdev_libstdc.Base.{
  Bool, Bool-cases, Option, arith, false, if◌then◌else◌, inl, inr, none, refl, some, suc, true,
  zero, ℕ, ◌==◌, ◌>>=◌, ◌≡◌,
}
use osdev_libstdc.SpinLock.{
  irq_restore, irq_save_disable, k_free, k_locked, seems_locked, try_lock, unlock,
}
use osdev_libstdc.SpinLock.Laws.{seems_locked_lem, try_lock_lem, unlock_lem}

pub irq_save_guard : (irq : Bool) → Bool × Bool
irq_save_guard irq = irq_save_disable irq

-- Its destructor.
pub end_irq_save_guard : (was_enabled : Bool) → (irq : Bool) → Bool
end_irq_save_guard was_enabled irq = irq_restore was_enabled irq

module _ (b : Builtins) where
  -- spin_lock::lock where no other thread comes to the lock: the value after it, as long as it returns
  -- within so many rounds of its loops.
  pub lock : (rounds : ℕ) → (value : ℕ) → Option ℕ
  lock zero value = none
  lock (suc k) value =
      let r = try_lock b value in
      let later = lock k value in
      let again = lock k (r.1) in
      if seems_locked b value then later else if r.0 then some (r.1) else again

  -- lock_guard of a spin_lock with the value `value`.
  pub lock_guard : (rounds : ℕ) → (value : ℕ) → Option ℕ
  lock_guard rounds value = lock rounds value

  pub end_lock_guard : (value : ℕ) → ℕ
  end_lock_guard value = unlock b value

  -- irq_save_lock_guard: the interrupt flag, the lock, and the member after the constructor.
  pub irq_save_lock_guard : (rounds : ℕ) → (irq : Bool) → (value : ℕ) → Option (Bool × ℕ × Bool)
  irq_save_lock_guard rounds irq value = do
    let (irq', was_enabled) = irq_save_disable irq
    value' ← lock rounds value
    some (irq', value', was_enabled)

  pub end_irq_save_lock_guard : (was_enabled : Bool) → (irq : Bool) → (value : ℕ) → Bool × ℕ
  end_irq_save_lock_guard was_enabled irq value =
      let value' = unlock b value in (irq_restore was_enabled irq, value')

lock_of_held : (b : Builtins) (k value : ℕ) → (value == k_free) ≡ false → lock b k value ≡ none
unfolding lock
lock_of_held b zero value held = refl
lock_of_held b (suc k) value held = elim (Bool-cases (value == k_locked)) [
  | inl e ↦ rw (seems_locked_lem b value, e) (lock_of_held b k value held)
  | inr e ↦
      rw (seems_locked_lem b value, e, try_lock_lem b value, held) (lock_of_held b k value held)
]

-- A lock that is not free is never got, since no one gives it back.
pub lock_lem :
    (b : Builtins) (k value : ℕ)
    → lock b (suc k) value ≡ (if value == k_free then some k_locked else none)
unfolding lock
lock_lem b k value = elim (Bool-cases (value == k_free)) [
  | inl e ↦
      let free : value ≡ k_free = ground arith in
      rw (free, seems_locked_lem b k_free, try_lock_lem b k_free) refl
  | inr e ↦ rw e (lock_of_held b (suc k) value e)
]

-- What the constructors and destructors do.
module _ (b : Builtins) where
  pub lock_guard_lem :
      (k value : ℕ) → lock_guard b (suc k) value ≡ (if value == k_free then some k_locked else none)
  unfolding lock_guard
  lock_guard_lem = lock_lem b

  pub end_lock_guard_lem : (value : ℕ) → end_lock_guard b value ≡ k_free
  unfolding end_lock_guard
  end_lock_guard_lem = unlock_lem b

  pub irq_save_lock_guard_lem :
      (k : ℕ) (irq : Bool) (value : ℕ)
      → irq_save_lock_guard b (suc k) irq value
        ≡ (if value == k_free then some (false, k_locked, irq) else none)
  unfolding irq_save_lock_guard irq_save_disable
  irq_save_lock_guard_lem k irq value = elim (Bool-cases (value == k_free)) [
    | inl e ↦ rw (lock_lem b k value, e) refl
    | inr e ↦ rw (lock_lem b k value, e) refl
  ]

  pub end_irq_save_lock_guard_lem :
      (was : Bool) (value : ℕ) → end_irq_save_lock_guard b was false value ≡ (was, k_free)
  unfolding end_irq_save_lock_guard irq_restore
  end_irq_save_lock_guard_lem true value = rw (unlock_lem b value) refl
  end_irq_save_lock_guard_lem false value = rw (unlock_lem b value) refl

pub irq_save_guard_lem : (irq : Bool) → irq_save_guard irq ≡ (false, irq)
unfolding irq_save_guard irq_save_disable
irq_save_guard_lem irq = refl

pub end_irq_save_guard_lem : (was : Bool) → end_irq_save_guard was false ≡ was
unfolding end_irq_save_guard irq_restore
end_irq_save_guard_lem true = refl
end_irq_save_guard_lem false = refl
