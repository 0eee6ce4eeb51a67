-- ===== src/SpinLock/Tests.antt =====
-- Guards on a CPU with its interrupts enabled and all locks free.
use osdev_libstdc.Atomic.Sample.{plain_builtins}
use osdev_libstdc.Base.{[], false, none, some, true, ◌∷◌, ◌≡◌}
use osdev_libstdc.SpinLock.{k_free}
use osdev_libstdc.SpinLock.Scopes.{
  Cpu, Scope, in_turn, run_scope, run_scope-outcome, with_irq_save_guard, with_irq_save_lock_guard,
  with_lock_guard, work,
}

abbrev ready_cpu : Cpu
ready_cpu = record { irq = true; locks = λ _. k_free; seen = [] }

-- A second lock within the scope of a first, and work behind that scope.
abbrev two_locks : Scope
two_locks =
    in_turn
      (with_irq_save_lock_guard 0 (in_turn work (with_lock_guard 1 (with_irq_save_guard work))))
      work

run_scope-outcome_example :
    run_scope plain_builtins 1 two_locks ready_cpu
    ≡ some (record ready_cpu { seen = false ∷ false ∷ true ∷ [] })
run_scope-outcome_example = run_scope-outcome plain_builtins 0 two_locks ready_cpu

-- The same lock twice: lock spins for ever.
same_lock_twice :
    run_scope plain_builtins 5 (with_lock_guard 0 (with_irq_save_lock_guard 0 work)) ready_cpu
    ≡ none
same_lock_twice =
    run_scope-outcome plain_builtins 4 (with_lock_guard 0 (with_irq_save_lock_guard 0 work))
      ready_cpu
