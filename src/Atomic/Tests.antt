-- ===== src/Atomic/Tests.antt =====
-- Two objects that share a value, and one that does not.
use osdev_libstdc.Atomic.{
  MemoryOrder, assign, compare_exchange_strong, compare_exchange_strong_orders,
  compare_exchange_weak, compare_exchange_weak_orders, convert, exchange, load, store,
}
use osdev_libstdc.Atomic.Objects.{
  AtomicObject, Operation, assign_op, atomic, atomic_ref, call_object, compared_answer, get_ptr,
  no_answer, number_answer, perform, run_calls, store_op, weak_op,
}
use osdev_libstdc.Atomic.Registers.{History, run_calls-History}
use osdev_libstdc.Atomic.Sample.{plain_builtins}
use osdev_libstdc.Base.{List, [], refl, true, ◌∷◌}

abbrev calls : List (AtomicObject × Operation)
calls =
    (atomic 3, store_op 7 MemoryOrder.release)
    ∷ (atomic 4, assign_op 1)
    ∷ (atomic_ref 3, weak_op 7 9 MemoryOrder.acq_rel)
    ∷ []

run_calls-History_example :
    History 3 0 calls (no_answer ∷ number_answer 1 ∷ compared_answer true 7 ∷ []) 9
unfolding run_calls call_object perform get_ptr load convert store assign exchange
    compare_exchange_strong compare_exchange_weak compare_exchange_strong_orders
    compare_exchange_weak_orders
run_calls-History_example = run_calls-History plain_builtins calls (λ q. 0) 3 (refl, (tt, (tt, tt)))
