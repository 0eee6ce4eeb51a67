-- ===== src/Atomic/Objects.antt =====
-- include/atomic.h: std::atomic, which holds its value, and std::atomic_ref, which holds a reference to
-- one. Objects may share a value.
use osdev_libstdc.Atomic.{
  Builtins, Exchange, MemoryOrder, assign, compare_exchange_strong, compare_exchange_strong_orders,
  compare_exchange_weak, compare_exchange_weak_orders, convert, exchange, load, store,
}
use osdev_libstdc.Base.{Bool, List, [], update, ℕ, ◌∷◌}

-- The values that atomic objects work on, by their addresses.
abbrev pub Cells : Type 0
Cells = ℕ → ℕ

-- An atomic with its value at an address, and an atomic_ref to the value at an address: the member
-- _M_value of _AtomicValHolder.
pub data AtomicObject : Type 0 where
  atomic : (value_at : ℕ) → AtomicObject
  atomic_ref : (refers_to : ℕ) → AtomicObject

-- _M_get_ptr
unfoldable pub get_ptr : AtomicObject → ℕ
get_ptr (atomic value_at) = value_at
get_ptr (atomic_ref refers_to) = refers_to

-- The operations, with their arguments.
pub data Operation : Type 0 where
  load_op : MemoryOrder → Operation
  convert_op : Operation
  store_op : (desired : ℕ) → MemoryOrder → Operation
  assign_op : (desired : ℕ) → Operation
  exchange_op : (desired : ℕ) → MemoryOrder → Operation
  strong_op : (expected desired : ℕ) → MemoryOrder → Operation
  weak_op : (expected desired : ℕ) → MemoryOrder → Operation
  strong_orders_op : (expected desired : ℕ) → (on_success on_failure : MemoryOrder) → Operation
  weak_orders_op : (expected desired : ℕ) → (on_success on_failure : MemoryOrder) → Operation

-- What an operation returns; a compare-exchange also sets `expected`.
pub data Answer : Type 0 where
  no_answer : Answer
  number_answer : ℕ → Answer
  compared_answer : (success : Bool) → (expected : ℕ) → Answer

abbrev pub of_exchange : Exchange → Answer × ℕ
of_exchange r = (compared_answer (r.success) (r.expected), r.value)

module _ (b : Builtins) where
  -- An operation on a value: its answer, and the value after it.
  unfoldable pub perform : Operation → ℕ → Answer × ℕ
  unfolding load convert store assign exchange compare_exchange_strong compare_exchange_weak
      compare_exchange_strong_orders compare_exchange_weak_orders
  perform (load_op order) value = (number_answer (load b value order), value)
  perform convert_op value = (number_answer (convert b value), value)
  perform (store_op desired order) value = (no_answer, store b value desired order)
  perform (assign_op desired) value =
      let (value', returned) = assign b value desired in (number_answer returned, value')
  perform (exchange_op desired order) value =
      let (value', old) = exchange b value desired order in (number_answer old, value')
  perform (strong_op expected desired order) value =
      of_exchange (compare_exchange_strong b value expected desired order)
  perform (weak_op expected desired order) value =
      of_exchange (compare_exchange_weak b value expected desired order)
  perform (strong_orders_op expected desired on_success on_failure) value =
      of_exchange (compare_exchange_strong_orders b value expected desired on_success on_failure)
  perform (weak_orders_op expected desired on_success on_failure) value =
      of_exchange (compare_exchange_weak_orders b value expected desired on_success on_failure)

  -- An operation of an object works on the value that the object's pointer leads to.
  unfoldable pub call_object : AtomicObject → Operation → Cells → Answer × Cells
  unfolding perform get_ptr
  call_object x op cells =
      let (answer, value) = perform op (cells (get_ptr x)) in
      (answer, update cells (get_ptr x) value)

  -- Operations in the order in which they take effect.
  unfoldable pub run_calls : List (AtomicObject × Operation) → Cells → List Answer × Cells
  unfolding call_object
  run_calls [] cells = ([], cells)
  run_calls ((x, op) ∷ calls) cells =
      let (answer, cells') = call_object x op cells in
      let (answers, cells'') = run_calls calls cells' in (answer ∷ answers, cells'')
