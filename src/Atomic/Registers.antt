-- ===== src/Atomic/Registers.antt =====
-- Every value is a register to the objects that lead to it.
use osdev_libstdc.Atomic.{
  Builtins, MemoryOrder, assign, can_fail, can_load, can_store, cas_failure_order,
  compare_exchange_strong, compare_exchange_strong_orders, compare_exchange_weak,
  compare_exchange_weak_orders, convert, exchange, load, store,
}
use osdev_libstdc.Atomic.Objects.{
  Answer, AtomicObject, Cells, Operation, assign_op, atomic, atomic_ref, call_object,
  compared_answer, convert_op, exchange_op, get_ptr, load_op, no_answer, number_answer, of_exchange,
  perform, run_calls, store_op, strong_op, strong_orders_op, weak_op, weak_orders_op,
}
use osdev_libstdc.Atomic.Orders.{can_fail-cas_failure_order}
use osdev_libstdc.Base.{
  Bool-cases, List, [], ap, arith, false, if◌then◌else◌, inl, inr, refl, subst, true, update, ℕ,
  ◌==◌, ◌∙◌, ◌∷◌, ◌≡◌, ◌≢◌, ◌⊎◌,
}

-- A compare-exchange that does not fail by chance.
abbrev pub compared_as : (value expected desired : ℕ) → Answer × ℕ
compared_as value expected desired =
    if value == expected
    then (compared_answer true expected, desired)
    else (compared_answer false value, value)

-- The object's value is at `p`: an atomic holds it there, or an atomic_ref refers to it.
abbrev pub IsAt : (p : ℕ) → AtomicObject → Type 0
IsAt p (atomic value_at) = value_at ≡ p
IsAt p (atomic_ref refers_to) = refers_to ≡ p

abbrev pub IsElsewhere : (p : ℕ) → AtomicObject → Type 0
IsElsewhere p (atomic value_at) = value_at ≢ p
IsElsewhere p (atomic_ref refers_to) = refers_to ≢ p

get_ptr-IsAt : (p : ℕ) (x : AtomicObject) → get_ptr x ≡ p → IsAt p x
unfolding get_ptr
get_ptr-IsAt p (atomic value_at) e = e
get_ptr-IsAt p (atomic_ref refers_to) e = e

get_ptr-IsElsewhere : (p : ℕ) (x : AtomicObject) → get_ptr x ≢ p → IsElsewhere p x
unfolding get_ptr
get_ptr-IsElsewhere p (atomic value_at) e = e
get_ptr-IsElsewhere p (atomic_ref refers_to) e = e

-- The orders that a caller names are ones that the builtins allow.
abbrev pub IsOrdered : Operation → Type 0
IsOrdered (load_op order) = can_load order ≡ true
IsOrdered (store_op desired order) = can_store order ≡ true
IsOrdered (strong_orders_op expected desired on_success on_failure) =
    can_fail on_success on_failure ≡ true
IsOrdered (weak_orders_op expected desired on_success on_failure) =
    can_fail on_success on_failure ≡ true
IsOrdered op = Unit

abbrev pub AreOrdered : List (AtomicObject × Operation) → Type 0
AreOrdered [] = Unit
AreOrdered ((x, op) ∷ calls) = IsOrdered op × AreOrdered calls

-- What an operation on a register of this value may answer and leave: a weak compare-exchange may fail
-- by chance, and leaves the value as it is then. Memory orders do not matter.
abbrev pub Allowed : Operation → (value : ℕ) → Answer × ℕ → Type 0
Allowed (load_op order) value r = r ≡ (number_answer value, value)
Allowed convert_op value r = r ≡ (number_answer value, value)
Allowed (store_op desired order) value r = r ≡ (no_answer, desired)
Allowed (assign_op desired) value r = r ≡ (number_answer desired, desired)
Allowed (exchange_op desired order) value r = r ≡ (number_answer value, desired)
Allowed (strong_op expected desired order) value r = r ≡ compared_as value expected desired
Allowed (weak_op expected desired order) value r =
    (r ≡ compared_as value expected desired) ⊎ (r ≡ (compared_answer false value, value))
Allowed (strong_orders_op expected desired on_success on_failure) value r =
    r ≡ compared_as value expected desired
Allowed (weak_orders_op expected desired on_success on_failure) value r =
    (r ≡ compared_as value expected desired) ⊎ (r ≡ (compared_answer false value, value))

-- The history of the register at `p`: of these calls, those of objects whose value is at `p` make it of the
-- value `v` the value `v'`, with these answers, and the others leave it alone.
pub data History (p : ℕ)
    : (v : ℕ) → List (AtomicObject × Operation) → List Answer → (v' : ℕ) → Type 0 where
  ended : {v : ℕ} → History p v [] [] v
  acting :
      {v v1 v' : ℕ} {x : AtomicObject} {op : Operation} {answer : Answer}
      {calls : List (AtomicObject × Operation)} {answers : List Answer}
      → IsAt p x
      → Allowed op v (answer, v1)
      → History p v1 calls answers v'
      → History p v ((x, op) ∷ calls) (answer ∷ answers) v'
  passing :
      {v v' : ℕ} {x : AtomicObject} {op : Operation} {answer : Answer}
      {calls : List (AtomicObject × Operation)} {answers : List Answer}
      → IsElsewhere p x
      → History p v calls answers v'
      → History p v ((x, op) ∷ calls) (answer ∷ answers) v'

module _ (b : Builtins) where
  strong_as :
      (value e d : ℕ) (s f : MemoryOrder)
      → can_fail s f ≡ true
      → of_exchange (b.compare_exchange value e d false s f) ≡ compared_as value e d
  strong_as value e d s f ok = elim (Bool-cases (value == e)) [
    | inl same ↦ rw (b.strong_compares value e d s f ok, same) refl
    | inr differ ↦ rw (b.strong_compares value e d s f ok, differ) refl
  ]

  weak_as :
      (value e d : ℕ) (s f : MemoryOrder)
      → can_fail s f ≡ true
      → (of_exchange (b.compare_exchange value e d true s f) ≡ compared_as value e d)
        ⊎ (of_exchange (b.compare_exchange value e d true s f)
            ≡ (compared_answer false value, value))
  weak_as value e d s f ok = elim (b.weak_compares value e d s f ok) [
    | inl same ↦ inl (ap of_exchange same ∙ strong_as value e d s f ok)
    | inr chance ↦ inr (ap of_exchange chance)
  ]

  perform-Allowed :
      (op : Operation) (value : ℕ) → IsOrdered op → Allowed op value (perform b op value)
  unfolding perform load convert store assign exchange compare_exchange_strong compare_exchange_weak
      compare_exchange_strong_orders compare_exchange_weak_orders
  perform-Allowed (load_op order) value ok =
      ap (λ (v : ℕ). (number_answer v, value)) (b.load_reads value order ok)
  perform-Allowed convert_op value ok =
      ap (λ (v : ℕ). (number_answer v, value)) (b.load_reads value MemoryOrder.seq_cst refl)
  perform-Allowed (store_op desired order) value ok =
      ap (λ (v : ℕ). (no_answer, v)) (b.store_writes value desired order ok)
  perform-Allowed (assign_op desired) value ok =
      ap (λ (v : ℕ). (number_answer desired, v))
        (b.store_writes value desired MemoryOrder.seq_cst refl)
  perform-Allowed (exchange_op desired order) value ok =
      ap (λ (r : ℕ × ℕ). (number_answer (r.1), r.0)) (b.exchange_swaps value desired order)
  perform-Allowed (strong_op expected desired order) value ok =
      strong_as value expected desired order (cas_failure_order order)
        (can_fail-cas_failure_order order)
  perform-Allowed (weak_op expected desired order) value ok =
      weak_as value expected desired order (cas_failure_order order)
        (can_fail-cas_failure_order order)
  perform-Allowed (strong_orders_op expected desired on_success on_failure) value ok =
      strong_as value expected desired on_success on_failure ok
  perform-Allowed (weak_orders_op expected desired on_success on_failure) value ok =
      weak_as value expected desired on_success on_failure ok

  -- Whatever atomic and atomic_ref objects operations are called on, and whichever of them share a
  -- value, each value goes through a history of its own: an operation of an object that has its value
  -- there does what a register allows, and the other operations do not change it. Where a caller names
  -- memory orders they are ones that GCC allows for the operation; of the order for
  -- failure that the code itself derives nothing is assumed.
  pub run_calls-History :
      (calls : List (AtomicObject × Operation)) (cells : Cells) (p : ℕ)
      → AreOrdered calls
      → History p (cells p) calls ((run_calls b calls cells).0) ((run_calls b calls cells).1 p)
  unfolding run_calls call_object
  run_calls-History [] cells p ok = ended
  run_calls-History ((x, op) ∷ calls) cells p ok =
      let r = perform b op (cells (get_ptr x)) in
      let rest = run_calls-History calls (update cells (get_ptr x) (r.1)) p ok.1 in
      elim (Bool-cases (get_ptr x == p)) [
        | inl same ↦
            let e : get_ptr x ≡ p = ground (arith, same) in
            acting {v1 = r.1} (get_ptr-IsAt p x e)
              (subst (λ v. Allowed op v r) (ap cells e)
                (perform-Allowed op (cells (get_ptr x)) ok.0))
              (rw same at rest)
        | inr differ ↦
            let e : get_ptr x ≢ p = ground (arith, differ) in
            passing (get_ptr-IsElsewhere p x e) (rw differ at rest)
      ]
