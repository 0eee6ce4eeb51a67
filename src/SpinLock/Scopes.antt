-- ===== src/SpinLock/Scopes.antt =====
-- Scopes of the guards of include/dux/spin_lock.h, one within another, on one CPU.
use osdev_libstdc.Atomic.{Builtins}
use osdev_libstdc.Base.{
  Bool, Bool-cases, List, Option, [], ap, append_assoc, arith, false, if◌then◌else◌, inl, inr, none,
  refl, some, suc, true, update, ℕ, ◌&&◌, ◌++◌, ◌==◌, ◌>>=◌, ◌∷◌, ◌≡◌,
}
use osdev_libstdc.SpinLock.{k_free, k_locked}
use osdev_libstdc.SpinLock.Guards.{
  end_irq_save_guard, end_irq_save_guard_lem, end_irq_save_lock_guard, end_irq_save_lock_guard_lem,
  end_lock_guard, end_lock_guard_lem, irq_save_guard, irq_save_guard_lem, irq_save_lock_guard,
  irq_save_lock_guard_lem, lock_guard, lock_guard_lem,
}
use mathlib.Core.Path.{fun_ext}

-- Code with guards: each holds for the scope that follows. The locks have numbers.
pub data Scope : Type 0 where
  work : Scope  -- code that looks at the interrupt flag
  in_turn : Scope → Scope → Scope
  with_irq_save_guard : Scope → Scope
  with_lock_guard : (l : ℕ) → Scope → Scope
  with_irq_save_lock_guard : (l : ℕ) → Scope → Scope

-- The interrupt flag, the values of the locks, and the flags that the work has seen.
pub record Cpu : Type 0 where
  pub irq : Bool
  pub locks : ℕ → ℕ
  pub seen : List Bool

module _ (b : Builtins) (rounds : ℕ) where
  -- A guard's constructor at the beginning of its scope, and its destructor at the end.
  pub run_scope : Scope → Cpu → Option Cpu
  run_scope work c = some (record c { seen = c.seen ++ c.irq ∷ [] })
  run_scope (in_turn p q) c = do c' ← run_scope p c; run_scope q c'
  run_scope (with_irq_save_guard p) c = do
    let (irq, was) = irq_save_guard (c.irq)
    c' ← run_scope p (record c { irq = irq })
    some (record c' { irq = end_irq_save_guard was (c'.irq) })
  run_scope (with_lock_guard l p) c = do
    value ← lock_guard b rounds (c.locks l)
    c' ← run_scope p (record c { locks = update (c.locks) l value })
    some (record c' { locks = update (c'.locks) l (end_lock_guard b (c'.locks l)) })
  run_scope (with_irq_save_lock_guard l p) c = do
    (irq, value, was) ← irq_save_lock_guard b rounds (c.irq) (c.locks l)
    c' ← run_scope p (record c { irq = irq; locks = update (c.locks) l value })
    let (irq', value') = end_irq_save_lock_guard b was (c'.irq) (c'.locks l)
    some (record c' { irq = irq'; locks = update (c'.locks) l value' })

-- The flags that the work is to see: interrupts are disabled within every guard that saves the flag.
abbrev pub flags_within : (irq : Bool) → Scope → List Bool
flags_within irq work = irq ∷ []
flags_within irq (in_turn p q) = flags_within irq p ++ flags_within irq q
flags_within irq (with_irq_save_guard p) = flags_within false p
flags_within irq (with_lock_guard l p) = flags_within irq p
flags_within irq (with_irq_save_lock_guard l p) = flags_within false p

-- Every guard of a lock finds it free: no scope of a lock lies within another of the same lock.
abbrev pub can_enter : Scope → (locks : ℕ → ℕ) → Bool
can_enter work locks = true
can_enter (in_turn p q) locks = can_enter p locks && can_enter q locks
can_enter (with_irq_save_guard p) locks = can_enter p locks
can_enter (with_lock_guard l p) locks = locks l == k_free && can_enter p (update locks l k_locked)
can_enter (with_irq_save_lock_guard l p) locks =
    locks l == k_free && can_enter p (update locks l k_locked)

update-update_free :
    (locks : ℕ → ℕ) (l value : ℕ)
    → locks l ≡ k_free
    → update (update locks l value) l k_free ≡ locks
update-update_free locks l value e = fun_ext (λ i. ground (arith, e))

-- What a scope is to come to.
abbrev pub outcome : Scope → Cpu → Option Cpu
outcome p c =
    if can_enter p (c.locks)
    then some (record c { seen = c.seen ++ flags_within (c.irq) p })
    else none

module _ (b : Builtins) (k : ℕ) (c : Cpu) where
  abbrev Runs : Scope → Cpu → Type 0
  Runs p c' = run_scope b (suc k) p c' ≡ outcome p c'

  in_turn-Runs :
      (p q : Scope)
      → Runs p c
      → Runs q (record c { seen = c.seen ++ flags_within (c.irq) p })
      → Runs (in_turn p q) c
  unfolding run_scope
  in_turn-Runs p q first_runs then_runs = elim (Bool-cases (can_enter p (c.locks))) [
    | inl e ↦
        rw (first_runs, e, then_runs)
          (ap
            (λ (l : List Bool).
              if can_enter q (c.locks) then some (record c { seen = l }) else none)
            (append_assoc (c.seen) (flags_within (c.irq) p) (flags_within (c.irq) q)))
    | inr e ↦ rw (first_runs, e) refl
  ]

  irq_save_guard-Runs :
      (p : Scope) → Runs p (record c { irq = false }) → Runs (with_irq_save_guard p) c
  unfolding run_scope
  irq_save_guard-Runs p runs = elim (Bool-cases (can_enter p (c.locks))) [
    | inl e ↦ rw (irq_save_guard_lem (c.irq), runs, e, end_irq_save_guard_lem (c.irq)) refl
    | inr e ↦ rw (irq_save_guard_lem (c.irq), runs, e) refl
  ]

  module _ (l : ℕ) (p : Scope) where
    lock_guard-Runs :
        Runs p (record c { locks = update (c.locks) l k_locked }) → Runs (with_lock_guard l p) c
    unfolding run_scope
    lock_guard-Runs runs = elim (Bool-cases (c.locks l == k_free)) [
      | inl free ↦
          let back = update-update_free (c.locks) l k_locked (ground arith) in
          elim (Bool-cases (can_enter p (update (c.locks) l k_locked))) [
            | inl e ↦
                rw
                  (
                    lock_guard_lem b k (c.locks l),
                    free,
                    runs,
                    e,
                    end_lock_guard_lem b (update (c.locks) l k_locked l),
                    back,
                  )
                  refl
            | inr e ↦ rw (lock_guard_lem b k (c.locks l), free, runs, e) refl
          ]
      | inr held ↦ rw (lock_guard_lem b k (c.locks l), held) refl
    ]

    irq_save_lock_guard-Runs :
        Runs p (record c { irq = false; locks = update (c.locks) l k_locked })
        → Runs (with_irq_save_lock_guard l p) c
    unfolding run_scope
    irq_save_lock_guard-Runs runs = elim (Bool-cases (c.locks l == k_free)) [
      | inl free ↦
          let back = update-update_free (c.locks) l k_locked (ground arith) in
          elim (Bool-cases (can_enter p (update (c.locks) l k_locked))) [
            | inl e ↦
                rw
                  (
                    irq_save_lock_guard_lem b k (c.irq) (c.locks l),
                    free,
                    runs,
                    e,
                    end_irq_save_lock_guard_lem b (c.irq) (update (c.locks) l k_locked l),
                    back,
                  )
                  refl
            | inr e ↦ rw (irq_save_lock_guard_lem b k (c.irq) (c.locks l), free, runs, e) refl
          ]
      | inr held ↦ rw (irq_save_lock_guard_lem b k (c.irq) (c.locks l), held) refl
    ]

-- A nest of guards runs to its end exactly where no guard takes a lock that is held, within one round
-- of the loop of lock or never. At the end the interrupt flag and all locks are as they were before;
-- within, the interrupts are disabled wherever a guard that saves the flag is alive, and else as they
-- were at the start.
pub run_scope-outcome :
    (b : Builtins) (k : ℕ) (p : Scope) (c : Cpu) → run_scope b (suc k) p c ≡ outcome p c
unfolding run_scope
run_scope-outcome b k work c = refl
run_scope-outcome b k (in_turn p q) c =
    in_turn-Runs b k c p q (run_scope-outcome b k p c)
      (run_scope-outcome b k q (record c { seen = c.seen ++ flags_within (c.irq) p }))
run_scope-outcome b k (with_irq_save_guard p) c =
    irq_save_guard-Runs b k c p (run_scope-outcome b k p (record c { irq = false }))
run_scope-outcome b k (with_lock_guard l p) c =
    lock_guard-Runs b k c l p
      (run_scope-outcome b k p (record c { locks = update (c.locks) l k_locked }))
run_scope-outcome b k (with_irq_save_lock_guard l p) c =
    irq_save_lock_guard-Runs b k c l p
      (run_scope-outcome b k p (record c { irq = false; locks = update (c.locks) l k_locked }))
