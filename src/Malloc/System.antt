-- ===== src/Malloc/System.antt =====
-- Threads, each on a CPU of its own, that call the entry points in any interleaving: the steps of
-- `irq_save_lock_guard` and `spin_lock` of include/dux/spin_lock.h around the call of the allocator.
-- The accesses to the lock are single steps, in one order for all threads; the allocator's function
-- is not one step: it reads the state at its beginning and leaves another at its end.
pub mod Safety
pub mod Guarantees
pub mod Progress
mod Tests
use osdev_libstdc.Atomic.{Builtins}
use osdev_libstdc.Base.{Bool, List, [], false, true, update, ℕ, ◌<◌, ◌∷◌, ◌≡◌}
use osdev_libstdc.Malloc.{Allocator, Call, Reply, serve}
use osdev_libstdc.Printf.Loop.{State}
use osdev_libstdc.SpinLock.{irq_restore, irq_save_disable, k_free, seems_locked, try_lock, unlock}
use osdev_libstdc.SpinLock.Guards.{lock}

module _ (a : Allocator) where
  -- Where a thread stands. `was` is the guard's `_M_was_enabled`.
  pub data Pc : Type 0 where
    idle : Pc
    entered : Call → Pc  -- before irq_save_disable
    spinning : Call → (was : Bool) → Pc  -- at the inner loop of lock
    attempting : Call → (was : Bool) → Pc  -- before the compare-exchange
    locked : Call → (was : Bool) → Pc  -- lock has returned
    serving : Call → (was : Bool) → (seen : a.State) → Pc  -- inside the allocator's function
    served : Call → (was : Bool) → Reply → Pc  -- before unlock
    unlocked : Call → (was : Bool) → Reply → Pc  -- before irq_restore

  -- The lock, the allocator's state, and the calls that it has served, each with the number of its
  -- thread, the latest first.
  pub record Shared : Type 0 where
    pub lock : ℕ
    pub heap : a.State
    pub log : List (ℕ × Call)

  module _ (b : Builtins) where
    -- One step of the thread `i`, with the interrupt flag of its CPU.
    pub data Move (i : ℕ) (m : Shared) (irq : Bool) : Pc → Shared → Bool → Pc → Type 0 where
      call : (c : Call) → Move i m irq idle m irq (entered c)
      save :
          {c : Call}
          → Move i m irq
              (entered c)
              m
              (irq_save_disable irq).0
              (spinning c (irq_save_disable irq).1)
      wait :
          {c : Call} {was : Bool}
          → seems_locked b m.lock ≡ true
          → Move i m irq (spinning c was) m irq (spinning c was)
      see_free :
          {c : Call} {was : Bool}
          → seems_locked b m.lock ≡ false
          → Move i m irq (spinning c was) m irq (attempting c was)
      win :
          {c : Call} {was : Bool}
          → (try_lock b m.lock).0 ≡ true
          → Move i m irq
              (attempting c was)
              (record m { lock = (try_lock b m.lock).1 })
              irq
              (locked c was)
      lose :
          {c : Call} {was : Bool}
          → (try_lock b m.lock).0 ≡ false
          → Move i m irq
              (attempting c was)
              (record m { lock = (try_lock b m.lock).1 })
              irq
              (spinning c was)
      begin : {c : Call} {was : Bool} → Move i m irq (locked c was) m irq (serving c was m.heap)
      finish :
          {c : Call} {was : Bool} {seen : a.State}
          → Move i m irq
              (serving c was seen)
              (record m { heap = (serve a c seen).0; log = (i, c) ∷ m.log })
              irq
              (served c was (serve a c seen).1)
      leave :
          {c : Call} {was : Bool} {r : Reply}
          → Move i m irq
              (served c was r)
              (record m { lock = unlock b m.lock })
              irq
              (unlocked c was r)
      restore :
          {c : Call} {was : Bool} {r : Reply}
          → Move i m irq (unlocked c was r) m (irq_restore was irq) idle

    pub record System : Type 0 where
      pub mem : Shared
      pub irq : ℕ → Bool
      pub pc : ℕ → Pc

    pub data Step (n : ℕ) (s : System) : System → Type 0 where
      pick :
          (i : ℕ) {m : Shared} {q : Bool} {p : Pc}
          → i < n
          → Move i s.mem (s.irq i) (s.pc i) m q p
          → Step n s (record { mem = m; irq = update s.irq i q; pc = update s.pc i p })

    -- The lock free, as it is initialised, and every thread outside.
    abbrev pub init : a.State → (ℕ → Bool) → System
    init heap irq = record {
      mem = record { lock = k_free; heap = heap; log = [] };
      irq = irq;
      pc = λ _. idle;
    }

    pub data Reach (n : ℕ) (heap : a.State) (irq : ℕ → Bool) : System → Type 0 where
      initially : Reach n heap irq (init heap irq)
      later : {s t : System} → Reach n heap irq s → Step n s t → Reach n heap irq t
