-- ===== src/Malloc/System/Guarantees.antt =====
-- The lock and the guard in every state that the threads can reach.
use osdev_libstdc.Atomic.{Builtins}
use osdev_libstdc.Base.{Bool, Bool-cases, arith, false, inl, inr, refl, true, ℕ, ◌==◌, ◌≡◌, ◌⊎◌}
use osdev_libstdc.Malloc.{Allocator, Call, Reply}
use osdev_libstdc.Malloc.System.{
  Pc, Reach, System, idle, initially, later, locked, pick, served, serving, unlocked,
}
use osdev_libstdc.Malloc.System.Safety.{Answers, Inv, IrqKept, Move-Inv, holds_lock, replay}
use osdev_libstdc.SpinLock.{k_free, k_locked, try_lock}
use osdev_libstdc.SpinLock.Laws.{try_lock_lem}

module _ (a : Allocator) (b : Builtins) where
  pub Reach-Inv :
      {n : ℕ} {heap : a.State} {home : ℕ → Bool} {s : System a b}
      → Reach a b n heap home s
      → Inv a heap home s.mem s.irq s.pc
  Reach-Inv {heap = heap} initially = record {
    bit = omega arith;
    busy = λ i h. absurd (ground arith);
    owner = λ h. absurd (omega arith);
    unique = λ i j h k. absurd (ground arith);
    current = λ i. tt;
    kept = λ i. refl;
    replayed = refl;
    answered = λ i. tt;
  }
  Reach-Inv (later {s = s} r (pick i lt mv)) = Move-Inv a b (Reach-Inv r) i mv

  held_irq :
      (home irq : Bool) (p : Pc a) → holds_lock a p ≡ true → IrqKept a home irq p → irq ≡ false
  held_irq home irq (locked c was) h k = k.0
  held_irq home irq (serving c was seen) h k = k.0
  held_irq home irq (served c was r) h k = k.0
  held_irq home irq p h k = absurd (ground arith)

  -- However the threads interleave, two of them are never between the return of lock and the store of
  -- unlock together, and one that is there has the interrupts of its CPU disabled.
  pub mutual_exclusion :
      {n : ℕ} {heap : a.State} {home : ℕ → Bool} {s : System a b}
      → Reach a b n heap home s
      → (i j : ℕ) → holds_lock a (s.pc i) ≡ true
      → holds_lock a (s.pc j) ≡ true
      → (i ≡ j) × (s.irq i ≡ false)
  mutual_exclusion {s = s} r i j hi hj =
      let inv = Reach-Inv r in (inv.unique i j hi hj, held_irq _ _ (s.pc i) hi (inv.kept i))

  -- The allocator's state is always the one that the calls served so far give when they run one
  -- after another, each whole: no call works on a state that another changes meanwhile.
  pub served_in_sequence :
      {n : ℕ} {heap : a.State} {home : ℕ → Bool} {s : System a b}
      → Reach a b n heap home s
      → s.mem.heap ≡ replay a s.mem.log heap
  served_in_sequence r = (Reach-Inv r).replayed

  -- A thread that has returned finds the interrupts of its CPU as they were before its first call.
  pub irq_restored :
      {n : ℕ} {heap : a.State} {home : ℕ → Bool} {s : System a b}
      → Reach a b n heap home s
      → (i : ℕ) → s.pc i ≡ idle
      → s.irq i ≡ home i
  irq_restored {home = home} {s = s} r i e = rw e at (Inv.kept (Reach-Inv r) i)

  -- The lock is never lost: whatever its value is, either try_lock takes it at once, or some thread
  -- holds it and is on its way to unlock.
  no_deadlock :
      {n : ℕ} {heap : a.State} {home : ℕ → Bool} {s : System a b}
      → Reach a b n heap home s
      → (try_lock b s.mem.lock ≡ (true, k_locked)) ⊎ ((i : ℕ) × (holds_lock a (s.pc i) ≡ true))
  no_deadlock {s = s} r =
      let inv = Reach-Inv r in
      elim (Bool-cases (s.mem.lock == k_free)) [
        | inl free_now ↦ inl (ground (arith, try_lock_lem b s.mem.lock))
        | inr shut ↦ inr (inv.owner (ground (arith, inv.bit)))
      ]

  -- A thread that is about to return from a call has that call as the latest of its own in the log of
  -- the calls served, and returns the reply that this entry of the log gets when the calls of the log
  -- run one after another. Entries carry the number of their thread, so two threads never return the
  -- reply of the same entry.
  pub replies_in_sequence :
      {n : ℕ} {heap : a.State} {home : ℕ → Bool} {s : System a b}
      → Reach a b n heap home s
      → (i : ℕ) (c : Call) (was : Bool) (r : Reply) → s.pc i ≡ unlocked c was r
      → Answers a heap i s.mem.log c r
  replies_in_sequence r i c was reply e = rw e at (Inv.answered (Reach-Inv r) i)
