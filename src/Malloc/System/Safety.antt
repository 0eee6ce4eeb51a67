-- ===== src/Malloc/System/Safety.antt =====
-- An invariant of the threads' steps.
use osdev_libstdc.Atomic.{Builtins}
use osdev_libstdc.Base.{
  Bool, Bool-cases, List, [], ap, arith, false, inl, inr, refl, subst, true, update, ℕ, ◌++◌, ◌<◌,
  ◌==◌, ◌∙◌, ◌∷◌, ◌≡◌, ◌≢◌,
}
use osdev_libstdc.Malloc.{Allocator, Call, Reply, serve}
use osdev_libstdc.Malloc.System.{
  Move, Pc, Shared, attempting, call, entered, finish, idle, leave, locked, lose, served, serving,
  spinning, unlocked, win,
}
use osdev_libstdc.SpinLock.{irq_restore, irq_save_disable, try_lock}
use osdev_libstdc.SpinLock.Laws.{try_lock_lem, unlock_lem}

module _ (a : Allocator) where
  -- Between the return of lock and the store of unlock.
  abbrev pub holds_lock : Pc a → Bool
  holds_lock (locked c was) = true
  holds_lock (serving c was seen) = true
  holds_lock (served c was r) = true
  holds_lock p = false

  -- The allocator's function still works on the state that is there.
  abbrev pub IsCurrent : a.State → Pc a → Type 0
  IsCurrent heap (serving c was seen) = seen ≡ heap
  IsCurrent heap p = Unit

  outside-IsCurrent : (heap : a.State) (p : Pc a) → holds_lock p ≡ false → IsCurrent heap p
  outside-IsCurrent heap (serving c was seen) h = absurd (ground arith)
  outside-IsCurrent heap p h = tt

  -- The flag of a CPU whose thread came with the flag `home`.
  abbrev pub IrqKept : (home irq : Bool) → Pc a → Type 0
  IrqKept home irq idle = irq ≡ home
  IrqKept home irq (entered c) = irq ≡ home
  IrqKept home irq (spinning c was) = (irq ≡ false) × (was ≡ home)
  IrqKept home irq (attempting c was) = (irq ≡ false) × (was ≡ home)
  IrqKept home irq (locked c was) = (irq ≡ false) × (was ≡ home)
  IrqKept home irq (serving c was seen) = (irq ≡ false) × (was ≡ home)
  IrqKept home irq (served c was r) = (irq ≡ false) × (was ≡ home)
  IrqKept home irq (unlocked c was r) = (irq ≡ false) × (was ≡ home)

  -- The state after the calls of a log, one whole call after another.
  abbrev pub replay : List (ℕ × Call) → a.State → a.State
  replay [] heap = heap
  replay ((i, c) ∷ log) heap = (serve a c (replay log heap)).0

  -- None of the calls of the log is one of the thread `i`.
  abbrev pub IsWithout : (i : ℕ) → List (ℕ × Call) → Type 0
  IsWithout i [] = Unit
  IsWithout i ((j, c) ∷ log) = (j ≢ i) × IsWithout i log

  -- The latest call of the thread `i` in the log is `c`, and `r` is the reply to this very entry, when
  -- the calls of the log run one after another.
  abbrev pub Answers : (heap : a.State) → (i : ℕ) → List (ℕ × Call) → Call → Reply → Type 0
  Answers heap i log c r =
      (newer : List (ℕ × Call)) × (older : List (ℕ × Call)) × (log ≡ newer ++ (i, c) ∷ older)
      × IsWithout i newer
      × (r ≡ (serve a c (replay older heap)).1)

  abbrev pub IsAnswered : (heap : a.State) → (i : ℕ) → List (ℕ × Call) → Pc a → Type 0
  IsAnswered heap i log (served c was r) = Answers heap i log c r
  IsAnswered heap i log (unlocked c was r) = Answers heap i log c r
  IsAnswered heap i log p = Unit

  IsAnswered-cons :
      (heap : a.State) (log : List (ℕ × Call)) (j i : ℕ) (c : Call) (p : Pc a)
      → j ≢ i
      → IsAnswered heap i log p
      → IsAnswered heap i ((j, c) ∷ log) p
  IsAnswered-cons heap log j i c (served d was r) apart (newer, older, e, none_newer, k) =
      ((j, c) ∷ newer, older, ap (λ l. (j, c) ∷ l) e, (apart, none_newer), k)
  IsAnswered-cons heap log j i c (unlocked d was r) apart (newer, older, e, none_newer, k) =
      ((j, c) ∷ newer, older, ap (λ l. (j, c) ∷ l) e, (apart, none_newer), k)
  IsAnswered-cons heap log j i c p apart h = tt

  IsAnswered-update :
      (heap : a.State) (log : List (ℕ × Call)) (pc : ℕ → Pc a) (i j : ℕ) (p : Pc a)
      → IsAnswered heap i log p
      → (i ≢ j → IsAnswered heap j log (pc j))
      → IsAnswered heap j log (update pc i p j)
  IsAnswered-update heap log pc i j p mine other = elim (Bool-cases (i == j)) [
    | inl here ↦
        let same : i ≡ j = ground (arith, here) in
        rw here (subst (λ x. IsAnswered heap x log p) same mine)
    | inr elsewhere ↦ rw elsewhere (other (ground (arith, elsewhere)))
  ]

  pub record Inv (heap : a.State) (home : ℕ → Bool) (m : Shared a) (irq : ℕ → Bool) (pc : ℕ → Pc a)
      : Type 0 where
    pub bit : m.lock < 2
    pub busy : (i : ℕ) → holds_lock (pc i) ≡ true → m.lock ≡ 1
    pub owner : m.lock ≡ 1 → (i : ℕ) × (holds_lock (pc i) ≡ true)
    pub unique : (i j : ℕ) → holds_lock (pc i) ≡ true → holds_lock (pc j) ≡ true → i ≡ j
    pub current : (i : ℕ) → IsCurrent m.heap (pc i)
    pub kept : (i : ℕ) → IrqKept (home i) (irq i) (pc i)
    pub replayed : m.heap ≡ replay m.log heap
    pub answered : (i : ℕ) → IsAnswered heap i m.log (pc i)

  module _ (b : Builtins) {heap : a.State} {home : ℕ → Bool} {m : Shared a} {irq : ℕ → Bool}
      {pc : ℕ → Pc a} (inv : Inv heap home m irq pc) (i : ℕ) where
    -- What the attempt to take the lock said, for the clauses that cover several moves.
    abbrev Outcome :
        {p p' : Pc a} {m' : Shared a} {q : Bool} → Move a b i m (irq i) p m' q p' → Type 0
    Outcome (win {c} {was} e) = (try_lock b m.lock).0 ≡ true
    Outcome (lose {c} {was} e) = (try_lock b m.lock).0 ≡ false
    Outcome mv = Unit

    said :
        {p p' : Pc a} {m' : Shared a} {q : Bool} (mv : Move a b i m (irq i) p m' q p') → Outcome mv
    said (win e) = e
    said (lose e) = e
    said mv = tt

    Move-bit :
        {p p' : Pc a} {m' : Shared a} {q : Bool} → Move a b i m (irq i) p m' q p' → m'.lock < 2
    Move-bit (call c) = inv.bit
    Move-bit mv = ground (arith, inv.bit, try_lock_lem b m.lock, unlock_lem b m.lock)

    Move-busy :
        {p p' : Pc a} {m' : Shared a} {q : Bool}
        → Move a b i m (irq i) p m' q p'
        → pc i ≡ p
        → (j : ℕ) → holds_lock (update pc i p' j) ≡ true
        → m'.lock ≡ 1
    Move-busy (call c) e j h = ground (arith, inv.busy j)
    Move-busy mv e j h =
        ground (arith, said mv, inv.busy j, inv.busy i, inv.unique i j, try_lock_lem b m.lock)

    Move-unique :
        {p p' : Pc a} {m' : Shared a} {q : Bool}
        → Move a b i m (irq i) p m' q p'
        → pc i ≡ p
        → (j k : ℕ) → holds_lock (update pc i p' j) ≡ true
        → holds_lock (update pc i p' k) ≡ true
        → j ≡ k
    Move-unique (call c) e j k h g = ground (arith, inv.unique j k)
    Move-unique mv e j k h g = ground (
      arith,
      said mv,
      inv.unique j k,
      inv.unique i k,
      inv.unique i j,
      inv.busy j,
      inv.busy k,
      try_lock_lem b m.lock,
    )

    Move-owner :
        {p p' : Pc a} {m' : Shared a} {q : Bool}
        → Move a b i m (irq i) p m' q p'
        → pc i ≡ p
        → m'.lock ≡ 1
        → (j : ℕ) × (holds_lock (update pc i p' j) ≡ true)
    Move-owner (win g) e h = (i, ground arith)
    Move-owner leave e h = absurd (ground (arith, unlock_lem b m.lock))
    Move-owner (lose g) e h =
        let (j, k) = inv.owner (ground (arith, g, try_lock_lem b m.lock)) in (j, ground arith)
    Move-owner mv e h = let (j, k) = inv.owner h in (j, ground arith)

    Move-IsCurrent :
        {p p' : Pc a} {m' : Shared a} {q : Bool}
        → Move a b i m (irq i) p m' q p'
        → pc i ≡ p
        → (j : ℕ) → IsCurrent m'.heap (update pc i p' j)
    Move-IsCurrent (call c) e j = ground (arith, inv.current j)
    Move-IsCurrent (finish {c} {was} {seen}) e j = elim (Bool-cases (i == j)) [
      | inl here ↦ rw here tt
      | inr other ↦
          rw other (outside-IsCurrent (serve a c seen).0 (pc j) (ground (arith, inv.unique i j)))
    ]
    Move-IsCurrent mv e j = ground (arith, inv.current j)

    Move-kept :
        {p p' : Pc a} {m' : Shared a} {q : Bool}
        → Move a b i m (irq i) p m' q p'
        → pc i ≡ p
        → (j : ℕ) → IrqKept (home j) (update irq i q j) (update pc i p' j)
    unfolding irq_save_disable irq_restore
    Move-kept (call c) e j = ground (arith, inv.kept j, inv.kept i)
    Move-kept mv e j = ground (arith, inv.kept j, inv.kept i)

    Move-replayed :
        {p p' : Pc a} {m' : Shared a} {q : Bool}
        → Move a b i m (irq i) p m' q p'
        → pc i ≡ p
        → m'.heap ≡ replay m'.log heap
    Move-replayed (call c) e = inv.replayed
    Move-replayed mv e = ground (arith, inv.replayed, inv.current i)

    Move-IsAnswered :
        {p p' : Pc a} {m' : Shared a} {q : Bool}
        → Move a b i m (irq i) p m' q p'
        → pc i ≡ p
        → (j : ℕ) → IsAnswered heap j m'.log (update pc i p' j)
    Move-IsAnswered (finish {c} {was} {seen}) e j =
        let now : seen ≡ m.heap = rw e at (inv.current i) in
        IsAnswered-update heap ((i, c) ∷ m.log) pc i j (served c was (serve a c seen).1)
          ([], m.log, refl, tt, ap (λ h. (serve a c h).1) (now ∙ inv.replayed))
          (λ apart. IsAnswered-cons heap m.log i j c (pc j) apart (inv.answered j))
    Move-IsAnswered (leave {c} {was} {r}) e j =
        IsAnswered-update heap m.log pc i j (unlocked c was r) (rw e at (inv.answered i))
          (λ apart. inv.answered j)
    Move-IsAnswered {p' = p'} (call c) e j =
        IsAnswered-update heap m.log pc i j p' tt (λ apart. inv.answered j)
    Move-IsAnswered {p' = p'} mv e j =
        IsAnswered-update heap m.log pc i j p' tt (λ apart. inv.answered j)

    pub Move-Inv :
        {p' : Pc a} {m' : Shared a} {q : Bool}
        → Move a b i m (irq i) (pc i) m' q p'
        → Inv heap home m' (update irq i q) (update pc i p')
    Move-Inv mv = record {
      bit = Move-bit mv;
      busy = Move-busy mv refl;
      owner = Move-owner mv refl;
      unique = Move-unique mv refl;
      current = Move-IsCurrent mv refl;
      kept = Move-kept mv refl;
      replayed = Move-replayed mv refl;
      answered = Move-IsAnswered mv refl;
    }
