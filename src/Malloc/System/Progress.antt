-- ===== src/Malloc/System/Progress.antt =====
-- From every state that the threads can reach, each of them can get back from its call.
use osdev_libstdc.Atomic.{Builtins}
use osdev_libstdc.Base.{
  Bool, Bool-cases, ap, arith, false, inl, inr, ltb, refl, subst, sym, true, update, update_other,
  update_self, ℕ, ◌<◌, ◌==◌, ◌∙◌, ◌∷◌, ◌≡◌, ◌≢◌, ◌≤◌,
}
use osdev_libstdc.Ctype.Laws.{holds}
use osdev_libstdc.Malloc.{Allocator, Call, Reply, serve}
use osdev_libstdc.Malloc.System.{
  Move, Pc, Reach, Shared, Step, System, attempting, begin, entered, finish, idle, initially, later,
  leave, locked, pick, restore, save, see_free, served, serving, spinning, unlocked, win,
}
use osdev_libstdc.Malloc.System.Guarantees.{Reach-Inv}
use osdev_libstdc.Malloc.System.Safety.{holds_lock}
use osdev_libstdc.Printf.Loop.Pieces.{first}
use osdev_libstdc.SpinLock.{irq_restore, irq_save_disable, k_free, try_lock, unlock}
use osdev_libstdc.SpinLock.Laws.{seems_locked_lem, try_lock_lem, unlock_lem}

module _ (a : Allocator) (b : Builtins) where
  -- `t` follows from `s` in any number of steps.
  pub data Steps (n : ℕ) (s : System a b) : System a b → Type 0 where
    stay : Steps n s s
    further : {t u : System a b} → Steps n s t → Step a b n t u → Steps n s u

  Steps-trans : {n : ℕ} {s t u : System a b} → Steps n s t → Steps n t u → Steps n s u
  Steps-trans first stay = first
  Steps-trans first (further more last) = further (Steps-trans first more) last

  -- Threads that there are not stay outside.
  Reach-idle :
      {n : ℕ} {heap : a.State} {home : ℕ → Bool} {s : System a b}
      → Reach a b n heap home s
      → (j : ℕ) → n ≤ j
      → s.pc j ≡ idle
  Reach-idle initially j le = refl
  Reach-idle (later {s = s} r (pick i {p = p} lt mv)) j le =
      update_other s.pc i j p (omega arith) ∙ Reach-idle r j le

  module _ (n : ℕ) (i : ℕ) (here : i < n) where
    -- Some steps of thread `i` take it out of its call, and no other thread moves meanwhile; the lock
    -- is free then, if `cond` holds.
    record Returned (s : System a b) (cond : Type 0) : Type 1 where
      last : System a b
      steps : Steps n s last
      outside : last.pc i ≡ idle
      unlocked_then : cond → last.mem.lock ≡ k_free
      others : (j : ℕ) → i ≢ j → last.pc j ≡ s.pc j

    -- One step of thread `i`, and what follows it.
    step_first :
        (s : System a b) (p p' : Pc a) (m' : Shared a) (q : Bool) (cond : Type 0)
        → s.pc i ≡ p
        → Move a b i s.mem (s.irq i) p m' q p'
        → ((t : System a b) → t.pc i ≡ p' → t.mem ≡ m' → Returned t cond)
        → Returned s cond
    step_first s p p' m' q cond e mv rest =
        let t : System a b = record { mem = m'; irq = update s.irq i q; pc = update s.pc i p' } in
        let r = rest t (update_self s.pc i p') refl in
        record {
          last = r.last;
          steps =
              Steps-trans
                (further stay
                  (pick i here (subst (λ x. Move a b i s.mem (s.irq i) x m' q p') (sym e) mv)))
                r.steps;
          outside = r.outside;
          unlocked_then = r.unlocked_then;
          others = λ j apart. r.others j apart ∙ update_other s.pc i j p' apart;
        }

    from_unlocked :
        (s : System a b) (c : Call) (was : Bool) (r : Reply)
        → s.pc i ≡ unlocked c was r
        → Returned s (s.mem.lock ≡ k_free)
    from_unlocked s c was r e =
        step_first s (unlocked c was r) idle s.mem (irq_restore was (s.irq i)) (s.mem.lock ≡ k_free)
          e restore
          (λ t out same. record {
            last = t;
            steps = stay;
            outside = out;
            unlocked_then = λ opened. ap (λ (m : Shared a). m.lock) same ∙ opened;
            others = λ j apart. refl;
          })

    from_served :
        (s : System a b) (c : Call) (was : Bool) (r : Reply)
        → s.pc i ≡ served c was r
        → Returned s Unit
    from_served s c was r e =
        step_first s (served c was r) (unlocked c was r)
          (record s.mem { lock = unlock b s.mem.lock }) (s.irq i) Unit e leave
          (λ t out same.
            let f = from_unlocked t c was r out in
            record {
              last = f.last;
              steps = f.steps;
              outside = f.outside;
              unlocked_then = λ u.
                  f.unlocked_then (ap (λ (m : Shared a). m.lock) same ∙ unlock_lem b s.mem.lock);
              others = f.others;
            })

    from_serving :
        (s : System a b) (c : Call) (was : Bool) (seen : a.State)
        → s.pc i ≡ serving c was seen
        → Returned s Unit
    from_serving s c was seen e =
        step_first s (serving c was seen) (served c was (serve a c seen).1)
          (record s.mem { heap = (serve a c seen).0; log = (i, c) ∷ s.mem.log }) (s.irq i) Unit e
          finish (λ t out same. from_served t c was (serve a c seen).1 out)

    from_locked : (s : System a b) (c : Call) (was : Bool) → s.pc i ≡ locked c was → Returned s Unit
    from_locked s c was e =
        step_first s (locked c was) (serving c was s.mem.heap) s.mem (s.irq i) Unit e begin
          (λ t out same. from_serving t c was s.mem.heap out)

    from_attempting :
        (s : System a b) (c : Call) (was : Bool)
        → s.mem.lock ≡ k_free
        → s.pc i ≡ attempting c was
        → Returned s Unit
    from_attempting s c was opened e =
        step_first s (attempting c was) (locked c was)
          (record s.mem { lock = (try_lock b s.mem.lock).1 }) (s.irq i) Unit e
          (win (ground (arith, try_lock_lem b s.mem.lock, opened)))
          (λ t out same. from_locked t c was out)

    from_spinning :
        (s : System a b) (c : Call) (was : Bool)
        → s.mem.lock ≡ k_free
        → s.pc i ≡ spinning c was
        → Returned s Unit
    from_spinning s c was opened e =
        step_first s (spinning c was) (attempting c was) s.mem (s.irq i) Unit e
          (see_free (ground (arith, seems_locked_lem b s.mem.lock, opened)))
          (λ t out same. from_attempting t c was (ap (λ (m : Shared a). m.lock) same ∙ opened) out)

    from_entered :
        (s : System a b) (c : Call) → s.mem.lock ≡ k_free → s.pc i ≡ entered c → Returned s Unit
    from_entered s c opened e =
        step_first s (entered c) (spinning c (irq_save_disable (s.irq i)).1) s.mem
          (irq_save_disable (s.irq i)).0 Unit e save
          (λ t out same.
            from_spinning t c (irq_save_disable (s.irq i)).1
              (ap (λ (m : Shared a). m.lock) same ∙ opened) out)

    from_holding :
        (s : System a b) (p : Pc a) → s.pc i ≡ p → holds_lock a p ≡ true → Returned s Unit
    from_holding s (locked c was) e h = from_locked s c was e
    from_holding s (serving c was seen) e h = from_serving s c was seen e
    from_holding s (served c was r) e h = from_served s c was r e
    from_holding s p e h = absurd (ground arith)

    abbrev CanReturn : System a b → Type 0
    CanReturn s = (t : System a b) × Steps n s t × (t.pc i ≡ idle)

    returned : (s : System a b) (cond : Type 0) → Returned s cond → CanReturn s
    returned s cond r = (r.last, r.steps, r.outside)

    from_free :
        (s : System a b) (p : Pc a)
        → s.mem.lock ≡ k_free
        → s.pc i ≡ p
        → holds_lock a p ≡ false
        → CanReturn s
    from_free s idle opened e h = (s, stay, e)
    from_free s (entered c) opened e h = returned s Unit (from_entered s c opened e)
    from_free s (spinning c was) opened e h = returned s Unit (from_spinning s c was opened e)
    from_free s (attempting c was) opened e h = returned s Unit (from_attempting s c was opened e)
    from_free s (unlocked c was r) opened e h =
        returned s (s.mem.lock ≡ k_free) (from_unlocked s c was r e)
    from_free s p opened e h = absurd (ground arith)

  holder_there :
      {n : ℕ} {heap : a.State} {home : ℕ → Bool} {s : System a b}
      → Reach a b n heap home s
      → (j : ℕ) → holds_lock a (s.pc j) ≡ true
      → j < n
  holder_there {n} {s = s} r j h = elim (Bool-cases (ltb j n)) [
    | inl below ↦ ground (arith, below)
    | inr beyond ↦
        let out : s.pc j ≡ idle = Reach-idle r j (ground (arith, beyond)) in
        let lie : false ≡ true = rw out at h in absurd (ground (arith, lie))
  ]

  -- No call is ever stuck: from every state that `n` threads can reach some steps lead to one in which
  -- a given one of them is outside again, whether it holds the lock, waits for it or has released it.
  pub can_return :
      {n : ℕ} {heap : a.State} {home : ℕ → Bool} {s : System a b}
      → Reach a b n heap home s
      → (i : ℕ) → i < n
      → (t : System a b) × Steps n s t × (t.pc i ≡ idle)
  can_return {n} {s = s} r i here =
      let inv = Reach-Inv a b r in
      elim (Bool-cases (holds_lock a (s.pc i))) [
        | inl mine ↦ returned n i here s Unit (from_holding n i here s (s.pc i) refl mine)
        | inr other ↦ elim (Bool-cases (s.mem.lock == k_free)) [
          | inl opened ↦ from_free n i here s (s.pc i) (ground (arith, opened)) refl other
          | inr shut ↦
              let (j, holds) = inv.owner (ground (arith, inv.bit, shut)) in
              let f = from_holding n j (holder_there r j holds) s (s.pc j) refl holds in
              let apart : j ≢ i = λ e. absurd (ground (arith, other, holds, ap s.pc e)) in
              let same = f.others i apart in
              let (t, steps, out) =
                from_free n i here f.last (s.pc i) (f.unlocked_then tt) same other in
              (t, Steps-trans f.steps steps, out)
        ]
      ]
