-- ===== src/Malloc/System/Tests.antt =====
-- The guarantees at concrete runs.
use osdev_libstdc.Atomic.Sample.{plain_builtins}
use osdev_libstdc.Base.{[], arith, false, refl, some, true, update, ℕ, ◌*◌, ◌+◌, ◌∷◌, ◌≡◌}
use osdev_libstdc.Base.Int.{pos}
use osdev_libstdc.Malloc.{Allocator, Call, malloc, pointer, serve}
use osdev_libstdc.Malloc.System.{
  Reach, System, attempting, begin, call, entered, finish, idle, initially, later, leave, locked,
  pick, restore, save, see_free, served, serving, spinning, unlocked, win,
}
use osdev_libstdc.Malloc.System.Guarantees.{
  irq_restored, mutual_exclusion, replies_in_sequence, served_in_sequence,
}
use osdev_libstdc.Malloc.System.Progress.{Steps, can_return}
use osdev_libstdc.Malloc.System.Safety.{Answers, replay}
use osdev_libstdc.Memory.{store}
use osdev_libstdc.SpinLock.{irq_restore, irq_save_disable, seems_locked, try_lock, unlock}

-- An allocator that only goes upwards: its state is the next address.
abbrev bump : Allocator
bump = record {
  State = ℕ;
  mem_initialize = λ s base size. (8, pos 0);
  mem_malloc_aligned = λ s alignment size. (s + size, some s);
  mem_calloc = λ s num size. (s + num * size, some s);
  mem_free = λ s ptr. s;
  mem_malloc = λ s size. (s + size, some s);
  mem_realloc = λ s ptr size. (s + size, some s);
}

abbrev request : Call
request = malloc 16

-- Thread 0 of two has got the lock, on a CPU whose interrupts were enabled.
abbrev busy_state : System bump plain_builtins
busy_state = record {
  mem = record { lock = 1; heap = 8; log = [] };
  irq = update (update (update (update (λ _. true) 0 true) 0 false) 0 false) 0 false;
  pc =
      update
        (update (update (update (λ _. idle) 0 (entered request)) 0 (spinning request true)) 0
          (attempting request true))
        0 (locked request true);
}

busy_reached : Reach bump plain_builtins 2 8 (λ _. true) busy_state
unfolding seems_locked try_lock irq_save_disable
busy_reached =
    later
      (later
        (later (later initially (pick 0 (omega arith) (call request))) (pick 0 (omega arith) save))
        (pick 0 (omega arith) (see_free refl)))
      (pick 0 (omega arith) (win refl))

-- It has then been served, released the lock, and returned.
abbrev done_state : System bump plain_builtins
done_state = record {
  mem = record { lock = 0; heap = 24; log = (0, request) ∷ [] };
  irq = update (update (update (update busy_state.irq 0 false) 0 false) 0 false) 0 true;
  pc =
      update
        (update
          (update (update busy_state.pc 0 (serving request true 8)) 0
            (served request true (pointer (some 8))))
          0 (unlocked request true (pointer (some 8))))
        0 idle;
}

done_reached : Reach bump plain_builtins 2 8 (λ _. true) done_state
unfolding unlock store serve irq_restore
done_reached =
    later
      (later (later (later busy_reached (pick 0 (omega arith) begin)) (pick 0 (omega arith) finish))
        (pick 0 (omega arith) leave))
      (pick 0 (omega arith) restore)

mutual_exclusion_example : (◌≡◌ {A = ℕ} 0 0) × (busy_state.irq 0 ≡ false)
mutual_exclusion_example = mutual_exclusion bump plain_builtins busy_reached 0 0 refl refl

served_in_sequence_example : 24 ≡ replay bump ((0, request) ∷ []) 8
served_in_sequence_example = served_in_sequence bump plain_builtins done_reached

irq_restored_example : done_state.irq 0 ≡ true
irq_restored_example = irq_restored bump plain_builtins done_reached 0 refl

can_return_example :
    (t : System bump plain_builtins) × Steps bump plain_builtins 2 busy_state t × (t.pc 0 ≡ idle)
can_return_example = can_return bump plain_builtins busy_reached 0 (omega arith)

-- Thread 0 goes on until it has released the lock.
replies_in_sequence_example : Answers bump 8 0 ((0, request) ∷ []) request (pointer (some 8))
unfolding serve
replies_in_sequence_example =
    replies_in_sequence bump plain_builtins
      (later (later (later busy_reached (pick 0 (omega arith) begin)) (pick 0 (omega arith) finish))
        (pick 0 (omega arith) leave))
      0 request true (pointer (some 8)) refl
