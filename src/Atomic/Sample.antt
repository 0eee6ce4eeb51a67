-- ===== src/Atomic/Sample.antt =====
-- Builtins for examples.
use osdev_libstdc.Atomic.{Builtins, Exchange, MemoryOrder, can_fail}
use osdev_libstdc.Base.{Bool-cases, false, if◌then◌else◌, inl, inr, refl, true, ℕ, ◌&&◌, ◌==◌, ◌≡◌}

-- The order for failure is allowed.
pub both_hold :
    (v e d : ℕ) (s f : MemoryOrder)
    → can_fail s f ≡ true
    → ◌≡◌ {A = Exchange}
        (if v == e && can_fail s f
          then record { success = true; value = d; expected = e }
          else record { success = false; value = v; expected = v })
        (if v == e
          then record { success = true; value = d; expected = e }
          else record { success = false; value = v; expected = v })
both_hold v e d s f ok = elim (Bool-cases (v == e)) [
  | inl same ↦ rw (same, ok) refl
  | inr differ ↦ rw differ refl
]

-- Builtins that do what GCC documents, on a machine without reordering. Where GCC does not allow the
-- orders, a compare-exchange fails.
abbrev pub plain_builtins : Builtins
plain_builtins = record {
  load_value = λ v o. v;
  store_value = λ v d o. d;
  exchange_value = λ v d o. (d, v);
  compare_exchange = λ v e d weak s f.
      if v == e && can_fail s f
      then record { success = true; value = d; expected = e }
      else record { success = false; value = v; expected = v };
  load_reads = λ v o ok. refl;
  store_writes = λ v d o ok. refl;
  exchange_swaps = λ v d o. refl;
  strong_compares = λ v e d s f ok. both_hold v e d s f ok;
  weak_compares = λ v e d s f ok. inl refl;
  lock_free = λ size p. true;
}
