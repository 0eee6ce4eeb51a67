-- ===== src/Atomic/Orders.antt =====
-- The memory order that a compare-exchange takes for its failure.
use osdev_libstdc.Atomic.{MemoryOrder, can_fail, cas_failure_order, load_strength}
use osdev_libstdc.Base.{refl, true, ◌≡◌}

-- It is one that GCC allows.
pub can_fail-cas_failure_order : (o : MemoryOrder) → can_fail o (cas_failure_order o) ≡ true
unfolding cas_failure_order
can_fail-cas_failure_order MemoryOrder.relaxed = refl
can_fail-cas_failure_order o = refl

-- It synchronises a load exactly as much as the order for success does.
load_strength-cas_failure_order :
    (o : MemoryOrder) → load_strength (cas_failure_order o) ≡ load_strength o
unfolding cas_failure_order
load_strength-cas_failure_order MemoryOrder.relaxed = refl
load_strength-cas_failure_order o = refl
