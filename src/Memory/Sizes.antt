-- ===== src/Memory/Sizes.antt =====
-- Memory keeps its size, and nothing is read from its end on.
use osdev_libstdc.Base.{
  Option, arith, false, is_some, ltb, ltb→lt, none, refl, ℕ, ◌<◌, ◌>>=◌, ◌∙◌, ◌≡◌, ◌≤◌,
}
use osdev_libstdc.Base.Returns.{
  Returns, Returns-always, Returns-bind, Returns-if, Returns-weaken, Returns-when,
}
use osdev_libstdc.Memory.{Mem, load, store}
use osdev_libstdc.Memory.Laws.{size-write}

-- The memory has the size of `m`.
abbrev pub Sized : Mem → Mem → Type 0
Sized m m' = m'.size ≡ m.size

pub store-Sized : (m : Mem) (p v : ℕ) → Returns (Sized m) (store m p v)
unfolding Returns store
store-Sized m p v = Returns-if _ (is_some (load m p)) _ _ (size-write m p v) tt

-- The first step's result is followed by more that keeps its size.
pub Sized-then :
    {A B : Type 0} (m : Mem) (mem : A → Mem) (mem' : B → Mem) (r : Option A) (k : A → Option B)
    → Returns (λ a. Sized m (mem a)) r
    → ((a : A) → Returns (λ b. Sized (mem a) (mem' b)) (k a))
    → Returns (λ b. Sized m (mem' b)) (r >>= k)
Sized-then m mem mem' r k h next =
    Returns-bind (λ a. Sized m (mem a)) _ r _ h
      λ a same. Returns-weaken _ _ (k a) (λ b kept. kept ∙ same) (next a)

-- A loop that faults where nothing is mapped has fuel enough without any left.
pub past_end :
    {B : Type 0} (m : Mem) (p : ℕ) (next : ℕ → Option B) → m.size ≤ p → none ≡ load m p >>= next
unfolding Returns load
past_end m p next h = let outside : ltb p m.size ≡ false = ground arith in rw outside refl

-- What is read stands below the size.
pub load-inside : (m : Mem) (p : ℕ) → Returns (λ c. p < m.size) (load m p)
unfolding Returns load
load-inside m p =
    Returns-when _ (ltb p m.size) _ _ (λ h. Returns-always _ (m.cell p) λ c. ltb→lt p m.size h) tt
