-- ===== src/Cstring/Copy/Sizes.antt =====
-- memcpy, memset and mempcpy of src/cstring.cpp keep the size of memory.
use osdev_libstdc.Base.{refl, suc, zero, ℕ, ◌+◌, ◌==◌}
use osdev_libstdc.Base.Int.{to_unsigned, ℤ}
use osdev_libstdc.Base.Returns.{Returns, Returns-bind, Returns-if, Returns-then}
use osdev_libstdc.Cstring.Copy.{copy_loop, memcpy, mempcpy, memset, set_loop}
use osdev_libstdc.Memory.{Mem, load, store}
use osdev_libstdc.Memory.Sizes.{Sized, Sized-then, store-Sized}

copy_loop-Sized : (n : ℕ) (m : Mem) (d s : ℕ) → Returns (Sized m) (copy_loop n m d s)
unfolding Returns copy_loop
copy_loop-Sized zero m d s = refl
copy_loop-Sized (suc n) m d s = Returns-then _ (load m s) _ λ b.
    Sized-then m (λ x. x) (λ x. x) (store m d b) _ (store-Sized m d b)
      λ m'. copy_loop-Sized n m' (d + 1) (s + 1)

set_loop-Sized : (n : ℕ) (m : Mem) (p v : ℕ) → Returns (Sized m) (set_loop n m p v)
unfolding Returns set_loop
set_loop-Sized zero m p v = refl
set_loop-Sized (suc n) m p v =
    Sized-then m (λ x. x) (λ x. x) (store m p v) _ (store-Sized m p v)
      λ m'. set_loop-Sized n m' (p + 1) v

pub memset-Sized :
    (m : Mem) (dest : ℕ) (value : ℤ) (n : ℕ) → Returns (λ r. Sized m r.1) (memset m dest value n)
unfolding Returns memset
memset-Sized m dest value n =
    Returns-bind (Sized m) _ (set_loop n m dest (to_unsigned 8 value)) _
      (set_loop-Sized n m dest (to_unsigned 8 value)) λ m' h. h

memcpy-Sized : (m : Mem) (dest src n : ℕ) → Returns (λ r. Sized m r.1) (memcpy m dest src n)
unfolding Returns memcpy
memcpy-Sized m dest src n =
    Returns-if _ (dest == src) _ _ refl
      (Returns-bind (Sized m) _ (copy_loop n m dest src) _ (copy_loop-Sized n m dest src) λ m' h. h)

pub mempcpy-Sized : (m : Mem) (dest src n : ℕ) → Returns (λ r. Sized m r.1) (mempcpy m dest src n)
unfolding Returns mempcpy
mempcpy-Sized m dest src n =
    Returns-bind (λ r. Sized m r.1) _ (memcpy m dest src n) _ (memcpy-Sized m dest src n) λ r h. h
