-- ===== src/Memory/Laws.antt =====
-- Writes and what they leave alone: one byte, and a list of bytes.
use osdev_libstdc.Base.{
  List, [], ap, arith, get_elem?, if◌then◌else◌, is_some, length, refl, some, suc, sym, true, zero,
  ℕ, ◌++◌, ◌+◌, ◌<◌, ◌==◌, ◌∙◌, ◌∷◌, ◌≡◌, ◌≢◌, ◌≤◌, ◌⊎◌,
}
use osdev_libstdc.Memory.{Apart, Bytes, Mapped, Mem, load, store, write, write_list}
use mathlib.Core.Path.{fun_ext}

pub load-write_self :
    (m : Mem) (p v : ℕ) → is_some (load m p) ≡ true → load (write m p v) p ≡ some v
unfolding load write
load-write_self m p v h = ground arith

pub load-write_ne : (m : Mem) (p v q : ℕ) → p ≢ q → load (write m p v) q ≡ load m q
unfolding load write
load-write_ne m p v q h = ground arith

pub is_some-load-write :
    (m : Mem) (p v q : ℕ)
    → is_some (load m p) ≡ true
    → is_some (load (write m p v) q) ≡ is_some (load m q)
unfolding load write
is_some-load-write m p v q h = ground arith

pub store-eq-write :
    (m : Mem) (p v : ℕ) → is_some (load m p) ≡ true → store m p v ≡ some (write m p v)
unfolding store
store-eq-write m p v h = rw h

pub load-lt-size : (m : Mem) (p : ℕ) → is_some (load m p) ≡ true → p < m.size
unfolding load
load-lt-size m p h = ground arith

pub size-write : (m : Mem) (p v : ℕ) → (write m p v).size ≡ m.size
unfolding write
size-write m p v = refl

-- Writing what is there already changes nothing.
pub write-load : (m : Mem) (p v : ℕ) → load m p ≡ some v → write m p v ≡ m
unfolding load write
write-load m p v h = λ i. record {
  size = m.size;
  cell = fun_ext {f = λ q. if p == q then some v else m.cell q} {g = m.cell} (λ q. ground arith) i;
}

-- Writes to two addresses may change places.
pub write_comm : (m : Mem) (p v q w : ℕ) → p ≢ q → write (write m p v) q w ≡ write (write m q w) p v
unfolding write
write_comm m p v q w h = λ i. record {
  size = m.size;
  cell =
      fun_ext {f = (write (write m p v) q w).cell} {g = (write (write m q w) p v).cell}
        (λ r. ground arith) i;
}

pub Bytes-write :
    (m : Mem) (p : ℕ) (bs : List ℕ) (q v : ℕ)
    → (q < p) ⊎ (p + length bs ≤ q)
    → Bytes m p bs
    → Bytes (write m q v) p bs
Bytes-write m p [] q v out h = tt
Bytes-write m p (b ∷ bs) q v out h =
    (load-write_ne m q v p (omega arith) ∙ h.0, Bytes-write m (p + 1) bs q v (omega arith) h.1)

pub Mapped-write :
    (m : Mem) (p n q v : ℕ) → is_some (load m q) ≡ true → Mapped m p n → Mapped (write m q v) p n
Mapped-write m p zero q v here h = tt
Mapped-write m p (suc n) q v here h =
    (is_some-load-write m q v p here ∙ h.0, Mapped-write m (p + 1) n q v here h.1)

pub Bytes-Mapped : (m : Mem) (p : ℕ) (bs : List ℕ) → Bytes m p bs → Mapped m p (length bs)
Bytes-Mapped m p [] h = tt
Bytes-Mapped m p (b ∷ bs) h = (ap is_some h.0, Bytes-Mapped m (p + 1) bs h.1)

pub Bytes-append :
    (m : Mem) (p : ℕ) (xs ys : List ℕ)
    → Bytes m p xs
    → Bytes m (p + length xs) ys
    → Bytes m p (xs ++ ys)
Bytes-append m p [] ys h k = let e : p + 0 ≡ p = omega arith in rw e at k
Bytes-append m p (x ∷ xs) ys h k =
    let e : p + suc (length xs) ≡ p + 1 + length xs = omega arith in
    (h.0, Bytes-append m (p + 1) xs ys h.1 (rw e at k))

pub Bytes-append_left : (m : Mem) (p : ℕ) (xs ys : List ℕ) → Bytes m p (xs ++ ys) → Bytes m p xs
Bytes-append_left m p [] ys h = tt
Bytes-append_left m p (x ∷ xs) ys h = (h.0, Bytes-append_left m (p + 1) xs ys h.1)

pub Bytes-append_right :
    (m : Mem) (p : ℕ) (xs ys : List ℕ) → Bytes m p (xs ++ ys) → Bytes m (p + length xs) ys
Bytes-append_right m p [] ys h = let e : p + 0 ≡ p = omega arith in rw e h
Bytes-append_right m p (x ∷ xs) ys h =
    let e : p + suc (length xs) ≡ p + 1 + length xs = omega arith in
    rw e (Bytes-append_right m (p + 1) xs ys h.1)

-- Memory ends behind the last byte that stands in it.
pub Bytes-le-size :
    (m : Mem) (p : ℕ) (b : ℕ) (bs : List ℕ) → Bytes m p (b ∷ bs) → p + suc (length bs) ≤ m.size
Bytes-le-size m p b [] h = omega (arith, load-lt-size m p (ap is_some h.0))
Bytes-le-size m p b (c ∷ bs) h = omega (arith, Bytes-le-size m (p + 1) c bs h.1)

pub size-write_list : (m : Mem) (p : ℕ) (bs : List ℕ) → (write_list m p bs).size ≡ m.size
unfolding write_list
size-write_list m p [] = refl
size-write_list m p (b ∷ bs) = size-write_list (write m p b) (p + 1) bs ∙ size-write m p b

pub is_some-load-write_list :
    (m : Mem) (p : ℕ) (bs : List ℕ) (q : ℕ)
    → Mapped m p (length bs)
    → is_some (load (write_list m p bs) q) ≡ is_some (load m q)
unfolding write_list
is_some-load-write_list m p [] q h = refl
is_some-load-write_list m p (b ∷ bs) q h =
    is_some-load-write_list (write m p b) (p + 1) bs q
      (Mapped-write m (p + 1) (length bs) p b h.0 h.1)
    ∙ is_some-load-write m p b q h.0

-- Outside the list of bytes memory keeps its contents.
pub load-write_list_out :
    (m : Mem) (p : ℕ) (bs : List ℕ) (q : ℕ)
    → (q < p) ⊎ (p + length bs ≤ q)
    → load (write_list m p bs) q ≡ load m q
unfolding write_list
load-write_list_out m p [] q out = refl
load-write_list_out m p (b ∷ bs) q out =
    load-write_list_out (write m p b) (p + 1) bs q (omega arith)
    ∙ load-write_ne m p b q (omega arith)

-- What was written can be read back.
pub Bytes-write_list_self :
    (m : Mem) (p : ℕ) (bs : List ℕ) → Mapped m p (length bs) → Bytes (write_list m p bs) p bs
unfolding write_list
Bytes-write_list_self m p [] h = tt
Bytes-write_list_self m p (b ∷ bs) h = (
  load-write_list_out (write m p b) (p + 1) bs p (omega arith) ∙ load-write_self m p b h.0,
  Bytes-write_list_self (write m p b) (p + 1) bs (Mapped-write m (p + 1) (length bs) p b h.0 h.1),
)

pub Bytes-write_list :
    (m : Mem) (p : ℕ) (bs : List ℕ) (q : ℕ) (cs : List ℕ)
    → Apart p (length bs) q (length cs)
    → Bytes m q cs
    → Bytes (write_list m p bs) q cs
Bytes-write_list m p bs q [] apart h = tt
Bytes-write_list m p bs q (c ∷ cs) apart h = (
  load-write_list_out m p bs q (omega arith) ∙ h.0,
  Bytes-write_list m p bs (q + 1) cs (omega arith) h.1,
)

pub Mapped-write_list :
    (m : Mem) (p : ℕ) (bs : List ℕ) (q n : ℕ)
    → Mapped m p (length bs)
    → Mapped m q n
    → Mapped (write_list m p bs) q n
Mapped-write_list m p bs q zero here h = tt
Mapped-write_list m p bs q (suc n) here h =
    (is_some-load-write_list m p bs q here ∙ h.0, Mapped-write_list m p bs (q + 1) n here h.1)

pub write_list-append :
    (m : Mem) (p : ℕ) (xs ys : List ℕ)
    → write_list m p (xs ++ ys) ≡ write_list (write_list m p xs) (p + length xs) ys
unfolding write_list
write_list-append m p [] ys = let e : p + 0 ≡ p = omega arith in rw e
write_list-append m p (x ∷ xs) ys =
    let e : p + suc (length xs) ≡ p + 1 + length xs = omega arith in
    rw e (write_list-append (write m p x) (p + 1) xs ys)

-- Writing bytes that stand there already changes nothing.
pub write_list-Bytes : (m : Mem) (p : ℕ) (bs : List ℕ) → Bytes m p bs → write_list m p bs ≡ m
unfolding write_list
write_list-Bytes m p [] h = refl
write_list-Bytes m p (b ∷ bs) h = rw (write-load m p b h.0) (write_list-Bytes m (p + 1) bs h.1)

-- A write outside may go before or after.
pub write_list-write :
    (m : Mem) (p : ℕ) (bs : List ℕ) (q v : ℕ)
    → (q < p) ⊎ (p + length bs ≤ q)
    → write_list (write m q v) p bs ≡ write (write_list m p bs) q v
unfolding write_list
write_list-write m p [] q v out = refl
write_list-write m p (b ∷ bs) q v out =
    rw (write_comm m q v p b (omega arith))
      (write_list-write (write m p b) (p + 1) bs q v (omega arith))

pub Mapped-get : (m : Mem) (p n i : ℕ) → Mapped m p n → i < n → is_some (load m (p + i)) ≡ true
Mapped-get m p zero i h lt = absurd (omega arith)
Mapped-get m p (suc n) zero h lt = let e : p + 0 ≡ p = omega arith in rw e h.0
Mapped-get m p (suc n) (suc i) h lt =
    let e : p + suc i ≡ p + 1 + i = omega arith in rw e (Mapped-get m (p + 1) n i h.1 (omega arith))

pub Mapped-sub : (m : Mem) (p n k : ℕ) → Mapped m p n → k ≤ n → Mapped m p k
Mapped-sub m p n zero h le = tt
Mapped-sub m p zero (suc k) h le = absurd (omega arith)
Mapped-sub m p (suc n) (suc k) h le = (h.0, Mapped-sub m (p + 1) n k h.1 (omega arith))

pub Mapped-shift : (m : Mem) (p n k : ℕ) → Mapped m p (n + k) → Mapped m (p + n) k
Mapped-shift m p zero k h =
    let e : zero + k ≡ k = omega arith in let e' : p + zero ≡ p = omega arith in rw e' (rw e at h)
Mapped-shift m p (suc n) k h =
    let e : suc n + k ≡ suc (n + k) = omega arith in
    let e' : p + suc n ≡ p + 1 + n = omega arith in
    let h' : Mapped m p (suc (n + k)) = rw e at h in rw e' (Mapped-shift m (p + 1) n k h'.1)

pub Bytes-get :
    (m : Mem) (p : ℕ) (bs : List ℕ) (i : ℕ)
    → Bytes m p bs
    → i < length bs
    → load m (p + i) ≡ get_elem? bs i
Bytes-get m p [] i h lt = absurd (omega arith)
Bytes-get m p (b ∷ bs) zero h lt = let e : p + 0 ≡ p = omega arith in rw e h.0
Bytes-get m p (b ∷ bs) (suc i) h lt =
    let e : p + suc i ≡ p + 1 + i = omega arith in rw e (Bytes-get m (p + 1) bs i h.1 (omega arith))

pub Mapped-head : (m : Mem) (p n : ℕ) → Mapped m p (n + 1) → is_some (load m p) ≡ true
Mapped-head m p n h =
    let e : n + 1 ≡ suc n = omega arith in let h' : Mapped m p (suc n) = rw e at h in h'.0

pub write-write : (m : Mem) (p v w : ℕ) → write (write m p v) p w ≡ write m p w
unfolding write
write-write m p v w = λ i. record {
  size = m.size;
  cell =
      fun_ext {f = (write (write m p v) p w).cell} {g = (write m p w).cell} (λ q. ground arith) i;
}

-- Of two lists of bytes of one length at one place the later stays.
pub write_list-write_list :
    (m : Mem) (p : ℕ) (xs ys : List ℕ)
    → length xs ≡ length ys
    → write_list (write_list m p xs) p ys ≡ write_list m p ys
unfolding write_list
write_list-write_list m p [] [] e = refl
write_list-write_list m p [] (y ∷ ys) e = absurd (omega arith)
write_list-write_list m p (x ∷ xs) [] e = absurd (omega arith)
write_list-write_list m p (x ∷ xs) (y ∷ ys) e =
    ap (λ t. write_list t (p + 1) ys)
      (sym (write_list-write (write m p x) (p + 1) xs p y (omega arith))
        ∙ ap (λ t. write_list t (p + 1) xs) (write-write m p x y))
    ∙ write_list-write_list (write m p y) (p + 1) xs ys (omega arith)
