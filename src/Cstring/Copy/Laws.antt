-- ===== src/Cstring/Copy/Laws.antt =====
-- Lemmas on memcpy, memmove, memset, mempcpy and memccpy.
use osdev_libstdc.Base.{
  Bool, Bool-cases, List, [], any, ap, arith, false, if◌then◌else◌, inl, inr, is_some, leb, leb→le,
  length, le→leb, ltb, lt→ltb, none, refl, replicate, snoc_view, some, suc, sym, true, up_to, zero,
  ℕ, ◌&&◌, ◌++◌, ◌+◌, ◌-◌, ◌<◌, ◌==◌, ◌∙◌, ◌∷◌, ◌≡◌, ◌≤◌, ◌⊎◌,
}
use osdev_libstdc.Base.Int.{eqb_ℤ, negsuc, pos, to_unsigned, ℤ}
use osdev_libstdc.Cstring.Copy.{
  copy_back_loop, copy_loop, memccpy, memccpy_loop, memcpy, memmove, mempcpy, memset, set_loop,
}
use osdev_libstdc.Memory.{Apart, Bytes, Mapped, Mem, load, write, write_list}
use osdev_libstdc.Memory.Laws.{
  Bytes-append_left, Bytes-append_right, Bytes-get, Bytes-write, Bytes-write_list_self, Mapped-get,
  Mapped-sub, Mapped-write, load-write_list_out, load-write_ne, store-eq-write, write_list-Bytes,
  write_list-append, write_list-write,
}

pub copy_loop-write_list :
    (m : Mem) (d s : ℕ) (bs : List ℕ)
    → Bytes m s bs
    → Mapped m d (length bs)
    → (d ≤ s) ⊎ (s + length bs ≤ d)
    → copy_loop (length bs) m d s ≡ some (write_list m d bs)
unfolding copy_loop write_list
copy_loop-write_list m d s [] h room apart = refl
copy_loop-write_list m d s (b ∷ bs) h room apart =
    rw (h.0, store-eq-write m d b room.0)
      (copy_loop-write_list (write m d b) (d + 1) (s + 1) bs
        (Bytes-write m (s + 1) bs d b (omega arith) h.1)
        (Mapped-write m (d + 1) (length bs) d b room.0 room.1) (omega arith))

copy_back_loop-write_list :
    (n : ℕ) (m : Mem) (d s : ℕ) (bs : List ℕ)
    → length bs ≡ n
    → Bytes m s bs
    → Mapped m d n
    → s ≤ d
    → copy_back_loop n m (d + n) (s + n) ≡ some (write_list m d bs)
unfolding copy_back_loop write_list
copy_back_loop-write_list zero m d s [] e h room le = refl
copy_back_loop-write_list zero m d s (b ∷ bs) e h room le = absurd (omega arith)
copy_back_loop-write_list (suc n) m d s bs e h room le =
    let (xs, b, split, len) = snoc_view n bs e in
    let h' : Bytes m s (xs ++ b ∷ []) = rw split at h in
    let there : load m (s + n) ≡ some b = rw len at (Bytes-append_right m s xs (b ∷ []) h').0 in
    let free : is_some (load m (d + n)) ≡ true = Mapped-get m d (suc n) n room (omega arith) in
    let ds : d + suc n - 1 ≡ d + n = omega arith in
    let ss : s + suc n - 1 ≡ s + n = omega arith in
    let rest =
      copy_back_loop-write_list n (write m (d + n) b) d s xs len
        (Bytes-write m s xs (d + n) b (omega arith) (Bytes-append_left m s xs (b ∷ []) h'))
        (Mapped-write m d n (d + n) b free (Mapped-sub m d (suc n) n room (omega arith))) le in
    rw (ds, ss, there, store-eq-write m (d + n) b free, split)
      (rest
        ∙ ap some (
            write_list-write m d xs (d + n) b (omega arith)
            ∙ sym (
                write_list-append m d xs (b ∷ [])
                ∙ ap (λ k. write (write_list m d xs) (d + k) b) len)))

-- memmove of `length bs` bytes returns `dest` and leaves there the bytes `bs` that stood at `src`,
-- however the two ranges overlap, and changes nothing else.
pub memmove-write_list :
    (m : Mem) (dest src : ℕ) (bs : List ℕ)
    → Bytes m src bs
    → Mapped m dest (length bs)
    → memmove m dest src (length bs) ≡ some (dest, write_list m dest bs)
unfolding memmove
memmove-write_list m dest src bs h room = elim (Bool-cases (leb dest src)) [
  | inl before ↦
      rw (before, copy_loop-write_list m dest src bs h room (inl (leb→le dest src before)))
  | inr after ↦ rw (
    after,
    le→leb src dest (ground arith),
    copy_back_loop-write_list (length bs) m dest src bs refl h room (ground arith),
  )
]

-- memcpy of `length bs` bytes between ranges that do not overlap, or that are the same, returns
-- `dest` and leaves there the bytes `bs` that stand at `src`.
pub memcpy-write_list :
    (m : Mem) (dest src : ℕ) (bs : List ℕ)
    → Bytes m src bs
    → Mapped m dest (length bs)
    → Apart dest (length bs) src (length bs) ⊎ (dest ≡ src)
    → memcpy m dest src (length bs) ≡ some (dest, write_list m dest bs)
unfolding memcpy
memcpy-write_list m dest src bs h room apart = elim (Bool-cases (dest == src)) [
  | inl same ↦
      let e : src ≡ dest = ground arith in rw (same, write_list-Bytes m dest bs (rw e at h))
  | inr other ↦ rw (other, copy_loop-write_list m dest src bs h room (ground arith))
]

pub set_loop-write_list :
    (n : ℕ) (m : Mem) (p v : ℕ)
    → Mapped m p n
    → set_loop n m p v ≡ some (write_list m p (replicate n v))
unfolding set_loop write_list
set_loop-write_list zero m p v room = refl
set_loop-write_list (suc n) m p v room =
    rw (store-eq-write m p v room.0)
      (set_loop-write_list n (write m p v) (p + 1) v (Mapped-write m (p + 1) n p v room.0 room.1))

-- memset returns `dest` and leaves there `n` copies of the low byte of `value`.
pub memset-write_list :
    (m : Mem) (dest : ℕ) (value : ℤ) (n : ℕ)
    → Mapped m dest n
    → memset m dest value n ≡ some (dest, write_list m dest (replicate n (to_unsigned 8 value)))
unfolding memset
memset-write_list m dest value n room = rw (set_loop-write_list n m dest (to_unsigned 8 value) room)

-- mempcpy does the same as memcpy, and returns the address behind the last byte written.
pub mempcpy-write_list :
    (m : Mem) (dest src : ℕ) (bs : List ℕ)
    → Bytes m src bs
    → Mapped m dest (length bs)
    → Apart dest (length bs) src (length bs) ⊎ (dest ≡ src)
    → mempcpy m dest src (length bs) ≡ some (dest + length bs, write_list m dest bs)
unfolding mempcpy
mempcpy-write_list m dest src bs h room apart = rw (memcpy-write_list m dest src bs h room apart)

abbrev is_stop : ℤ → ℕ → Bool
is_stop c b = eqb_ℤ (pos b) c

memccpy_loop-write_list :
    (m : Mem) (dest src : ℕ) (c : ℤ) (i : ℕ) (bs : List ℕ)
    → Bytes m (src + i) bs
    → Mapped m (dest + i) (length bs)
    → Apart (dest + i) (length bs) (src + i) (length bs)
    → memccpy_loop (length bs) m dest src c i
      ≡ some (
        if any (is_stop c) bs then some (dest + i + length (up_to (is_stop c) bs)) else none,
        write_list m (dest + i) (up_to (is_stop c) bs),
      )
unfolding memccpy_loop write_list
memccpy_loop-write_list m dest src c i [] h room apart = refl
memccpy_loop-write_list m dest src c i (b ∷ bs) h room apart =
    let ss : src + (i + 1) ≡ src + i + 1 = omega arith in
    let dd : dest + (i + 1) ≡ dest + i + 1 = omega arith in
    let rest =
      memccpy_loop-write_list (write m (dest + i) b) dest src c (i + 1) bs
        (rw ss (Bytes-write m (src + i + 1) bs (dest + i) b (omega arith) h.1))
        (rw dd (Mapped-write m (dest + i + 1) (length bs) (dest + i) b room.0 room.1))
        (omega arith) in
    rw
      (
        h.0,
        store-eq-write m (dest + i) b room.0,
        load-write_ne m (dest + i) b (src + i) (omega arith),
        h.0,
      )
      (ground (arith, rest))

-- memccpy between ranges that do not overlap copies up to the first byte that equals the `int` `c`,
-- that one included, and returns the address behind its copy; without such a byte it copies all and
-- returns null.
pub memccpy-write_list :
    (m : Mem) (dest src : ℕ) (c : ℤ) (bs : List ℕ)
    → Bytes m src bs
    → Mapped m dest (length bs)
    → Apart dest (length bs) src (length bs)
    → memccpy m dest src c (length bs)
      ≡ some (
        if any (is_stop c) bs then some (dest + length (up_to (is_stop c) bs)) else none,
        write_list m dest (up_to (is_stop c) bs),
      )
unfolding memccpy write_list
memccpy-write_list m dest src c [] h room apart = refl
memccpy-write_list m dest src c (b ∷ bs) h room apart =
    let ss : src + 0 ≡ src = omega arith in
    let dd : dest + 0 ≡ dest = omega arith in
    rw (
      lt→ltb 0 (suc (length bs)) (omega arith),
      memccpy_loop-write_list m dest src c 0 (b ∷ bs) (rw ss h) (rw dd room) (omega arith),
      dd,
    )

any-is_stop_of_neg : (k : ℕ) (bs : List ℕ) → any (is_stop (negsuc k)) bs ≡ false
any-is_stop_of_neg k [] = refl
any-is_stop_of_neg k (b ∷ bs) = ground (arith, any-is_stop_of_neg k bs)

-- memccpy never stops at a negative `c`, such as a `char` above 127 is when it is passed: it returns
-- null, although the byte `(unsigned char) c` may be among those copied.
pub memccpy_of_neg :
    (m : Mem) (dest src k : ℕ) (bs : List ℕ)
    → Bytes m src bs
    → Mapped m dest (length bs)
    → Apart dest (length bs) src (length bs)
    → (m' : Mem) × (memccpy m dest src (negsuc k) (length bs) ≡ some (none, m'))
memccpy_of_neg m dest src k bs h room apart = (
  write_list m dest (up_to (is_stop (negsuc k)) bs),
  rw (memccpy-write_list m dest src (negsuc k) bs h room apart, any-is_stop_of_neg k bs),
)

load-write_list_in :
    (m : Mem) (p : ℕ) (bs : List ℕ) (s q : ℕ)
    → Mapped m p (length bs)
    → Bytes m s bs
    → p ≤ q
    → q < p + length bs
    → load (write_list m p bs) q ≡ load m (s + (q - p))
load-write_list_in m p bs s q room h le lt =
    let i = q - p in
    let there =
      Bytes-get (write_list m p bs) p bs i (Bytes-write_list_self m p bs room) (omega arith) in
    let e : p + i ≡ q = omega arith in rw (Bytes-get m s bs i h (omega arith)) (rw e at there)

-- After memmove of `length bs` bytes each address of the destination holds what the address at the
-- same distance in the source held before, also where the ranges overlap, and every other address
-- holds what it held.
pub load-memmove :
    (m : Mem) (dest src : ℕ) (bs : List ℕ) (q : ℕ)
    → Bytes m src bs
    → Mapped m dest (length bs)
    → (m' : Mem) × (memmove m dest src (length bs) ≡ some (dest, m'))
      × (load m' q ≡ (
          if leb dest q && ltb q (dest + length bs) then load m (src + (q - dest)) else load m q))
load-memmove m dest src bs q h room = (
  write_list m dest bs,
  memmove-write_list m dest src bs h room,
  ground (arith, load-write_list_in m dest bs src q room h, load-write_list_out m dest bs q),
)
