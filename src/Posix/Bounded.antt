-- ===== src/Posix/Bounded.antt =====
-- Lemmas on strlcpy and strlcat.
use osdev_libstdc.Base.{
  Bool-cases, List, Option, [], ap, arith, false, if◌then◌else◌, inl, inr, leb, length,
  length-append, length-take, ltb, lt→ltb, refl, some, suc, take, tests, zero, ℕ, ◌++◌, ◌+◌, ◌-◌,
  ◌<◌, ◌==◌, ◌>>=◌, ◌∙◌, ◌∷◌, ◌≡◌, ◌≤◌,
}
use osdev_libstdc.Cstring.Copy.{memcpy}
use osdev_libstdc.Cstring.Copy.Laws.{memcpy-write_list}
use osdev_libstdc.Cstring.Length.Laws.{strlen-length}
use osdev_libstdc.Memory.{Apart, IsString, Mapped, Mem, store, write, write_list}
use osdev_libstdc.Memory.Laws.{
  Mapped-get, Mapped-sub, Mapped-write, is_some-load-write_list, store-eq-write, write_list-append,
}
use osdev_libstdc.Memory.Strings.{
  Bytes-take, IsString-Bytes, IsString-lt-size, IsString-tail, IsString-write, length-string,
}
use osdev_libstdc.Posix.{bounded_end, strlcat, strlcat_loop, strlcpy}
use Prim.Native.Nat.{min}

take_all : (n : ℕ) (s : List ℕ) → length s ≤ n → take n s ≡ s
take_all zero [] h = refl
take_all (suc n) [] h = refl
take_all zero (x ∷ s) h = absurd (omega arith)
take_all (suc n) (x ∷ s) h = ap (λ t. x ∷ t) (take_all n s (omega arith))

pub write_list-snoc :
    (m : Mem) (p q : ℕ) (bs : List ℕ) (b : ℕ)
    → q ≡ p + length bs
    → write_list m p (bs ++ b ∷ []) ≡ write (write_list m p bs) q b
unfolding write_list
write_list-snoc m p q bs b e = rw e (write_list-append m p bs (b ∷ []))

-- A prefix of the string at `src`, copied and ended by a NUL.
strlcpy_cut :
    (m : Mem) (dst src n : ℕ) (s : List ℕ)
    → IsString m src s
    → n ≤ length s
    → Mapped m dst (n + 1)
    → Apart dst (n + 1) src (length s + 1)
    → (memcpy m dst src n >>= λ t. store t.1 (dst + n) 0)
      ≡ some (write_list m dst (take n s ++ 0 ∷ []))
strlcpy_cut m dst src n s h le room apart =
    let len : length (take n s) ≡ n = omega (arith, length-take n s) in
    let room' = Mapped-sub m dst (n + 1) n room (omega arith) in
    let copied : memcpy m dst src n ≡ some (dst, write_list m dst (take n s)) = rw len at (
      memcpy-write_list m dst src (take n s) (Bytes-take m src n s (IsString-Bytes m src s h))
        (rw len room') (inl (rw len (omega arith)))) in
    let free = Mapped-get m dst (n + 1) n room (omega arith) in
    rw (
      copied,
      store-eq-write (write_list m dst (take n s)) (dst + n) 0
          (is_some-load-write_list m dst (take n s) (dst + n) (rw len room') ∙ free),
      write_list-snoc m dst (dst + n) (take n s) 0 (omega arith),
    )

-- strlcpy returns the length of the string at `src`. With a size above 0 it writes at `dst` the first
-- `size - 1` characters of that string, or all if they are fewer, and a NUL, at most `size` bytes;
-- with size 0 it writes nothing.
pub strlcpy-take :
    (m : Mem) (dst src size : ℕ) (s : List ℕ)
    → IsString m src s
    → Mapped m dst (min size (length s + 1))
    → Apart dst (min size (length s + 1)) src (length s + 1)
    → strlcpy m dst src size
      ≡ some (length s, if size == 0 then m else write_list m dst (take (size - 1) s ++ 0 ∷ []))
unfolding strlcpy
strlcpy-take m dst src zero s h room apart =
    let no : ltb (length s + 1) 0 ≡ false = ground arith in rw (strlen-length m src s h, no)
strlcpy-take m dst src (suc n) s h room apart =
    let nonzero : (suc n == 0) ≡ false = ground arith in
    elim (Bool-cases (ltb (length s + 1) (suc n))) [
      | inl fits ↦
          let e : min (suc n) (length s + 1) ≡ length (s ++ 0 ∷ []) =
            omega (tests, length-string s) in
          let e' : length (s ++ 0 ∷ []) ≡ length s + 1 = omega (arith, length-string s) in
          let all : take (suc n - 1) s ≡ s = take_all (suc n - 1) s (omega tests) in
          let copied =
            memcpy-write_list m dst src (s ++ 0 ∷ []) h.0 (rw e at room)
              (inl (omega (arith, length-string s))) in
          rw (strlen-length m src s h, fits, all, rw e' at copied, nonzero)
      | inr tight ↦
          let k : suc n - 1 ≡ n = omega arith in
          let le : n ≤ length s = ground arith in
          let e : min (suc n) (length s + 1) ≡ n + 1 = omega arith in
          let cut = strlcpy_cut m dst src n s h le (rw e at room) (rw e at apart) in
          rw (strlen-length m src s h, tight, k, lt→ltb 0 (suc n) (omega arith), cut, nonzero)
    ]

bounded_end-length :
    (n : ℕ) (m : Mem) (p : ℕ) (s : List ℕ)
    → IsString m p s
    → bounded_end n m p ≡ some (p + min n (length s))
unfolding bounded_end
bounded_end-length zero m p s h = ap some (omega arith)
bounded_end-length (suc n) m p [] h = rw h.0.0 (ap some (omega arith))
bounded_end-length (suc n) m p (c ∷ s) h =
    ground (arith, h.0.0, h.1.0, bounded_end-length n m (p + 1) s (IsString-tail m p c s h))

-- With no room left the loop only walks to the end of `src`.
strlcat_loop_full :
    (k : ℕ) (m : Mem) (d p n : ℕ) (s : List ℕ)
    → length s < k
    → n ≤ 1
    → IsString m p s
    → strlcat_loop k m d p n ≡ some (d, p + length s, m)
unfolding strlcat_loop
strlcat_loop_full zero m d p n s lt le h = absurd (omega arith)
strlcat_loop_full (suc k) m d p n [] lt le h = ground (arith, h.0.0)
strlcat_loop_full (suc k) m d p n (c ∷ s) lt le h = ground (
  arith,
  h.0.0,
  h.1.0,
  strlcat_loop_full k m d (p + 1) n s (omega arith) le (IsString-tail m p c s h),
)

strlcat_loop-take :
    (k : ℕ) (m : Mem) (d p n : ℕ) (s : List ℕ)
    → length s < k
    → IsString m p s
    → Mapped m d (length (take n s))
    → Apart d (length (take n s)) p (length s + 1)
    → strlcat_loop k m d p (suc n)
      ≡ some (d + length (take n s), p + length s, write_list m d (take n s))
unfolding strlcat_loop write_list
strlcat_loop-take zero m d p n s lt h room apart = absurd (omega arith)
strlcat_loop-take (suc k) m d p zero s lt h room apart =
    let e : d + 0 ≡ d = omega arith in
    let full = strlcat_loop_full (suc k) m d p 1 s lt (omega arith) h in
    rw e (unfold strlcat_loop in full)
strlcat_loop-take (suc k) m d p (suc n) [] lt h room apart = ground (arith, h.0.0)
strlcat_loop-take (suc k) m d p (suc n) (c ∷ s) lt h room apart =
    let one_less : suc (suc n) - 1 ≡ suc n = omega arith in
    ground (
      arith,
      h.0.0,
      h.1.0,
      one_less,
      store-eq-write m d c room.0,
      strlcat_loop-take k (write m d c) (d + 1) (p + 1) n s (omega arith)
          (IsString-write m (p + 1) s d c (omega arith) (IsString-tail m p c s h))
          (Mapped-write m (d + 1) (length (take n s)) d c room.0 room.1) (omega arith),
    )

-- The rest of strlcat, once it has found `room` bytes from the end of the string at `dst` on.
strlcat_rest :
    (m : Mem) (d src n : ℕ) (s : List ℕ)
    → IsString m src s
    → Mapped m d (length (take n s) + 1)
    → Apart d (length (take n s) + 1) src (length s + 1)
    → (dst_len : ℕ)
    → ◌≡◌ {A = Option (ℕ × Mem)}
        (do
          (d', s', m') ← strlcat_loop (m.size - src) m d src (suc n)
          m'' ← store m' d' 0
          some (dst_len + (s' - src), m''))
        (some (dst_len + length s, write_list m d (take n s ++ 0 ∷ [])))
strlcat_rest m d src n s h room apart dst_len =
    let t = take n s in
    let kept = Mapped-sub m d (length t + 1) (length t) room (omega arith) in
    let free = Mapped-get m d (length t + 1) (length t) room (omega arith) in
    let walked : src + length s - src ≡ length s = omega arith in
    rw (
      strlcat_loop-take (m.size - src) m d src n s (omega (arith, IsString-lt-size m src s h)) h
          kept (omega arith),
      store-eq-write (write_list m d t) (d + length t) 0
          (is_some-load-write_list m d t (d + length t) kept ∙ free),
      walked,
      write_list-snoc m d (d + length t) t 0 refl,
    )

strlcat_room :
    (m : Mem) (dst src dstsize n : ℕ) (a b : List ℕ)
    → dstsize ≡ length a + suc n
    → IsString m dst a
    → IsString m src b
    → Mapped m (dst + length a) (length (take n b) + 1)
    → Apart (dst + length a) (length (take n b) + 1) src (length b + 1)
    → strlcat m dst src dstsize
      ≡ some (length a + length b, write_list m (dst + length a) (take n b ++ 0 ∷ []))
unfolding strlcat
strlcat_room m dst src dstsize n a b e ha hb room apart =
    let at_end : dst + min dstsize (length a) ≡ dst + length a = omega arith in
    let dst_len : dst + length a - dst ≡ length a = omega arith in
    let left : dstsize - length a ≡ suc n = omega arith in
    let nonzero : (suc n == 0) ≡ false = ground arith in
    rw (bounded_end-length dstsize m dst a ha, at_end, dst_len, left, nonzero)
      (strlcat_rest m (dst + length a) src n b hb room apart (length a))

-- Where the string at `dst` is not shorter than `dstsize`, strlcat changes nothing and returns
-- `dstsize` and the length of the other string.
strlcat_full :
    (m : Mem) (dst src dstsize : ℕ) (a b : List ℕ)
    → IsString m dst a
    → IsString m src b
    → dstsize ≤ length a
    → strlcat m dst src dstsize ≡ some (dstsize + length b, m)
unfolding strlcat
strlcat_full m dst src dstsize a b ha hb le =
    let at_end : dst + min dstsize (length a) ≡ dst + dstsize = omega arith in
    let dst_len : dst + dstsize - dst ≡ dstsize = omega arith in
    let left : dstsize - dstsize ≡ 0 = omega arith in
    let total : length b + dstsize ≡ dstsize + length b = omega arith in
    rw (
      bounded_end-length dstsize m dst a ha,
      at_end,
      dst_len,
      left,
      strlen-length m src b hb,
      total,
    )

-- What strlcat writes behind a first string of `a_len` characters: what fits of the second below
-- `dstsize` bytes with a NUL, and that NUL; nothing where the first is not shorter than `dstsize`.
abbrev pub appended : (dstsize a_len : ℕ) → List ℕ → List ℕ
appended dstsize a_len b = if leb dstsize a_len then [] else take (dstsize - a_len - 1) b ++ 0 ∷ []

-- strlcat writes behind the string at `dst` the characters of the one at `src` that fit below
-- `dstsize` bytes with a NUL, and that NUL, and nothing at all where the string at `dst` is not shorter
-- than `dstsize`. It returns the length of the string at `src` and the smaller of `dstsize` and the
-- length of the one at `dst`: the sum of the two lengths where that one is not longer than `dstsize`.
-- What is written is mapped and apart from the string at `src`.
pub strlcat-appended :
    (m : Mem) (dst src dstsize : ℕ) (a b : List ℕ)
    → IsString m dst a
    → IsString m src b
    → Mapped m (dst + length a) (length (appended dstsize (length a) b))
    → Apart (dst + length a) (length (appended dstsize (length a) b)) src (length b + 1)
    → strlcat m dst src dstsize
      ≡ some (
        min dstsize (length a) + length b,
        write_list m (dst + length a) (appended dstsize (length a) b),
      )
unfolding write_list
strlcat-appended m dst src dstsize a b ha hb room apart =
    elim (Bool-cases (leb dstsize (length a))) [
      | inl full ↦
          let all : min dstsize (length a) ≡ dstsize = ground (arith, full) in
          rw (full, all) (strlcat_full m dst src dstsize a b ha hb (ground (arith, full)))
      | inr short ↦
          let lt : length a < dstsize = ground (arith, short) in
          let all : min dstsize (length a) ≡ length a = omega (arith, lt) in
          let t = take (dstsize - length a - 1) b in
          let len : length (t ++ 0 ∷ []) ≡ length t + 1 = length-append t (0 ∷ []) in
          let room' : Mapped m (dst + length a) (length (t ++ 0 ∷ [])) = rw short at room in
          let apart' : Apart (dst + length a) (length (t ++ 0 ∷ [])) src (length b + 1) =
            rw short at apart in
          rw (short, all)
            (strlcat_room m dst src dstsize (dstsize - length a - 1) a b (omega (arith, lt)) ha hb
              (rw len at room') (rw len at apart'))
    ]
