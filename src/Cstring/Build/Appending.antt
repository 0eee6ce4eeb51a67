-- ===== src/Cstring/Build/Appending.antt =====
-- Lemmas on strcat and strncat.
use osdev_libstdc.Base.{
  List, [], ap, append_assoc, arith, length, refl, some, suc, take, zero, ℕ, ◌++◌, ◌+◌, ◌-◌, ◌<◌,
  ◌∙◌, ◌∷◌, ◌≡◌,
}
use osdev_libstdc.Cstring.Build.{end_loop, strcat, strcat_loop, strncat, strncat_loop}
use osdev_libstdc.Memory.{Apart, Bytes, IsChars, IsString, Mapped, Mem, write, write_list}
use osdev_libstdc.Memory.Laws.{
  Bytes-append, Bytes-write_list, Bytes-write_list_self, Mapped-get, Mapped-sub, Mapped-write,
  is_some-load-write_list, store-eq-write, write_list-append,
}
use osdev_libstdc.Memory.Strings.{
  IsString-Bytes, IsString-lt-size, IsString-tail, IsString-write, length-string,
}

end_loop-length :
    (k : ℕ) (m : Mem) (p : ℕ) (s : List ℕ)
    → length s < k
    → IsString m p s
    → end_loop k m p ≡ some (p + length s)
unfolding end_loop
end_loop-length zero m p s lt h = absurd (omega arith)
end_loop-length (suc k) m p [] lt h = rw h.0.0 (ap some (omega arith))
end_loop-length (suc k) m p (c ∷ s) lt h =
    ground
      (arith, h.0.0, h.1.0, end_loop-length k m (p + 1) s (omega arith) (IsString-tail m p c s h))

strcat_loop-write_list :
    (k : ℕ) (m : Mem) (d p : ℕ) (s : List ℕ)
    → length s < k
    → IsString m p s
    → Mapped m d (length s)
    → Apart d (length s) p (length s + 1)
    → strcat_loop k m d p ≡ some (d + length s, write_list m d s)
unfolding strcat_loop write_list
strcat_loop-write_list zero m d p s lt h room apart = absurd (omega arith)
strcat_loop-write_list (suc k) m d p [] lt h room apart =
    let e : d + 0 ≡ d = omega arith in rw (h.0.0, e)
strcat_loop-write_list (suc k) m d p (c ∷ s) lt h room apart = ground (
  arith,
  h.0.0,
  h.1.0,
  store-eq-write m d c room.0,
  strcat_loop-write_list k (write m d c) (d + 1) (p + 1) s (omega arith)
      (IsString-write m (p + 1) s d c (omega arith) (IsString-tail m p c s h))
      (Mapped-write m (d + 1) (length s) d c room.0 room.1) (omega arith),
)

strncat_loop-write_list :
    (n : ℕ) (m : Mem) (d p : ℕ) (s : List ℕ)
    → IsString m p s
    → Mapped m d (length (take n s))
    → Apart d (length (take n s)) p (length s + 1)
    → strncat_loop n m d p ≡ some (d + length (take n s), write_list m d (take n s))
unfolding strncat_loop write_list
strncat_loop-write_list zero m d p [] h room apart =
    let e : d + 0 ≡ d = omega arith in rw (h.0.0, e)
strncat_loop-write_list zero m d p (c ∷ s) h room apart =
    let e : d + 0 ≡ d = omega arith in rw (h.0.0, e)
strncat_loop-write_list (suc n) m d p [] h room apart =
    let e : d + 0 ≡ d = omega arith in rw (h.0.0, e)
strncat_loop-write_list (suc n) m d p (c ∷ s) h room apart = ground (
  arith,
  h.0.0,
  h.1.0,
  store-eq-write m d c room.0,
  strncat_loop-write_list n (write m d c) (d + 1) (p + 1) s
      (IsString-write m (p + 1) s d c (omega arith) (IsString-tail m p c s h))
      (Mapped-write m (d + 1) (length (take n s)) d c room.0 room.1) (omega arith),
)

pub IsChars-append : (a b : List ℕ) → IsChars a → IsChars b → IsChars (a ++ b)
IsChars-append [] b ha hb = hb
IsChars-append (c ∷ a) b ha hb = (ha.0, ha.1, IsChars-append a b ha.2 hb)

pub IsChars-take : (n : ℕ) (s : List ℕ) → IsChars s → IsChars (take n s)
IsChars-take zero s h = tt
IsChars-take (suc n) [] h = tt
IsChars-take (suc n) (c ∷ s) h = (h.0, h.1, IsChars-take n s h.2)

-- Characters written at the end of a string, with a NUL behind them, make it longer.
IsString-extend :
    (m : Mem) (p : ℕ) (a b : List ℕ)
    → IsString m p a
    → IsChars b
    → Mapped m (p + length a) (length b + 1)
    → IsString (write_list m (p + length a) (b ++ 0 ∷ [])) p (a ++ b)
IsString-extend m p a b h chars room =
    let e : length b + 1 ≡ length (b ++ 0 ∷ []) = omega (arith, length-string b) in
    let m' = write_list m (p + length a) (b ++ 0 ∷ []) in
    let front : Bytes m' p a =
      Bytes-write_list m (p + length a) (b ++ 0 ∷ []) p a (omega arith) (IsString-Bytes m p a h) in
    let back : Bytes m' (p + length a) (b ++ 0 ∷ []) =
      Bytes-write_list_self m (p + length a) (b ++ 0 ∷ []) (rw e at room) in
    (
      rw (append_assoc a b (0 ∷ [])) (Bytes-append m' p a (b ++ 0 ∷ []) front back),
      IsChars-append a b h.1 chars,
    )

write_list-snoc :
    (m : Mem) (p : ℕ) (bs : List ℕ) (b : ℕ)
    → write_list m p (bs ++ b ∷ []) ≡ write (write_list m p bs) (p + length bs) b
unfolding write_list
write_list-snoc m p bs b = write_list-append m p bs (b ∷ [])

-- strcat returns `dest` and appends the string at `src` to the one there: where the bytes for it are
-- mapped and do not overlap `src`, it writes only behind the end of the first string, and leaves at
-- `dest` the two strings as one.
pub strcat-append :
    (m : Mem) (dest src : ℕ) (a b : List ℕ)
    → IsString m dest a
    → IsString m src b
    → Mapped m (dest + length a) (length b + 1)
    → Apart (dest + length a) (length b + 1) src (length b + 1)
    → (m' : Mem) × (strcat m dest src ≡ some (dest, m'))
      × (m' ≡ write_list m (dest + length a) (b ++ 0 ∷ []))
      × IsString m' dest (a ++ b)
unfolding strcat
strcat-append m dest src a b ha hb room apart =
    let d = dest + length a in
    let free = Mapped-get m d (length b + 1) (length b) room (omega arith) in
    let kept = Mapped-sub m d (length b + 1) (length b) room (omega arith) in
    (
      write_list m d (b ++ 0 ∷ []),
      rw (
        end_loop-length (m.size - dest) m dest a (omega (arith, IsString-lt-size m dest a ha)) ha,
        strcat_loop-write_list (m.size - src) m d src b (omega (arith, IsString-lt-size m src b hb))
            hb kept (omega arith),
        store-eq-write (write_list m d b) (d + length b) 0
            (is_some-load-write_list m d b (d + length b) kept ∙ free),
        write_list-snoc m d b 0,
      ),
      refl,
      IsString-extend m dest a b ha hb.1 room,
    )

-- strncat returns `dest` and appends the first `n` characters of the string at `src`, or all if they
-- are fewer, to the one at `dest`: where the bytes for them and a NUL are mapped and do not overlap
-- `src`, it writes only behind the end of the first string, and leaves at `dest` the two as one.
pub strncat-append :
    (m : Mem) (dest src n : ℕ) (a b : List ℕ)
    → IsString m dest a
    → IsString m src b
    → Mapped m (dest + length a) (length (take n b) + 1)
    → Apart (dest + length a) (length (take n b) + 1) src (length b + 1)
    → (m' : Mem) × (strncat m dest src n ≡ some (dest, m'))
      × (m' ≡ write_list m (dest + length a) (take n b ++ 0 ∷ []))
      × IsString m' dest (a ++ take n b)
unfolding strncat
strncat-append m dest src n a b ha hb room apart =
    let d = dest + length a in
    let t = take n b in
    let free = Mapped-get m d (length t + 1) (length t) room (omega arith) in
    let kept = Mapped-sub m d (length t + 1) (length t) room (omega arith) in
    (
      write_list m d (t ++ 0 ∷ []),
      rw (
        end_loop-length (m.size - dest) m dest a (omega (arith, IsString-lt-size m dest a ha)) ha,
        strncat_loop-write_list n m d src b hb kept (omega arith),
        store-eq-write (write_list m d t) (d + length t) 0
            (is_some-load-write_list m d t (d + length t) kept ∙ free),
        write_list-snoc m d t 0,
      ),
      refl,
      IsString-extend m dest a t ha (IsChars-take n b hb.1) room,
    )
