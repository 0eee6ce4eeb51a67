-- ===== src/Printf/Field/Ends.antt =====
-- Where put_with_field_width ends, whatever room there is.
use osdev_libstdc.Base.{
  Bool, Bool-cases, ap, arith, false, if◌then◌else◌, inl, inr, refl, some, true, ℕ, ◌+◌, ◌-◌, ◌==◌,
  ◌↔◌, ◌∙◌, ◌≡◌, ◌≤◌,
}
use osdev_libstdc.Base.Int.{pos, to_unsigned, ℤ, ◌-ℤ◌}
use osdev_libstdc.Base.Returns.{Returns, Returns-bind, Returns-if, Returns-then}
use osdev_libstdc.Cstring.Copy.{copy_loop, memcpy, mempcpy, memset, set_loop}
use osdev_libstdc.Memory.{Mem}
use osdev_libstdc.Printf.Field.{clipped, left_of, padding_len, put_with_field_width}
use osdev_libstdc.Printf.Field.Laws.{blanks_of, padding_len-blanks_of}
use osdev_libstdc.Printf.Field.Shown.{IsShown}
use osdev_libstdc.Printf.Spec.{FormatSpec}
use Prim.Native.Nat.{min}

mempcpy_end : (m : Mem) (d s n : ℕ) → Returns (λ r. r.0 ≡ d + n) (mempcpy m d s n)
unfolding Returns mempcpy memcpy
mempcpy_end m d s n =
    Returns-bind (λ r. r.0 ≡ d) _ (memcpy m d s n) _
      (Returns-if _ (d == s) _ _ refl (Returns-then _ (copy_loop n m d s) _ λ m'. refl))
      λ r h. ap (λ (x : ℕ). x + n) h

memset_end : (m : Mem) (d : ℕ) (v : ℤ) (n : ℕ) → Returns (λ r. r.0 ≡ d) (memset m d v n)
unfolding Returns memset
memset_end m d v n = Returns-then _ (set_loop n m d (to_unsigned 8 v)) _ λ m'. refl

-- The characters of the value that are written behind `n` blanks.
left_of-clipped : (len k n : ℕ) → clipped len (left_of (pos k) n) ≡ min len (k - n)
unfolding left_of ◌-ℤ◌
left_of-clipped len k n = ground arith

-- The address that is returned.
abbrev end_of : (minus : Bool) → (buf n len k : ℕ) → ℕ
end_of minus buf n len k = if minus then buf + min len k + n else buf + n + min len (k - n)

put_end :
    (m : Mem) (buf value len k : ℕ) (spec : FormatSpec)
    → Returns
        (λ r. r.0 ≡ end_of (spec.flags.f_minus) buf (padding_len spec len) len k)
        (put_with_field_width m buf value len spec (pos k))
unfolding Returns put_with_field_width
put_end m buf value len k spec =
    let n = padding_len spec len in
    let part = clipped len (left_of (pos k) n) in
    elim (Bool-cases (spec.flags.f_minus)) [
      | inl minus ↦ rw minus (
          Returns-bind (λ r. r.0 ≡ buf + min len k) _ (mempcpy m buf value (min len k)) _
            (mempcpy_end m buf value (min len k))
            λ r h.
              Returns-then _ (memset (r.1) (r.0) (pos 32) (min n k)) _
                λ r'. ap (λ (x : ℕ). x + n) h)
      | inr plain ↦ rw plain (
          Returns-then _ (memset m buf (pos 32) (min n k)) _ λ r.
            Returns-bind (λ r'. r'.0 ≡ buf + n + part) _ (mempcpy (r.1) (buf + n) value part) _
              (mempcpy_end (r.1) (buf + n) value part)
              λ r' h. h ∙ ap (λ (x : ℕ). buf + n + x) (left_of-clipped len k n))
    ]

end_of_iff :
    (minus : Bool) (buf n len k : ℕ) → (end_of minus buf n len k ≤ buf + k) ↔ IsShown minus n len k
end_of_iff true buf n len k = (λ h. ground arith, λ h. ground arith)
end_of_iff false buf n len k = (λ h. ground arith, λ h. ground arith)

-- Whatever stands in memory, where put_with_field_width, with room for `k` characters at `buf`, does
-- not fault it returns an address that is not past the room exactly if the whole field fits it, or without the minus flag the
-- blanks before the value do, or the field has no blanks. Everywhere else that address lies
-- behind the room.
pub put_with_field_width_iff :
    (m m' : Mem) (buf value len k q : ℕ) (spec spec' : FormatSpec)
    → put_with_field_width m buf value len spec (pos k) ≡ some (q, spec', m')
    → (q ≤ buf + k) ↔ IsShown (spec.flags.f_minus) (blanks_of spec len) len k
unfolding Returns
put_with_field_width_iff m m' buf value len k q spec spec' h =
    let e : q ≡ end_of (spec.flags.f_minus) buf (padding_len spec len) len k =
      rw h at (put_end m buf value len k spec) in
    rw (e, padding_len-blanks_of spec len)
      (end_of_iff (spec.flags.f_minus) buf (blanks_of spec len) len k)
