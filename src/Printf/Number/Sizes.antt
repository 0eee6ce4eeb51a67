-- ===== src/Printf/Number/Sizes.antt =====
-- number_to_string of src/vsnprintf.cpp keeps the size of memory.
use osdev_libstdc.Base.{
  List, [], drop, if◌then◌else◌, length, ltb, refl, some, ℕ, ◌&&◌, ◌+◌, ◌-◌, ◌==◌, ◌∷◌,
}
use osdev_libstdc.Base.Int.{eqb_ℤ, pos, pos_part, ◌-ℤ◌}
use osdev_libstdc.Base.Returns.{Returns, Returns-bind, Returns-if, Returns-then}
use osdev_libstdc.Memory.{Mem, store}
use osdev_libstdc.Memory.Sizes.{Sized, Sized-then, store-Sized}
use osdev_libstdc.Printf.Number.{
  digits_loop, max_number_len, number_to_string, out_loop, push, push_prefix, zeros_loop,
  zeros_wanted,
}
use osdev_libstdc.Printf.Spec.{FormatSpec}
use Prim.Native.Nat.{min}

out_loop-Sized : (m : Mem) (buf : ℕ) (cs : List ℕ) → Returns (Sized m) (out_loop m buf cs)
unfolding Returns out_loop
out_loop-Sized m buf [] = refl
out_loop-Sized m buf (c ∷ cs) =
    Sized-then m (λ x. x) (λ x. x) (store m buf c) _ (store-Sized m buf c)
      λ m'. out_loop-Sized m' (buf + 1) cs

pub number_to_string-Sized :
    (m : Mem) (buf number : ℕ) (spec : FormatSpec) (size : ℕ)
    → Returns (λ r. Sized m r.1) (number_to_string m buf number spec size)
unfolding Returns number_to_string
number_to_string-Sized m buf number spec size =
    Returns-if _ (eqb_ℤ (spec.precision) (pos 0) && (number == 0)) _ _ refl (
      Returns-then _
        (if number == 0
          then push [] b'0'
          else digits_loop (max_number_len + 1) (spec.flags.f_huge) (spec.radix) number [])
        _
        λ whole.
          Returns-then _
            (zeros_loop
              (min (pos_part (zeros_wanted spec number (spec.precision -ℤ pos (length whole))))
                size)
              whole)
            _
            λ filled.
              Returns-then _
                (if spec.flags.f_alt && ltb 0 number
                  then push_prefix (spec.flags.f_huge) (spec.radix) filled
                  else some filled)
                _
                λ num_str.
                  let cs = drop (length num_str - min (length num_str) size) num_str in
                  Returns-bind (Sized m) _ (out_loop m buf cs) _ (out_loop-Sized m buf cs)
                    λ m' h. h)
