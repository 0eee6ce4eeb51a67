-- ===== src/Printf/Loop/Writes.antt =====
-- What a conversion writes, and put_with_field_width as the end of one.
use osdev_libstdc.Base.{
  List, Option, ap, arith, length, refl, some, sym, take, ℕ, ◌+◌, ◌>>=◌, ◌∙◌, ◌≡◌,
}
use osdev_libstdc.Base.Int.{pos, ℤ, ◌+ℤ◌}
use osdev_libstdc.Memory.{Apart, Bytes, Mapped, Mem, write_list}
use osdev_libstdc.Memory.Laws.{Bytes-write_list_self}
use osdev_libstdc.Printf.Field.{put_with_field_width}
use osdev_libstdc.Printf.Field.Laws.{blanks_of, field, length-field, padding_len-blanks_of}
use osdev_libstdc.Printf.Field.Shown.{IsShown, put_with_field_width-take}
use osdev_libstdc.Printf.Loop.{Converted, Frame}
use osdev_libstdc.Printf.Loop.Kept.{Kept, Kept-Mapped, Kept-trans, Kept-write_list}
use osdev_libstdc.Printf.Spec.{Arg, FormatSpec}

-- The result of a conversion that has written `out` from `p` on, with the total `t`.
abbrev pub Writes : Frame → Mem → (p t : ℕ) → (out : List ℕ) → List Arg → Option Converted → Type 0
Writes f m p t out args r =
    (spec : FormatSpec) × (m' : Mem) × (r ≡ some (p + length out, spec, m', args))
    × (spec.total ≡ pos t)
    × Kept f p (length out) m m'
    × Bytes m' p out

-- The same without the arguments: what the functions that end in put_with_field_width return.
abbrev pub Puts : Frame → Mem → (p t : ℕ) → (out : List ℕ) → Option (ℕ × FormatSpec × Mem) → Type 0
Puts f m p t out r =
    (spec : FormatSpec) × (m' : Mem) × (r ≡ some (p + length out, spec, m'))
    × (spec.total ≡ pos t)
    × Kept f p (length out) m m'
    × Bytes m' p out

abbrev pub with_args : Option (ℕ × FormatSpec × Mem) → List Arg → Option Converted
with_args r args = do (p', spec', m') ← r; some (p', spec', m', args)

pub of_eq-Writes :
    (f : Frame) (m : Mem) (p t : ℕ) (out : List ℕ) (args : List Arg) (r r' : Option Converted)
    → r ≡ r'
    → Writes f m p t out args r'
    → Writes f m p t out args r
of_eq-Writes f m p t out args r r' h (spec, m', e, total, kept, bytes) =
    (spec, m', h ∙ e, total, kept, bytes)

pub with_args-Writes :
    (f : Frame) (m : Mem) (p t : ℕ) (out : List ℕ) (args : List Arg)
    (r : Option (ℕ × FormatSpec × Mem))
    → Puts f m p t out r
    → Writes f m p t out args (with_args r args)
with_args-Writes f m p t out args r (spec, m', e, total, kept, bytes) =
    (spec, m', rw e refl, total, kept, bytes)

-- A value among blanks: what it looks like with the field width of `spec`.
abbrev pub in_field : FormatSpec → List ℕ → List ℕ
in_field spec bs = field (spec.flags.f_minus) (blanks_of spec (length bs)) bs

total-add : (t a b : ℕ) → pos t +ℤ pos a +ℤ pos b ≡ pos (t + (a + b))
unfolding ◌+ℤ◌
total-add t a b = ground arith

-- The room is enough for the field of `len` characters, or for its blanks, before the value.
abbrev pub IsRoom : FormatSpec → (len room : ℕ) → Type 0
IsRoom spec len room = IsShown (spec.flags.f_minus) (blanks_of spec len) len room

-- put_with_field_width behind a conversion that has changed `m` to `m'` within its scratch variables.
pub put-Writes :
    (f : Frame) (m m' : Mem) (p t value : ℕ) (bs : List ℕ) (spec : FormatSpec) (room : ℕ)
    → spec.total ≡ pos t
    → ((p n : ℕ) → Kept f p n m m')
    → Bytes m' value bs
    → IsRoom spec (length bs) room
    → Mapped m p (length (take room (in_field spec bs)))
    → Apart p (length (take room (in_field spec bs))) value (length bs)
    → Puts f m p
        (t + length (in_field spec bs))
        (take room (in_field spec bs))
        (put_with_field_width m' p value (length bs) spec (pos room))
put-Writes f m m' p t value bs spec room counted scratch there fits mapped apart =
    let out = take room (in_field spec bs) in
    let n = blanks_of spec (length bs) in
    let len = length-field (spec.flags.f_minus) n bs in
    let mapped' : Mapped m' p (length out) =
      Kept-Mapped f p 0 m m' (scratch p 0) p (length out) mapped in
    (
      record spec { total = spec.total +ℤ pos n +ℤ pos (length bs) },
      write_list m' p out,
      put_with_field_width-take m' p value room bs spec n (padding_len-blanks_of spec (length bs))
          fits there mapped' apart,
      ap (λ (z : ℤ). z +ℤ pos n +ℤ pos (length bs)) counted
          ∙ total-add t n (length bs)
          ∙ ap (λ (k : ℕ). pos (t + k)) (sym len),
      Kept-trans f p (length out) m m' (write_list m' p out) (scratch p (length out))
          (Kept-write_list f p (length out) m' p out mapped' (λ x h. h.1)),
      Bytes-write_list_self m' p out mapped',
    )
