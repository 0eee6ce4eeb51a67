-- ===== src/Printf/Field/Shown.antt =====
-- What put_with_field_width writes where the room may end in the value.
use osdev_libstdc.Base.{
  Bool, List, ap, append-nil, arith, false, if◌then◌else◌, inl, inr, length, length-replicate,
  length-take, replicate, some, sym, take, take-append, take_all, true, ℕ, ◌+◌, ◌-◌, ◌∙◌, ◌≡◌, ◌≤◌,
  ◌⊎◌,
}
use osdev_libstdc.Base.Int.{pos, ◌+ℤ◌, ◌-ℤ◌}
use osdev_libstdc.Memory.{Apart, Bytes, Mapped, Mem, write_list}
use osdev_libstdc.Memory.Strings.{Bytes-take}
use osdev_libstdc.Printf.Field.{clipped, left_of, padding_len, put_with_field_width}
use osdev_libstdc.Printf.Field.Laws.{field, length-field, put_part}
use osdev_libstdc.Printf.Spec.{FormatSpec}
use Prim.Native.Nat.{min}

pub Apart-le : (p n q k j : ℕ) → Apart p n q k → j ≤ k → Apart p n q j
Apart-le p n q k j (inl h) le = inl h
Apart-le p n q k j (inr h) le = inr (omega arith)

-- A field of `n` blanks and `len` characters in a room: all of it, or all the blanks, before the value,
-- or no blanks.
abbrev pub IsShown : (minus : Bool) → (n len room : ℕ) → Type 0
IsShown minus n len room = (n + len ≤ room) ⊎ ((minus ≡ false) × (n ≤ room)) ⊎ (n ≡ 0)

blanks_shown : (minus : Bool) (n len room : ℕ) → IsShown minus n len room → min n room ≡ n
blanks_shown minus n len room h = omega arith

value_shown :
    (minus : Bool) (n len room : ℕ)
    → IsShown minus n len room
    → clipped len (if minus then pos room else left_of (pos room) n) ≡ min (room - n) len
unfolding left_of ◌-ℤ◌
value_shown true n len room (inl h) = omega arith
value_shown true n len room (inr (inl h)) = absurd (ground (arith, h.0))
value_shown true n len room (inr (inr h)) = omega arith
value_shown false n len room h = ground arith

field_shown :
    (minus : Bool) (n room : ℕ) (bs : List ℕ)
    → IsShown minus n (length bs) room
    → field minus n (take (room - n) bs) ≡ take room (field minus n bs)
field_shown minus n room bs (inl h) =
    let len : length (field minus n bs) ≡ n + length bs = length-field minus n bs in
    ap (λ l. field minus n l) (take_all (room - n) bs (omega arith))
    ∙ sym (take_all room (field minus n bs) (omega (arith, len)))
field_shown true n room bs (inr (inl h)) = absurd (ground (arith, h.0))
field_shown true n room bs (inr (inr h)) =
    let all : room - 0 ≡ room = omega arith in
    rw (h, all) (append-nil (take room bs) ∙ ap (λ l. take room l) (sym (append-nil bs)))
field_shown false n room bs (inr h) =
    let blanks : length {A = ℕ} (replicate n 32) ≡ n = length-replicate n 32 in
    sym (take-append room (room - n) (replicate n 32) bs (omega (arith, blanks)))

-- Where all of the blanks fit the room, and without the minus flag also where the value behind them
-- does not, put_with_field_width writes the field of the value as far as the room goes and nothing
-- else, returns the address behind that, and adds the whole field to `total`. The same holds of a
-- value without blanks.
pub put_with_field_width-take :
    (m : Mem) (buf value room : ℕ) (bs : List ℕ) (spec : FormatSpec) (n : ℕ)
    → padding_len spec (length bs) ≡ n
    → IsShown (spec.flags.f_minus) n (length bs) room
    → Bytes m value bs
    → Mapped m buf (length (take room (field (spec.flags.f_minus) n bs)))
    → Apart buf (length (take room (field (spec.flags.f_minus) n bs))) value (length bs)
    → put_with_field_width m buf value (length bs) spec (pos room)
      ≡ some (
        buf + length (take room (field (spec.flags.f_minus) n bs)),
        record spec { total = spec.total +ℤ pos n +ℤ pos (length bs) },
        write_list m buf (take room (field (spec.flags.f_minus) n bs)),
      )
put_with_field_width-take m buf value room bs spec n wide shown h there apart =
    let minus = spec.flags.f_minus in
    let part = take (room - n) bs in
    let same : field minus n part ≡ take room (field minus n bs) =
      field_shown minus n room bs shown in
    let len : n + length part ≡ length (take room (field minus n bs)) =
      sym (length-field minus n part) ∙ ap length same in
    rw (sym len, sym same)
      (put_part m buf value (length bs) room part spec n wide (Bytes-take m value (room - n) bs h)
        (rw len there)
        (Apart-le buf (n + length part) value (length bs) (length part) (rw len apart)
          (omega (arith, length-take (room - n) bs)))
        (blanks_shown minus n (length bs) room shown)
        (value_shown minus n (length bs) room shown ∙ sym (length-take (room - n) bs)))
