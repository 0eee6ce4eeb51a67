-- ===== src/Printf/Field/Laws.antt =====
-- What put_with_field_width writes, with room and without.
use osdev_libstdc.Base.{
  Bool, Bool-cases, List, ap, arith, false, if◌then◌else◌, inl, inr, length, length-append,
  length-replicate, refl, replicate, some, true, ℕ, ◌++◌, ◌+◌, ◌-◌, ◌==◌, ◌∙◌, ◌≡◌,
}
use osdev_libstdc.Base.Int.{negsuc, pos, pos_part, ℤ, ◌+ℤ◌, ◌-ℤ◌}
use osdev_libstdc.Cstring.Copy.{mempcpy, memset}
use osdev_libstdc.Cstring.Copy.Laws.{mempcpy-write_list, memset-write_list}
use osdev_libstdc.Memory.{Apart, Bytes, Mapped, Mem, store, write_list}
use osdev_libstdc.Memory.Laws.{
  Bytes-write_list, Mapped-shift, Mapped-sub, Mapped-write_list, write_list-append,
}
use osdev_libstdc.Printf.Field.{
  clipped, format_number, left_of, padding_len, put_with_field_width, zeros_as_precision,
}
use osdev_libstdc.Printf.Number.{max_number_len, number_to_string}
use osdev_libstdc.Printf.Spec.{FormatSpec}
use Prim.Native.Nat.{min}

-- The field: the value among blanks.
abbrev pub field : (minus : Bool) → (padding : ℕ) → List ℕ → List ℕ
field minus padding bs = if minus then bs ++ replicate padding 32 else replicate padding 32 ++ bs

-- The blanks that a value of `len` characters lacks for the field width. A negative width asks for none.
abbrev pub lacking : (width : ℤ) → (len : ℕ) → ℕ
lacking (pos w) len = w - len
lacking (negsuc k) len = 0

abbrev pub blanks_of : FormatSpec → (len : ℕ) → ℕ
blanks_of spec len = lacking (spec.field_width) len

lacking-pos_part : (width : ℤ) (len : ℕ) → pos_part (width -ℤ pos len) ≡ lacking width len
unfolding ◌-ℤ◌
lacking-pos_part (pos w) len = ground arith
lacking-pos_part (negsuc k) len = ground arith

pub padding_len-blanks_of :
    (spec : FormatSpec) (len : ℕ) → padding_len spec len ≡ blanks_of spec len
padding_len-blanks_of spec len = lacking-pos_part (spec.field_width) len

pub length-field : (minus : Bool) (n : ℕ) (bs : List ℕ) → length (field minus n bs) ≡ n + length bs
length-field true n bs =
    let blanks : length {A = ℕ} (replicate n 32) ≡ n = length-replicate n 32 in
    omega (arith, length-append bs (replicate n 32), blanks)
length-field false n bs =
    let blanks : length {A = ℕ} (replicate n 32) ≡ n = length-replicate n 32 in
    omega (arith, length-append (replicate n 32) bs, blanks)

module _ (m : Mem) (buf value : ℕ) (bs : List ℕ) (n : ℕ) (h : Bytes m value bs)
    (room : Mapped m buf (n + length bs))
    (apart : Apart buf (n + length bs) value (length bs)) where
  blanks_there : memset m buf (pos 32) n ≡ some (buf, write_list m buf (replicate n 32))
  blanks_there =
      memset-write_list m buf (pos 32) n (Mapped-sub m buf (n + length bs) n room (omega arith))

  value_behind :
      mempcpy (write_list m buf (replicate n 32)) (buf + n) value (length bs)
      ≡ some (buf + (n + length bs), write_list m buf (replicate n 32 ++ bs))
  value_behind =
      let wide : length (replicate n 32) ≡ n = length-replicate n 32 in
      let end : buf + (n + length bs) ≡ buf + n + length bs = omega arith in
      let kept : Bytes (write_list m buf (replicate n 32)) value bs =
        Bytes-write_list m buf (replicate n 32) value bs (omega (arith, wide)) h in
      let free : Mapped (write_list m buf (replicate n 32)) (buf + n) (length bs) =
        Mapped-write_list m buf (replicate n 32) (buf + n) (length bs)
          (rw wide (Mapped-sub m buf (n + length bs) n room (omega arith)))
          (Mapped-shift m buf n (length bs) room) in
      let both : write_list m buf (replicate n 32 ++ bs)
          ≡ write_list (write_list m buf (replicate n 32)) (buf + n) bs =
        write_list-append m buf (replicate n 32) bs
        ∙ ap (λ (k : ℕ). write_list (write_list m buf (replicate n 32)) (buf + k) bs) wide in
      mempcpy-write_list (write_list m buf (replicate n 32)) (buf + n) value bs kept free
        (inl (omega arith))
      ∙ rw (end, both) refl

  value_first : mempcpy m buf value (length bs) ≡ some (buf + length bs, write_list m buf bs)
  value_first =
      mempcpy-write_list m buf value bs h
        (Mapped-sub m buf (n + length bs) (length bs) room (omega arith)) (inl (omega arith))

  blanks_behind :
      memset (write_list m buf bs) (buf + length bs) (pos 32) n
      ≡ some (buf + length bs, write_list m buf (bs ++ replicate n 32))
  blanks_behind =
      let turned : n + length bs ≡ length bs + n = omega arith in
      let room' : Mapped m buf (length bs + n) = rw turned at room in
      memset-write_list (write_list m buf bs) (buf + length bs) (pos 32) n (
        Mapped-write_list m buf bs (buf + length bs) n
          (Mapped-sub m buf (n + length bs) (length bs) room (omega arith))
          (Mapped-shift m buf (length bs) n room'))
      ∙ rw (write_list-append m buf bs (replicate n 32)) refl

-- put_with_field_width where the room lets through the `n` blanks and the part `bs` of the value.
pub put_part :
    (m : Mem) (buf value len room : ℕ) (bs : List ℕ) (spec : FormatSpec) (n : ℕ)
    → padding_len spec len ≡ n
    → Bytes m value bs
    → Mapped m buf (n + length bs)
    → Apart buf (n + length bs) value (length bs)
    → min n room ≡ n
    → clipped len (if spec.flags.f_minus then pos room else left_of (pos room) n) ≡ length bs
    → put_with_field_width m buf value len spec (pos room)
      ≡ some (
        buf + (n + length bs),
        record spec { total = spec.total +ℤ pos n +ℤ pos len },
        write_list m buf (field (spec.flags.f_minus) n bs),
      )
unfolding put_with_field_width
put_part m buf value len room bs spec n wide h there apart blanks part =
    let end : buf + (n + length bs) ≡ buf + length bs + n = omega arith in
    elim (Bool-cases (spec.flags.f_minus)) [
      | inl minus ↦
          rw
            (
              wide,
              minus,
              rw minus at part,
              value_first m buf value bs n h there apart,
              blanks,
              blanks_behind m buf value bs n h there apart,
              end,
            )
            refl
      | inr plain ↦
          rw
            (
              wide,
              plain,
              blanks,
              blanks_there m buf value bs n h there apart,
              rw plain at part,
              value_behind m buf value bs n h there apart,
            )
            refl
    ]

-- The character of the sign, 0 if there is none.
abbrev pub sign_char : (negative plus space : Bool) → ℕ
sign_char negative plus space =
    if negative then b'-' else if plus then b'+' else if space then 32 else 0

-- The place of the digits in `number_str`.
abbrev pub digits_at : (sign : ℕ) → ℕ
digits_at sign = if sign == 0 then 0 else 1

pub zeros_as_precision_lem :
    (sign : ℕ) (spec : FormatSpec) → spec.flags.f_zero ≡ false → zeros_as_precision sign spec ≡ spec
unfolding zeros_as_precision
zeros_as_precision_lem sign spec e = simp e

-- How format_number is put together.
pub format_number_lem :
    (m m' m'' : Mem) (number_str buf number len : ℕ) (spec spec' : FormatSpec) (size : ℤ) (sign : ℕ)
    → sign_char (spec.negative) (spec.flags.f_plus) (spec.flags.f_space) ≡ sign
    → zeros_as_precision sign spec ≡ spec'
    → store m number_str sign ≡ some m'
    → number_to_string m' (number_str + digits_at sign) number spec' max_number_len
      ≡ some (len, m'')
    → format_number m number_str buf number spec size
      ≡ put_with_field_width m'' buf number_str (len + digits_at sign) spec' size
unfolding format_number
format_number_lem m m' m'' number_str buf number len spec spec' size sign signed zeros stored
      written =
    simp (signed, zeros, stored, written)
