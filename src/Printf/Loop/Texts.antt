-- ===== src/Printf/Loop/Texts.antt =====
-- Lemmas on put_char, format_char and format_string with room for what they write.
use osdev_libstdc.Base.{
  List, Option, [], ap, arith, is_some, length, none, refl, some, subst, take, true, ℕ, ◌+◌, ◌<◌,
  ◌^◌, ◌∙◌, ◌∷◌, ◌≡◌,
}
use osdev_libstdc.Base.Int.{pos, to_unsigned, ℤ, ◌+ℤ◌}
use osdev_libstdc.Memory.{Apart, Bytes, IsString, Mapped, Mem, load, write, write_list}
use osdev_libstdc.Memory.Laws.{Bytes-write_list_self, load-write_self, store-eq-write}
use osdev_libstdc.Memory.Strings.{Bytes-take}
use osdev_libstdc.Printf.Field.{format_char, format_string, or_null, put_with_field_width}
use osdev_libstdc.Printf.Field.Strings.{
  cut_string, cut_string-Bytes, format_string_of_string, string_len-cut_string,
}
use osdev_libstdc.Printf.Loop.{Frame, put_char}
use osdev_libstdc.Printf.Loop.Kept.{Kept-refl, Kept-write_list}
use osdev_libstdc.Printf.Loop.Room.{measured}
use osdev_libstdc.Printf.Loop.Writes.{
  IsRoom, Writes, in_field, of_eq-Writes, put-Writes, with_args, with_args-Writes,
}
use osdev_libstdc.Printf.Spec.{Arg, FormatSpec, int_arg, next_int, pointer_arg}

total_suc : (t : ℕ) (total : ℤ) → total ≡ pos t → total +ℤ pos 1 ≡ pos (t + 1)
unfolding ◌+ℤ◌
total_suc t total e = rw e (ground arith)

pub put_char-Writes :
    (f : Frame) (m : Mem) (p t c : ℕ) (spec : FormatSpec) (args : List Arg)
    → spec.total ≡ pos t
    → is_some (load m p) ≡ true
    → Writes f m p (t + 1) (c ∷ []) args (put_char m p c spec args)
unfolding put_char ◌+ℤ◌ write_list
put_char-Writes f m p t c spec args counted free = (
  record spec { total = spec.total +ℤ pos 1 },
  write m p c,
  rw (store-eq-write m p c free) refl,
  total_suc t (spec.total) counted,
  Kept-write_list f p 1 m p (c ∷ []) (free, tt) (λ x h. h.1),
  Bytes-write_list_self m p (c ∷ []) (free, tt),
)

pub format_char-Writes :
    (f : Frame) (m : Mem) (p t : ℕ) (v : ℤ) (spec : FormatSpec) (room : ℕ) (args : List Arg)
    → spec.total ≡ pos t
    → is_some (load m (f.c)) ≡ true
    → IsRoom spec 1 room
    → Mapped m p (length (take room (in_field spec (to_unsigned 8 v ∷ []))))
    → Apart p (length (take room (in_field spec (to_unsigned 8 v ∷ [])))) (f.c) 1
    → Writes f m p
        (t + length (in_field spec (to_unsigned 8 v ∷ [])))
        (take room (in_field spec (to_unsigned 8 v ∷ [])))
        args
        (format_char m (f.c) p spec (pos room) (int_arg v ∷ args))
unfolding format_char next_int write_list
format_char-Writes f m p t v spec room args counted free fits mapped apart =
    let c = to_unsigned 8 v in
    let m' = write m (f.c) c in
    let put =
      put-Writes f m m' p t (f.c) (c ∷ []) spec room counted
        (λ q n. Kept-write_list f q n m (f.c) (c ∷ []) (free, tt) (λ x h. omega arith))
        (load-write_self m (f.c) c free, tt) fits mapped apart in
    rw (store-eq-write m (f.c) c free) (
      with_args-Writes f m p (t + length (in_field spec (c ∷ [])))
        (take room (in_field spec (c ∷ []))) args
        (put_with_field_width m' p (f.c) 1 spec (pos room)) put)

pub format_string-Writes :
    (f : Frame) (m : Mem) (p t : ℕ) (given : Option ℕ) (s : List ℕ) (spec : FormatSpec) (room : ℕ)
    (args : List Arg) (bs : List ℕ)
    → take room (cut_string (spec.precision) s) ≡ bs
    → spec.total ≡ pos t
    → IsString m (or_null (f.k_null) given) s
    → IsRoom spec (length bs) room
    → Mapped m p (length (take room (in_field spec bs)))
    → Apart p (length (take room (in_field spec bs))) (or_null (f.k_null) given) (length bs)
    → room < 2 ^ 64
    → Writes f m p
        (t + length (in_field spec bs))
        (take room (in_field spec bs))
        args
        (format_string m (f.k_null) p spec (pos room) (pointer_arg given ∷ args) none)
format_string-Writes f m p t given s spec room args bs measured counted h fits mapped apart low =
    let str = or_null (f.k_null) given in
    let out = take room (in_field spec bs) in
    let put = put_with_field_width m p str (length bs) spec (pos room) in
    of_eq-Writes f m p (t + length (in_field spec bs)) out args
      (format_string m (f.k_null) p spec (pos room) (pointer_arg given ∷ args) none)
      (with_args put args)
      (format_string_of_string m (f.k_null) p (length bs) given spec (pos room) args (
        string_len-cut_string m str room s spec (spec.precision) refl h low
        ∙ ap (λ (l : List ℕ). some (length l)) measured))
      (with_args-Writes f m p (t + length (in_field spec bs)) out args put (
        put-Writes f m m p t str bs spec room counted (λ q n. Kept-refl f q n m)
          (subst (Bytes m str) measured (
            Bytes-take m str room (cut_string (spec.precision) s)
              (cut_string-Bytes m str (spec.precision) s h)))
          fits mapped apart))
