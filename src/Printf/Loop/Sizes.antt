-- ===== src/Printf/Loop/Sizes.antt =====
-- A conversion keeps the size of memory, whatever it converts.
use osdev_libstdc.Base.{
  List, Option, ltb, none, refl, some, suc, zero, ℕ, ◌%◌, ◌+◌, ◌/◌, ◌==◌, ◌||◌,
}
use osdev_libstdc.Base.Int.{ℤ}
use osdev_libstdc.Base.Returns.{Returns, Returns-bind, Returns-if, Returns-then}
use osdev_libstdc.Memory.{Mem, store}
use osdev_libstdc.Memory.Sizes.{Sized, Sized-then, store-Sized}
use osdev_libstdc.Printf.Args.{read_unsigned_number}
use osdev_libstdc.Printf.Args.Sizes.{
  format_signed-Sized, number_field-Sized, read_format_unsigned_int-Sized,
}
use osdev_libstdc.Printf.Field.{next_pointer}
use osdev_libstdc.Printf.Field.Sizes.{format_char-Sized, format_string-Sized}
use osdev_libstdc.Printf.Loop.{
  Frame, dispatch, format_pointer, pointer_spec, put_char, store_size, store_written,
}
use osdev_libstdc.Printf.Spec.{Arg, FormatSpec}

pub put_char-Sized :
    (m : Mem) (pos' c : ℕ) (spec : FormatSpec) (args : List Arg)
    → Returns (λ r. Sized m (r.2)) (put_char m pos' c spec args)
unfolding Returns put_char
put_char-Sized m pos' c spec args =
    Returns-bind (Sized m) _ (store m pos' c) _ (store-Sized m pos' c) λ m' h. h

store_size-Sized : (n : ℕ) (m : Mem) (p v : ℕ) → Returns (Sized m) (store_size n m p v)
unfolding Returns store_size
store_size-Sized zero m p v = refl
store_size-Sized (suc n) m p v =
    Sized-then m (λ x. x) (λ x. x) (store m p (v % 256)) _ (store-Sized m p (v % 256))
      λ m'. store_size-Sized n m' (p + 1) (v / 256)

store_written-Sized :
    (m : Mem) (pos' written : ℕ) (spec : FormatSpec) (args : List Arg) (p : Option ℕ)
    → Returns (λ r. Sized m (r.2)) (store_written m pos' written spec args p)
unfolding Returns store_written
store_written-Sized m pos' written spec args none = refl
store_written-Sized m pos' written spec args (some p) =
    Returns-bind (Sized m) _ (store_size 8 m p written) _ (store_size-Sized 8 m p written) λ m' h. h

module _ (m : Mem) (frame : Frame) where
  format_pointer-Sized :
      (pos' : ℕ) (spec : FormatSpec) (room past : ℤ) (args : List Arg)
      → Returns (λ r. Sized m (r.2)) (format_pointer m frame pos' spec room past args)
  unfolding format_pointer
  format_pointer-Sized pos' spec room past args =
      Returns-then _ (read_unsigned_number (spec.length_spec) args) _ λ v.
        Returns-if _ (ltb 0 (v.0)) _ _
          (number_field-Sized m (frame.number_str) pos' (v.0) (pointer_spec spec) room (v.1))
          (format_string-Sized m (frame.k_null) pos' spec past (v.1) (some (frame.k_nil)))

  pub dispatch-Sized :
      (c pos' written : ℕ) (spec : FormatSpec) (room past : ℤ) (args : List Arg)
      → Returns (λ r. Sized m (r.2)) (dispatch m frame c pos' written spec room past args)
  unfolding dispatch
  dispatch-Sized c pos' written spec room past args =
      let str = frame.number_str in
      Returns-if _ (c == b'%') _ _ (put_char-Sized m pos' c spec args) (
        Returns-if _ (c == b'd' || c == b'i') _ _ (format_signed-Sized m str pos' spec room args) (
          Returns-if _ (c == b'u') _ _ (read_format_unsigned_int-Sized m str pos' _ room args) (
            Returns-if _ (c == b'o') _ _ (read_format_unsigned_int-Sized m str pos' _ room args) (
              Returns-if _ (c == b'X') _ _ (read_format_unsigned_int-Sized m str pos' _ room args) (
                Returns-if _ (c == b'x') _ _ (read_format_unsigned_int-Sized m str pos' _ room args)
                  (Returns-if _ (c == b'p') _ _ (format_pointer-Sized pos' spec room past args) (
                    Returns-if _ (c == b'n') _ _
                      (Returns-then _ (next_pointer args) _
                        λ p. store_written-Sized m pos' written spec (p.1) (p.0))
                      (Returns-if _ (c == b'c') _ _
                        (format_char-Sized m (frame.c) pos' spec room args)
                        (Returns-if _ (c == b's') _ _
                          (format_string-Sized m (frame.k_null) pos' spec room args none)
                          (put_char-Sized m pos' c spec args))))))))))
