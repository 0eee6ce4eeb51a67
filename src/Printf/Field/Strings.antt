-- ===== src/Printf/Field/Strings.antt =====
-- Lemmas on format_string of a string that is given.
-- The part of a string that the precision lets through.
use osdev_libstdc.Base.{
  List, Option, ap, arith, false, leb, length, length-take, none, refl, some, suc, take, true, ℕ,
  ◌%◌, ◌+◌, ◌<◌, ◌^◌, ◌∙◌, ◌∷◌, ◌≡◌, ◌≤◌,
}
use osdev_libstdc.Base.Int.{negsuc, pos, ℤ}
use osdev_libstdc.Cstring.Length.Laws.{strnlen-min}
use osdev_libstdc.Memory.{Bytes, IsString, Mem}
use osdev_libstdc.Memory.Strings.{Bytes-take, IsString-Bytes}
use osdev_libstdc.Printf.Field.{
  format_string, next_pointer, or_null, put_with_field_width, s_or_next, string_len,
}
use osdev_libstdc.Printf.Loop.Writes.{with_args}
use osdev_libstdc.Printf.Spec.{Arg, FormatSpec, pointer_arg}
use Prim.Native.Nat.{min}

abbrev pub cut_string : (precision : ℤ) → List ℕ → List ℕ
cut_string (pos n) s = take n s
cut_string (negsuc n) s = s

pub length-cut_string : (precision : ℤ) (s : List ℕ) → length (cut_string precision s) ≤ length s
length-cut_string (pos n) s = omega (arith, length-take n s)
length-cut_string (negsuc n) s = omega arith

pub cut_string-Bytes :
    (m : Mem) (str : ℕ) (precision : ℤ) (s : List ℕ)
    → IsString m str s
    → Bytes m str (cut_string precision s)
cut_string-Bytes m str (pos n) s h = Bytes-take m str n s (IsString-Bytes m str s h)
cut_string-Bytes m str (negsuc n) s h = IsString-Bytes m str s h

-- The room ends the string as well.
pub string_len-cut_string :
    (m : Mem) (str room : ℕ) (s : List ℕ) (spec : FormatSpec) (precision : ℤ)
    → spec.precision ≡ precision
    → IsString m str s
    → room < 2 ^ 64
    → string_len m str spec (pos room) ≡ some (length (take room (cut_string precision s)))
unfolding string_len
string_len-cut_string m str room s spec (pos n) e h low =
    let given : leb 0 (n + 0) ≡ true = ground arith in
    rw (e, given)
      (strnlen-min m str (min n room) s h
        ∙ ap some (omega (arith, length-take n s, length-take room (take n s))))
string_len-cut_string m str room s spec (negsuc n) e h low =
    let whole : room % 2 ^ 64 ≡ room = omega arith in
    let given : leb (0 + suc n) 0 ≡ false = ground arith in
    rw (e, whole, given) (strnlen-min m str room s h ∙ ap some (omega (arith, length-take room s)))

pub format_string_of_string :
    (m : Mem) (k_null buf len : ℕ) (str : Option ℕ) (spec : FormatSpec) (size : ℤ) (args : List Arg)
    → string_len m (or_null k_null str) spec size ≡ some len
    → format_string m k_null buf spec size (pointer_arg str ∷ args) none
      ≡ with_args (put_with_field_width m buf (or_null k_null str) len spec size) args
unfolding format_string s_or_next next_pointer
format_string_of_string m k_null buf len (some p) spec size args e = rw e refl
format_string_of_string m k_null buf len none spec size args e = rw e refl
