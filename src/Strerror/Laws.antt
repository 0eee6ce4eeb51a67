-- ===== src/Strerror/Laws.antt =====
-- Lemmas on strerror and its table.
use osdev_libstdc.Base.{
  Bool, Bool-cases, List, Option, Option-cases, [], arith, false, get_elem?, if◌then◌else◌, inl,
  inr, is_some, leb, length, none, refl, some, suc, true, zero, ℕ, ◌&&◌, ◌<◌, ◌∷◌, ◌≡◌,
}
use osdev_libstdc.Base.Int.{leb_ℤ, pos, pos_part, ℤ}
use osdev_libstdc.Strerror.{einval, enotsup, errno_table, error_strings, strerror}
use Prim.Native.String.{String}
use text.Mathlib.Text.{◌==◌ as str_eq}
use text.Mathlib.TextEquality.{eq_iff}

get_elem?_below {ℓ} :
    {A : Type ℓ} (l : List A) (i : ℕ) → i < length l → is_some (get_elem? l i) ≡ true
get_elem?_below [] i h = absurd (omega arith)
get_elem?_below (x ∷ l) zero h = refl
get_elem?_below (x ∷ l) (suc i) h = get_elem?_below l i (omega arith)

abbrev in_range : ℤ → Bool
in_range errnum = leb_ℤ (pos 0) errnum && leb_ℤ errnum (pos enotsup)

strings_enough : length error_strings ≡ 135
unfolding error_strings
strings_enough = refl

-- strerror never reads outside its table. For a number from 0 to ENOTSUP it returns a message and
-- leaves errno; for any other `int` it returns null and sets errno to EINVAL.
pub strerror_total :
    (errno errnum : ℤ)
    → (message : Option String) × (strerror errno errnum
        ≡ some (if in_range errnum then errno else pos einval, message))
      × (is_some message ≡ in_range errnum)
unfolding strerror
strerror_total errno errnum = elim (Bool-cases (in_range errnum)) [
  | inl inside ↦ (
    get_elem? error_strings (pos_part errnum),
    ground (arith, get_elem?_below error_strings (pos_part errnum), strings_enough),
    ground (arith, get_elem?_below error_strings (pos_part errnum), strings_enough),
  )
  | inr outside ↦ (none, ground arith, ground arith)
]

-- Whether the message at the number of an entry is the entry's.
agrees : ℕ × String → Bool
agrees (n, text) = elim (get_elem? error_strings n) [ some t ↦ str_eq t text | none ↦ false ]

all_agree : List (ℕ × String) → Bool
unfolding agrees
all_agree [] = true
all_agree (e ∷ l) = agrees e && all_agree l

all_agree_sound :
    (l : List (ℕ × String)) (i n : ℕ) (text : String)
    → all_agree l ≡ true
    → get_elem? l i ≡ some (n, text)
    → get_elem? error_strings n ≡ some text
unfolding all_agree
all_agree_sound [] i n text h e = absurd (cc)
all_agree_sound ((k, t) ∷ l) zero n text h e = elim (Option-cases (get_elem? error_strings k)) [
  | inl gone ↦ absurd (ground arith)
  | inr (s, there) ↦ ground (arith, there, eq_iff s t)
]
all_agree_sound (x ∷ l) (suc i) n text h e = all_agree_sound l i n text (ground arith) e

table_agrees : all_agree errno_table ≡ true
unfolding all_agree errno_table error_strings
table_agrees = refl

-- For every error of cerrno.h with a number up to ENOTSUP, 95, strerror returns the text that stands
-- beside it there. For those with a higher number it returns null and sets errno to EINVAL, although
-- the table has their messages.
pub strerror_of_errno :
    (errno : ℤ) (i n : ℕ) (text : String)
    → get_elem? errno_table i ≡ some (n, text)
    → (get_elem? error_strings n ≡ some text)
      × (strerror errno (pos n)
          ≡ some (if leb n enotsup then (errno, some text) else (pos einval, none)))
unfolding strerror
strerror_of_errno errno i n text h =
    let there = all_agree_sound errno_table i n text table_agrees h in
    (there, ground (arith, there))
