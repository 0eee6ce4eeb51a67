-- ===== src/Ctype/Laws.antt =====
-- The character classes and the case conversions together.
use osdev_libstdc.Base.{Bool, arith, false, not, true, ℕ, ◌%◌, ◌+◌, ◌||◌, ◌≡◌}
use osdev_libstdc.Base.Bits.{bit_and-127}
use osdev_libstdc.Base.Int.{eqb_ℤ, negsuc, pos, to_unsigned, ℤ, ◌+ℤ◌, ◌-ℤ◌}
use osdev_libstdc.Ctype.{
  isalnum, isalpha, isascii, isblank, iscntrl, isdigit, isgraph, islower, isprint, ispunct, isspace,
  isupper, isxdigit, toascii, tolower, toupper,
}

-- 1 for a test that holds.
abbrev pub holds : Bool → ℕ
holds true = 1
holds false = 0

-- Every ASCII value is in exactly one of six classes: control characters, the space, upper case,
-- lower case, digits and punctuation; and a value that is not ASCII is in none of them.
classes_partition :
    (c : ℤ)
    → holds (iscntrl c)
        + holds (eqb_ℤ c (pos 32))
        + holds (isupper c)
        + holds (islower c)
        + holds (isdigit c)
        + holds (ispunct c)
      ≡ holds (isascii c)
unfolding iscntrl isupper islower isdigit ispunct isascii
classes_partition (pos n) = ground arith
classes_partition (negsuc n) = ground arith

-- The wider classes are unions of the smaller ones, for every `int`: letters, letters and digits,
-- visible characters, printable characters; and white space is what isspace says, blanks included.
classes_unions :
    (c : ℤ)
    → (isalpha c ≡ (islower c || isupper c))
      × (isalnum c ≡ (isalpha c || isdigit c))
      × (isgraph c ≡ (isalnum c || ispunct c))
      × (isprint c ≡ (isgraph c || eqb_ℤ c (pos 32)))
      × ((not (isblank c) || isspace c) ≡ true)
      × ((not (isdigit c) || isxdigit c) ≡ true)
      × ((not (isxdigit c) || isalnum c) ≡ true)
unfolding islower isupper isalpha isdigit isalnum ispunct isgraph isprint isblank isspace isxdigit
classes_unions (pos n) = (
  ground arith,
  ground arith,
  ground arith,
  ground arith,
  ground arith,
  ground arith,
  ground arith,
)
classes_unions (negsuc n) = (
  ground arith,
  ground arith,
  ground arith,
  ground arith,
  ground arith,
  ground arith,
  ground arith,
)

-- Of every `int` the classes fit together: an ASCII value is in exactly one of control characters, the
-- space, upper case, lower case, digits and punctuation, and no other value is in any; the wider
-- classes, which are letters, letters and digits, visible and printable characters, are the unions of
-- smaller ones; blanks are white space, and digits are hexadecimal digits, which are letters or digits.
pub classes_agree :
    (c : ℤ)
    → (holds (iscntrl c)
          + holds (eqb_ℤ c (pos 32))
          + holds (isupper c)
          + holds (islower c)
          + holds (isdigit c)
          + holds (ispunct c)
        ≡ holds (isascii c))
      × (isalpha c ≡ (islower c || isupper c))
      × (isalnum c ≡ (isalpha c || isdigit c))
      × (isgraph c ≡ (isalnum c || ispunct c))
      × (isprint c ≡ (isgraph c || eqb_ℤ c (pos 32)))
      × ((not (isblank c) || isspace c) ≡ true)
      × ((not (isdigit c) || isxdigit c) ≡ true)
      × ((not (isxdigit c) || isalnum c) ≡ true)
classes_agree c =
    let u = classes_unions c in (classes_partition c, u.0, u.1, u.2, u.3, u.4, u.5, u.6)

-- tolower turns exactly the upper case letters into lower case and changes no other value, toupper
-- the other way round; and each forgets what the other did.
pub case_conversions :
    (c : ℤ)
    → (islower (tolower c) ≡ isalpha c)
      × (isupper (toupper c) ≡ isalpha c)
      × (eqb_ℤ (tolower c) c ≡ not (isupper c))
      × (eqb_ℤ (toupper c) c ≡ not (islower c))
      × (toupper (tolower c) ≡ toupper c)
      × (tolower (toupper c) ≡ tolower c)
unfolding islower isupper isalpha tolower toupper ◌+ℤ◌ ◌-ℤ◌
case_conversions (pos n) =
    (ground arith, ground arith, ground arith, ground arith, ground arith, ground arith)
case_conversions (negsuc n) =
    (ground arith, ground arith, ground arith, ground arith, ground arith, ground arith)

-- toascii keeps the low seven bits: its result is an ASCII value, and the value itself where that was
-- one already.
pub toascii-mod :
    (c : ℤ) → (toascii c ≡ pos (to_unsigned 32 c % 128)) × (isascii (toascii c) ≡ true)
unfolding toascii isascii
toascii-mod c = ground (arith, bit_and-127 (to_unsigned 32 c))
