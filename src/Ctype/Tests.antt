-- ===== src/Ctype/Tests.antt =====
-- The theorems on cctype.cpp at concrete characters.
use osdev_libstdc.Base.{false, not, refl, true, ◌+◌, ◌||◌, ◌≡◌}
use osdev_libstdc.Base.Int.{eqb_ℤ, negsuc, pos}
use osdev_libstdc.Ctype.{
  isalnum, isalpha, isascii, isblank, iscntrl, isdigit, isgraph, islower, isprint, ispunct, isspace,
  isupper, isxdigit, toascii, tolower, toupper,
}
use osdev_libstdc.Ctype.Laws.{case_conversions, classes_agree, holds}

classes_agree_example :
    (holds (iscntrl (pos 95))
        + holds (eqb_ℤ (pos 95) (pos 32))
        + holds (isupper (pos 95))
        + holds (islower (pos 95))
        + holds (isdigit (pos 95))
        + holds (ispunct (pos 95))
      ≡ 1)
    × (isalpha (pos 95) ≡ (islower (pos 95) || isupper (pos 95)))
    × (isalnum (pos 95) ≡ (isalpha (pos 95) || isdigit (pos 95)))
    × (isgraph (pos 95) ≡ (isalnum (pos 95) || ispunct (pos 95)))
    × (isprint (pos 95) ≡ (isgraph (pos 95) || false))
    × ((not (isblank (pos 95)) || isspace (pos 95)) ≡ true)
    × ((not (isdigit (pos 95)) || isxdigit (pos 95)) ≡ true)
    × ((not (isxdigit (pos 95)) || isalnum (pos 95)) ≡ true)
unfolding isascii
classes_agree_example = classes_agree (pos 95)

case_conversions_example :
    (islower (tolower (pos 65)) ≡ isalpha (pos 65))
    × (isupper (toupper (pos 65)) ≡ isalpha (pos 65))
    × (eqb_ℤ (tolower (pos 65)) (pos 65) ≡ not (isupper (pos 65)))
    × (eqb_ℤ (toupper (pos 65)) (pos 65) ≡ not (islower (pos 65)))
    × (toupper (tolower (pos 65)) ≡ toupper (pos 65))
    × (tolower (toupper (pos 65)) ≡ tolower (pos 65))
case_conversions_example = case_conversions (pos 65)

toascii_runs : (toascii (pos 200) ≡ pos 72) × (toascii (negsuc 0) ≡ pos 127)
unfolding toascii
toascii_runs = (refl, refl)
