-- ===== src/Ctype.antt =====
-- src/cctype.cpp. The `int` that a test returns is its truth value, and `c` is any `int`.
pub mod Laws
mod Tests
use osdev_libstdc.Base.{Bool, if◌then◌else◌, ℕ, ◌&&◌, ◌-◌, ◌||◌}
use osdev_libstdc.Base.Int.{eqb_ℤ, leb_ℤ, pos, to_unsigned, ℤ, ◌+ℤ◌, ◌-ℤ◌}
use Prim.Native.Nat.{bit_and}

abbrev int_between : ℕ → ℕ → ℤ → Bool
int_between lo hi c = leb_ℤ (pos lo) c && leb_ℤ c (pos hi)

pub toascii : ℤ → ℤ
toascii c = pos (bit_and (to_unsigned 32 c) 0x7f)

pub isascii : ℤ → Bool
isascii c = int_between 0 127 c

pub isalnum : ℤ → Bool
isalnum c = int_between b'a' b'z' c || int_between b'A' b'Z' c || int_between b'0' b'9' c

pub isalpha : ℤ → Bool
isalpha c = int_between b'a' b'z' c || int_between b'A' b'Z' c

pub isblank : ℤ → Bool
isblank c = eqb_ℤ c (pos 9) || eqb_ℤ c (pos 32)

pub iscntrl : ℤ → Bool
iscntrl c = int_between 0 31 c || eqb_ℤ c (pos 127)

unfoldable pub isdigit : ℤ → Bool
isdigit c = int_between b'0' b'9' c

pub isgraph : ℤ → Bool
isgraph c = int_between 33 126 c

unfoldable pub islower : ℤ → Bool
islower c = int_between b'a' b'z' c

pub isprint : ℤ → Bool
isprint c = int_between 32 126 c

pub ispunct : ℤ → Bool
ispunct c =
    int_between 33 47 c || int_between 58 64 c || int_between 91 96 c || int_between 123 126 c

pub isspace : ℤ → Bool
isspace c = int_between 9 13 c || eqb_ℤ c (pos 32)

unfoldable pub isupper : ℤ → Bool
isupper c = int_between b'A' b'Z' c

pub isxdigit : ℤ → Bool
isxdigit c = int_between b'0' b'9' c || int_between b'a' b'f' c || int_between b'A' b'F' c

unfoldable pub tolower : ℤ → ℤ
unfolding ◌+ℤ◌
tolower c = if int_between b'A' b'Z' c then c +ℤ pos (b'a' - b'A') else c

unfoldable pub toupper : ℤ → ℤ
unfolding ◌-ℤ◌
toupper c = if int_between b'a' b'z' c then c -ℤ pos (b'a' - b'A') else c
