-- ===== src/Printf/Spec/Specifiers.antt =====
-- The specifiers that the cases of vsnprintf know, as the end of a directive.
use osdev_libstdc.Base.{Bool, arith, false, none, refl, ℕ, ◌==◌, ◌||◌, ◌≡◌}
use osdev_libstdc.Base.Int.{schar}
use osdev_libstdc.Ctype.{isdigit}
use osdev_libstdc.Printf.Spec.{FormatFlags, set_flag}
use osdev_libstdc.Printf.Spec.Written.{IsSpecifier}

-- Whether the parsers of a directive and of a size test for `x`, a flag or a digit apart.
abbrev is_tested : ℕ → Bool
is_tested x =
    x == b'*' || x == b'-' || x == b'.' || x == b'h' || x == b'l' || x == b'z' || x == b't'

other_char-IsSpecifier :
    (x : ℕ)
    → ((fl : FormatFlags) → set_flag fl x ≡ none)
    → isdigit (schar x) ≡ false
    → is_tested x ≡ false
    → IsSpecifier x
other_char-IsSpecifier x no_flag no_digit other = record {
  is_end = record {
    no_flag = no_flag;
    no_digit = no_digit;
    no_star = ground arith;
    no_minus = ground arith;
  };
  no_dot = ground arith;
  no_h = ground arith;
  no_l = ground arith;
  no_z = ground arith;
  no_t = ground arith;
}

pub signed-IsSpecifier : IsSpecifier b'd'
unfolding set_flag isdigit
signed-IsSpecifier = other_char-IsSpecifier b'd' (λ fl. refl) refl refl

pub integer-IsSpecifier : IsSpecifier b'i'
unfolding set_flag isdigit
integer-IsSpecifier = other_char-IsSpecifier b'i' (λ fl. refl) refl refl

pub pointer-IsSpecifier : IsSpecifier b'p'
unfolding set_flag isdigit
pointer-IsSpecifier = other_char-IsSpecifier b'p' (λ fl. refl) refl refl

pub unsigned-IsSpecifier : IsSpecifier b'u'
unfolding set_flag isdigit
unsigned-IsSpecifier = other_char-IsSpecifier b'u' (λ fl. refl) refl refl

pub octal-IsSpecifier : IsSpecifier b'o'
unfolding set_flag isdigit
octal-IsSpecifier = other_char-IsSpecifier b'o' (λ fl. refl) refl refl

pub hex-IsSpecifier : IsSpecifier b'x'
unfolding set_flag isdigit
hex-IsSpecifier = other_char-IsSpecifier b'x' (λ fl. refl) refl refl

pub big_hex-IsSpecifier : IsSpecifier b'X'
unfolding set_flag isdigit
big_hex-IsSpecifier = other_char-IsSpecifier b'X' (λ fl. refl) refl refl

pub char-IsSpecifier : IsSpecifier b'c'
unfolding set_flag isdigit
char-IsSpecifier = other_char-IsSpecifier b'c' (λ fl. refl) refl refl

pub string-IsSpecifier : IsSpecifier b's'
unfolding set_flag isdigit
string-IsSpecifier = other_char-IsSpecifier b's' (λ fl. refl) refl refl

pub percent-IsSpecifier : IsSpecifier b'%'
unfolding set_flag isdigit
percent-IsSpecifier = other_char-IsSpecifier b'%' (λ fl. refl) refl refl
