-- ===== src/Printf/Spec/Sizes.antt =====
-- The sizes of arguments, as they are written before a specifier.
use osdev_libstdc.Base.{List, [], arith, false, length, refl, some, sym, ℕ, ◌+◌, ◌==◌, ◌∷◌, ◌≡◌}
use osdev_libstdc.Ctype.{isdigit}
use osdev_libstdc.Memory.{Bytes, Mem, load}
use osdev_libstdc.Printf.Spec.{FormatSpec, LengthSpec, parse_size_specifier, set_flag}
use osdev_libstdc.Printf.Spec.Written.{IsEnd, IsSpecifier}

-- A specifier with a size before it; `null` is none.
abbrev pub specifier_text : LengthSpec → ℕ → List ℕ
specifier_text LengthSpec.null x = x ∷ []
specifier_text LengthSpec.h x = b'h' ∷ x ∷ []
specifier_text LengthSpec.hh x = b'h' ∷ b'h' ∷ x ∷ []
specifier_text LengthSpec.l x = b'l' ∷ x ∷ []
specifier_text LengthSpec.ll x = b'l' ∷ b'l' ∷ x ∷ []
specifier_text LengthSpec.z x = b'z' ∷ x ∷ []
specifier_text LengthSpec.t x = b't' ∷ x ∷ []

abbrev pub size_len : LengthSpec → ℕ
size_len LengthSpec.null = 0
size_len LengthSpec.h = 1
size_len LengthSpec.hh = 2
size_len LengthSpec.l = 1
size_len LengthSpec.ll = 2
size_len LengthSpec.z = 1
size_len LengthSpec.t = 1

abbrev pub sized : LengthSpec → FormatSpec → FormatSpec
sized ls spec = record spec { length_spec = ls }

-- The first character of a specifier with its size.
abbrev pub leading : LengthSpec → ℕ → ℕ
leading LengthSpec.null x = x
leading LengthSpec.h x = b'h'
leading LengthSpec.hh x = b'h'
leading LengthSpec.l x = b'l'
leading LengthSpec.ll x = b'l'
leading LengthSpec.z x = b'z'
leading LengthSpec.t x = b't'

pub leading-IsEnd : (ls : LengthSpec) (x : ℕ) → IsSpecifier x → IsEnd (leading ls x)
unfolding set_flag isdigit
leading-IsEnd LengthSpec.null x h = h.is_end
leading-IsEnd LengthSpec.h x h = record {
  no_flag = λ fl. refl;
  no_digit = refl;
  no_star = refl;
  no_minus = refl;
}
leading-IsEnd LengthSpec.hh x h = record {
  no_flag = λ fl. refl;
  no_digit = refl;
  no_star = refl;
  no_minus = refl;
}
leading-IsEnd LengthSpec.l x h = record {
  no_flag = λ fl. refl;
  no_digit = refl;
  no_star = refl;
  no_minus = refl;
}
leading-IsEnd LengthSpec.ll x h = record {
  no_flag = λ fl. refl;
  no_digit = refl;
  no_star = refl;
  no_minus = refl;
}
leading-IsEnd LengthSpec.z x h = record {
  no_flag = λ fl. refl;
  no_digit = refl;
  no_star = refl;
  no_minus = refl;
}
leading-IsEnd LengthSpec.t x h = record {
  no_flag = λ fl. refl;
  no_digit = refl;
  no_star = refl;
  no_minus = refl;
}

pub leading_no_dot : (ls : LengthSpec) (x : ℕ) → IsSpecifier x → (leading ls x == b'.') ≡ false
leading_no_dot LengthSpec.null x h = h.no_dot
leading_no_dot LengthSpec.h x h = refl
leading_no_dot LengthSpec.hh x h = refl
leading_no_dot LengthSpec.l x h = refl
leading_no_dot LengthSpec.ll x h = refl
leading_no_dot LengthSpec.z x h = refl
leading_no_dot LengthSpec.t x h = refl

pub length-specifier_text :
    (ls : LengthSpec) (x : ℕ) → length (specifier_text ls x) ≡ size_len ls + 1
length-specifier_text LengthSpec.null x = refl
length-specifier_text LengthSpec.h x = refl
length-specifier_text LengthSpec.hh x = refl
length-specifier_text LengthSpec.l x = refl
length-specifier_text LengthSpec.ll x = refl
length-specifier_text LengthSpec.z x = refl
length-specifier_text LengthSpec.t x = refl

module _ (m : Mem) (q x : ℕ) where
  pub leading_there :
      (ls : LengthSpec) → Bytes m q (specifier_text ls x) → load m q ≡ some (leading ls x)
  leading_there LengthSpec.null h = h.0
  leading_there LengthSpec.h h = h.0
  leading_there LengthSpec.hh h = h.0
  leading_there LengthSpec.l h = h.0
  leading_there LengthSpec.ll h = h.0
  leading_there LengthSpec.z h = h.0
  leading_there LengthSpec.t h = h.0

  second : (k : ℕ) → load m (q + 1 + 1) ≡ some k → load m (q + 2) ≡ some k
  second k h = let e : q + 1 + 1 ≡ q + 2 = omega arith in rw e at h

  pub specifier_there :
      (ls : LengthSpec) → Bytes m q (specifier_text ls x) → load m (q + size_len ls) ≡ some x
  specifier_there LengthSpec.null h = let e : q + 0 ≡ q = omega arith in rw e (h.0)
  specifier_there LengthSpec.h h = h.1.0
  specifier_there LengthSpec.hh h = second x (h.1.1.0)
  specifier_there LengthSpec.l h = h.1.0
  specifier_there LengthSpec.ll h = second x (h.1.1.0)
  specifier_there LengthSpec.z h = h.1.0
  specifier_there LengthSpec.t h = h.1.0

  pub parse_size_specifier-sized :
      (ls : LengthSpec) (spec : FormatSpec)
      → spec.length_spec ≡ LengthSpec.null
      → IsSpecifier x
      → Bytes m q (specifier_text ls x)
      → parse_size_specifier m q spec ≡ some (q + size_len ls, sized ls spec)
  unfolding parse_size_specifier
  parse_size_specifier-sized LengthSpec.null spec none_yet ok h =
      let e : q + 0 ≡ q = omega arith in
      rw (h.0, ok.no_h, ok.no_l, ok.no_z, ok.no_t, e, sym none_yet) refl
  parse_size_specifier-sized LengthSpec.h spec none_yet ok h = rw (h.0, h.1.0, ok.no_h) refl
  parse_size_specifier-sized LengthSpec.hh spec none_yet ok h = rw (h.0, h.1.0) refl
  parse_size_specifier-sized LengthSpec.l spec none_yet ok h = rw (h.0, h.1.0, ok.no_l) refl
  parse_size_specifier-sized LengthSpec.ll spec none_yet ok h = rw (h.0, h.1.0) refl
  parse_size_specifier-sized LengthSpec.z spec none_yet ok h = rw (h.0) refl
  parse_size_specifier-sized LengthSpec.t spec none_yet ok h = rw (h.0) refl
