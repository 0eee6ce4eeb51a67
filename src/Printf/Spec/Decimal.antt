-- ===== src/Printf/Spec/Decimal.antt =====
-- What parse_number reads in decimal digits.
use osdev_libstdc.Base.{
  List, [], ap, arith, false, is_some, length, ltb, some, suc, sym, true, zero, ℕ, ◌*◌, ◌+◌, ◌-◌,
  ◌<◌, ◌∙◌, ◌∷◌, ◌≡◌, ◌≤◌,
}
use osdev_libstdc.Base.Int.{schar}
use osdev_libstdc.Ctype.{isdigit}
use osdev_libstdc.Memory.{Bytes, Mem, load}
use osdev_libstdc.Memory.Laws.{load-lt-size}
use osdev_libstdc.Printf.Spec.{int_limit, parse_number, parse_number_loop}

-- The number that decimal digits stand for, read behind a number `v`.
abbrev pub decimal : ℕ → List ℕ → ℕ
decimal v [] = v
decimal v (c ∷ s) = decimal (v * 10 + (c - b'0')) s

abbrev pub AreDigits : List ℕ → Type 0
AreDigits [] = Unit
AreDigits (c ∷ s) = (b'0' ≤ c) × (c ≤ b'9') × AreDigits s

pub le-decimal : (v : ℕ) (s : List ℕ) → v ≤ decimal v s
le-decimal v [] = omega arith
le-decimal v (c ∷ s) = omega (arith, le-decimal (v * 10 + (c - b'0')) s)

-- parse_number reads the digits that stand in memory, up to the first other character.
parse_number_loop-decimal :
    (k : ℕ) (m : Mem) (str v stop : ℕ) (s : List ℕ)
    → length s < k
    → Bytes m str s
    → AreDigits s
    → load m (str + length s) ≡ some stop
    → isdigit (schar stop) ≡ false
    → decimal v s < int_limit
    → parse_number_loop k m str v ≡ some (str + length s, decimal v s)
unfolding parse_number_loop isdigit
parse_number_loop-decimal zero m str v stop s lt h digits ends other fits = absurd (omega arith)
parse_number_loop-decimal (suc k) m str v stop [] lt h digits ends other fits =
    let here : str + length {A = ℕ} [] ≡ str = omega arith in
    let ends' : load m str ≡ some stop = ap (load m) (sym here) ∙ ends in
    rw (ends', other) (ap (λ (p : ℕ). some (p, v)) (sym here))
parse_number_loop-decimal (suc k) m str v stop (c ∷ s) lt h digits ends other fits =
    let below : v * 10 + (c - b'0') < int_limit =
      omega (arith, le-decimal (v * 10 + (c - b'0')) s) in
    let is_digit : isdigit (schar c) ≡ true = ground arith in
    let in_range : ltb (v * 10 + (c - b'0')) int_limit ≡ true = ground arith in
    let next : str + suc (length s) ≡ str + 1 + length s = omega arith in
    rw (h.0, is_digit, in_range, next)
      (parse_number_loop-decimal k m (str + 1) (v * 10 + (c - b'0')) stop s (omega arith) h.1
        digits.2 (rw next at ends) other fits)

-- parse_number reads the decimal digits at `str` up to the first other character, and returns their
-- number, as far as it is an `int`, and the address of that character.
pub parse_number-decimal :
    (m : Mem) (str stop : ℕ) (s : List ℕ)
    → Bytes m str s
    → AreDigits s
    → load m (str + length s) ≡ some stop
    → isdigit (schar stop) ≡ false
    → decimal 0 s < int_limit
    → parse_number m str ≡ some (str + length s, decimal 0 s)
unfolding parse_number
parse_number-decimal m str stop s h digits ends other fits =
    let mapped : str + length s < m.size = load-lt-size m (str + length s) (ap is_some ends) in
    parse_number_loop-decimal (m.size - str) m str 0 stop s (omega arith) h digits ends other fits
