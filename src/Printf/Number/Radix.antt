-- ===== src/Printf/Number/Radix.antt =====
-- Numerals in base 8, 10 and 16, and the digits that number_to_string collects.
use osdev_libstdc.Base.{
  Bool, Bool-cases, List, [], ap, append-nil, append_assoc, arith, false, get_elem?, if◌then◌else◌,
  inl, inr, length, length-append, ltb, ltb→lt, refl, some, suc, sym, true, zero, ℕ, ◌%◌, ◌++◌, ◌+◌,
  ◌-◌, ◌/◌, ◌<◌, ◌==◌, ◌^◌, ◌∙◌, ◌∷◌, ◌≡◌, ◌≤◌, ◌⊎◌,
}
use osdev_libstdc.Printf.Number.{digit_chars, digits_loop, max_number_len, push}
use native.Mathlib.Nat.{pow-suc, pow-zero}

abbrev pub digit_char : (huge : Bool) → ℕ → ℕ
digit_char huge d = if ltb d 10 then b'0' + d else (if huge then b'A' else b'a') + (d - 10)

-- The digits of `n` in base `radix`, the highest first, as many as `k` at most.
abbrev pub digits_of : (k : ℕ) → (huge : Bool) → (radix n : ℕ) → List ℕ
digits_of zero huge radix n = []
digits_of (suc k) huge radix n =
    if ltb n radix
    then digit_char huge n ∷ []
    else digits_of k huge radix (n / radix) ++ digit_char huge (n % radix) ∷ []

-- The numeral of an `unsigned long long`, which has at most 22 digits in the bases 8, 10 and 16.
unfoldable pub numeral : (huge : Bool) → (radix n : ℕ) → List ℕ
numeral huge radix n = digits_of 22 huge radix n

abbrev pub IsRadix : ℕ → Type 0
IsRadix r = (r ≡ 8) ⊎ ((r ≡ 10) ⊎ (r ≡ 16))

digit_chars_at :
    (huge : Bool) (d : ℕ) → d < 16 → get_elem? (digit_chars huge) d ≡ some (digit_char huge d)
digit_chars_at true zero h = refl
digit_chars_at false zero h = refl
digit_chars_at true (suc zero) h = refl
digit_chars_at false (suc zero) h = refl
digit_chars_at true (suc (suc zero)) h = refl
digit_chars_at false (suc (suc zero)) h = refl
digit_chars_at true (suc (suc (suc zero))) h = refl
digit_chars_at false (suc (suc (suc zero))) h = refl
digit_chars_at true (suc (suc (suc (suc zero)))) h = refl
digit_chars_at false (suc (suc (suc (suc zero)))) h = refl
digit_chars_at true (suc (suc (suc (suc (suc zero))))) h = refl
digit_chars_at false (suc (suc (suc (suc (suc zero))))) h = refl
digit_chars_at true (suc (suc (suc (suc (suc (suc zero)))))) h = refl
digit_chars_at false (suc (suc (suc (suc (suc (suc zero)))))) h = refl
digit_chars_at true (suc (suc (suc (suc (suc (suc (suc zero))))))) h = refl
digit_chars_at false (suc (suc (suc (suc (suc (suc (suc zero))))))) h = refl
digit_chars_at true (suc (suc (suc (suc (suc (suc (suc (suc zero)))))))) h = refl
digit_chars_at false (suc (suc (suc (suc (suc (suc (suc (suc zero)))))))) h = refl
digit_chars_at true (suc (suc (suc (suc (suc (suc (suc (suc (suc zero))))))))) h = refl
digit_chars_at false (suc (suc (suc (suc (suc (suc (suc (suc (suc zero))))))))) h = refl
digit_chars_at true (suc (suc (suc (suc (suc (suc (suc (suc (suc (suc zero)))))))))) h = refl
digit_chars_at false (suc (suc (suc (suc (suc (suc (suc (suc (suc (suc zero)))))))))) h = refl
digit_chars_at true (suc (suc (suc (suc (suc (suc (suc (suc (suc (suc (suc zero))))))))))) h = refl
digit_chars_at false (suc (suc (suc (suc (suc (suc (suc (suc (suc (suc (suc zero))))))))))) h = refl
digit_chars_at true (suc (suc (suc (suc (suc (suc (suc (suc (suc (suc (suc (suc zero)))))))))))) h =
    refl
digit_chars_at false (suc (suc (suc (suc (suc (suc (suc (suc (suc (suc (suc (suc zero))))))))))))
      h =
    refl
digit_chars_at true
      (suc (suc (suc (suc (suc (suc (suc (suc (suc (suc (suc (suc (suc zero))))))))))))) h =
    refl
digit_chars_at false
      (suc (suc (suc (suc (suc (suc (suc (suc (suc (suc (suc (suc (suc zero))))))))))))) h =
    refl
digit_chars_at true
      (suc (suc (suc (suc (suc (suc (suc (suc (suc (suc (suc (suc (suc (suc zero)))))))))))))) h =
    refl
digit_chars_at false
      (suc (suc (suc (suc (suc (suc (suc (suc (suc (suc (suc (suc (suc (suc zero)))))))))))))) h =
    refl
digit_chars_at true
      (suc (suc (suc (suc (suc (suc (suc (suc (suc (suc (suc (suc (suc (suc (suc zero)))))))))))))))
      h =
    refl
digit_chars_at false
      (suc (suc (suc (suc (suc (suc (suc (suc (suc (suc (suc (suc (suc (suc (suc zero)))))))))))))))
      h =
    refl
digit_chars_at huge
      (suc
        (suc (suc (suc (suc (suc (suc (suc (suc (suc (suc (suc (suc (suc (suc (suc d))))))))))))))))
      h =
    absurd (omega arith)

div_below : (r k n : ℕ) → IsRadix r → n < r ^ suc k → n / r < r ^ k
div_below r k n (inl e) h = let h' : n < 8 ^ suc k = rw e at h in rw e (omega (arith, pow-suc 8 k))
div_below r k n (inr (inl e)) h =
    let h' : n < 10 ^ suc k = rw e at h in rw e (omega (arith, pow-suc 10 k))
div_below r k n (inr (inr e)) h =
    let h' : n < 16 ^ suc k = rw e at h in rw e (omega (arith, pow-suc 16 k))

mod_below : (r n : ℕ) → IsRadix r → n % r < 16
mod_below r n (inl e) = rw e (omega arith)
mod_below r n (inr (inl e)) = rw e (omega arith)
mod_below r n (inr (inr e)) = rw e (omega arith)

div_small : (r n : ℕ) → IsRadix r → n < r → (n / r ≡ 0) × (n % r ≡ n)
div_small r n (inl e) h = let h' : n < 8 = rw e at h in rw e (omega arith, omega arith)
div_small r n (inr (inl e)) h = let h' : n < 10 = rw e at h in rw e (omega arith, omega arith)
div_small r n (inr (inr e)) h = let h' : n < 16 = rw e at h in rw e (omega arith, omega arith)

div_positive : (r n : ℕ) → IsRadix r → r ≤ n → 0 < n / r
div_positive r n (inl e) h = let h' : 8 ≤ n = rw e at h in rw e (omega arith)
div_positive r n (inr (inl e)) h = let h' : 10 ≤ n = rw e at h in rw e (omega arith)
div_positive r n (inr (inr e)) h = let h' : 16 ≤ n = rw e at h in rw e (omega arith)

length-digits_of : (k : ℕ) (huge : Bool) (r n : ℕ) → length (digits_of k huge r n) ≤ k
length-digits_of zero huge r n = omega arith
length-digits_of (suc k) huge r n = elim (Bool-cases (ltb n r)) [
  | inl one ↦ rw one (omega arith)
  | inr more ↦ rw more (
      omega (
        arith,
        length-append (digits_of k huge r (n / r)) (digit_char huge (n % r) ∷ []),
        length-digits_of k huge r (n / r),
      ))
]

digits_loop_round :
    (fuel : ℕ) (huge : Bool) (r n : ℕ) (l : List ℕ)
    → IsRadix r
    → 0 < n
    → length l < max_number_len
    → digits_loop (suc fuel) huge r n l
      ≡ digits_loop fuel huge r (n / r) (digit_char huge (n % r) ∷ l)
unfolding digits_loop push
digits_loop_round fuel huge r n l radix above room =
    let more : (n == 0) ≡ false = ground arith in
    let free : ltb (length l) 66 ≡ true = ground arith in
    rw (more, digit_chars_at huge (n % r) (mod_below r n radix), free) refl

digits_loop_done :
    (fuel : ℕ) (huge : Bool) (r : ℕ) (l : List ℕ) → digits_loop (suc fuel) huge r 0 l ≡ some l
unfolding digits_loop
digits_loop_done fuel huge r l = refl

digits_loop-digits_of :
    (fuel k : ℕ) (huge : Bool) (r n : ℕ) (l : List ℕ)
    → IsRadix r
    → k < fuel
    → 0 < n
    → n < r ^ k
    → length l + k ≤ max_number_len
    → digits_loop fuel huge r n l ≡ some (digits_of k huge r n ++ l)
digits_loop-digits_of zero k huge r n l radix lt above low room = absurd (omega arith)
digits_loop-digits_of (suc fuel) zero huge r n l radix lt above low room =
    absurd (omega (arith, pow-zero r))
digits_loop-digits_of (suc zero) (suc k) huge r n l radix lt above low room = absurd (omega arith)
digits_loop-digits_of (suc (suc fuel)) (suc k) huge r n l radix lt above low room =
    let space : length l < max_number_len = omega (arith, room) in
    digits_loop_round (suc fuel) huge r n l radix above space ∙ elim (Bool-cases (ltb n r)) [
      | inl one ↦
          let small = div_small r n radix (ltb→lt n r one) in
          rw (one, small.0, small.1) (digits_loop_done fuel huge r (digit_char huge n ∷ l))
      | inr more ↦
          let c = digit_char huge (n % r) in
          let big : r ≤ n = ground arith in
          rw more (
            digits_loop-digits_of (suc fuel) k huge r (n / r) (c ∷ l) radix (omega arith)
              (div_positive r n radix big) (div_below r k n radix low) (omega arith)
            ∙ ap some (sym (append_assoc (digits_of k huge r (n / r)) (c ∷ []) l)))
    ]

numeral_fits : (r n : ℕ) → IsRadix r → n < 2 ^ 64 → n < r ^ 22
numeral_fits r n (inl e) h = rw e (omega arith)
numeral_fits r n (inr (inl e)) h = rw e (omega arith)
numeral_fits r n (inr (inr e)) h = rw e (omega arith)

zero_below : (r : ℕ) → IsRadix r → ltb 0 r ≡ true
zero_below r (inl e) = rw e refl
zero_below r (inr (inl e)) = rw e refl
zero_below r (inr (inr e)) = rw e refl

-- The digits that number_to_string collects are the numeral.
pub whole-numeral :
    (huge : Bool) (r n : ℕ)
    → IsRadix r
    → n < 2 ^ 64
    → (if n == 0 then push [] b'0' else digits_loop (max_number_len + 1) huge r n [])
      ≡ some (numeral huge r n)
unfolding numeral push
whole-numeral huge r n radix low = elim (Bool-cases (n == 0)) [
  | inl none_left ↦ let e : n ≡ 0 = ground arith in rw e (rw (zero_below r radix) refl)
  | inr more ↦ rw more (
      digits_loop-digits_of 67 22 huge r n [] radix (omega arith) (ground arith)
        (numeral_fits r n radix low) (omega arith)
      ∙ ap some (append-nil (digits_of 22 huge r n)))
]

pub length-numeral : (huge : Bool) (r n : ℕ) → length (numeral huge r n) ≤ 22
unfolding numeral
length-numeral huge r n = length-digits_of 22 huge r n
