-- ===== src/Printf/Number/Digits.antt =====
-- The characters that the loops of number_to_string collect, and what parse_number reads in them.
use osdev_libstdc.Base.{
  Bool, Bool-cases, List, [], ap, arith, get_elem?, inl, inr, length, ltb, none, refl, some, suc,
  true, zero, ℕ, ◌%◌, ◌*◌, ◌+◌, ◌-◌, ◌/◌, ◌<◌, ◌==◌, ◌^◌, ◌∙◌, ◌∷◌, ◌≡◌, ◌≤◌,
}
use osdev_libstdc.Memory.{Mapped, Mem, write, write_list}
use osdev_libstdc.Memory.Laws.{Mapped-write, store-eq-write}
use osdev_libstdc.Printf.Number.{
  digit_chars, digits_loop, max_number_len, out_loop, push, zeros_loop,
}
use osdev_libstdc.Printf.Spec.Decimal.{AreDigits, decimal}
use native.Mathlib.Nat.{pow-suc}

-- The entry of the table `digits` for a decimal digit.
get_digit : (huge : Bool) (d : ℕ) → d < 10 → get_elem? (digit_chars huge) d ≡ some (b'0' + d)
get_digit huge zero h = refl
get_digit huge (suc zero) h = refl
get_digit huge (suc (suc zero)) h = refl
get_digit huge (suc (suc (suc zero))) h = refl
get_digit huge (suc (suc (suc (suc zero)))) h = refl
get_digit huge (suc (suc (suc (suc (suc zero))))) h = refl
get_digit huge (suc (suc (suc (suc (suc (suc zero)))))) h = refl
get_digit huge (suc (suc (suc (suc (suc (suc (suc zero))))))) h = refl
get_digit huge (suc (suc (suc (suc (suc (suc (suc (suc zero)))))))) h = refl
get_digit huge (suc (suc (suc (suc (suc (suc (suc (suc (suc zero))))))))) h = refl
get_digit huge (suc (suc (suc (suc (suc (suc (suc (suc (suc (suc d)))))))))) h =
    absurd (omega arith)

-- With room for `k` digits more, the loop ends on a number below 10 ^ k.
pub digits_loop-decimal :
    (fuel k : ℕ) (huge : Bool) (nr : ℕ) (l : List ℕ)
    → k < fuel
    → nr < 10 ^ k
    → length l + k ≤ max_number_len
    → AreDigits l
    → (num_str : List ℕ) × (digits_loop fuel huge 10 nr l ≡ some num_str)
      × AreDigits num_str
      × (decimal 0 num_str ≡ decimal nr l)
      × (length num_str ≤ length l + k)
      × (length l ≤ length num_str)
      × (0 < nr → length l < length num_str)
unfolding digits_loop push
digits_loop-decimal zero k huge nr l h low room digits = absurd (omega arith)
digits_loop-decimal (suc fuel) zero huge nr l h low room digits =
    let none_left : nr ≡ 0 = omega arith in
    (
      l,
      rw none_left refl,
      digits,
      rw none_left refl,
      omega arith,
      omega arith,
      λ above. absurd (omega arith),
    )
digits_loop-decimal (suc fuel) (suc k) huge nr l h low room digits = elim (Bool-cases (nr == 0)) [
  | inl done ↦
      let none_left : nr ≡ 0 = ground arith in
      (
        l,
        rw done refl,
        digits,
        rw none_left refl,
        omega arith,
        omega arith,
        λ above. absurd (omega arith),
      )
  | inr more ↦
      let c = b'0' + nr % 10 in
      let free : ltb (length l) 66 ≡ true = ground arith in
      let (num_str, e, ds, val, len, grown, more_grown) =
        digits_loop-decimal fuel k huge (nr / 10) (c ∷ l) (omega arith)
          (omega (arith, pow-suc 10 k)) (omega arith) (omega arith, omega arith, digits) in
      let whole : nr / 10 * 10 + (c - b'0') ≡ nr = omega arith in
      (
        num_str,
        rw (more, get_digit huge (nr % 10) (omega arith), free) e,
        ds,
        val ∙ ap (λ v. decimal v l) whole,
        omega arith,
        omega arith,
        λ above. omega arith,
      )
]

-- Leading zeros change neither the number nor that all are digits, as far as they fit.
pub zeros_loop-decimal :
    (n : ℕ) (l : List ℕ)
    → length l + n ≤ max_number_len
    → AreDigits l
    → (filled : List ℕ) × (zeros_loop n l ≡ some filled)
      × AreDigits filled
      × (decimal 0 filled ≡ decimal 0 l)
      × (length filled ≡ length l + n)
unfolding zeros_loop push
zeros_loop-decimal zero l room digits = (l, refl, digits, refl, omega arith)
zeros_loop-decimal (suc n) l room digits =
    let free : ltb (length l) 66 ≡ true = ground arith in
    let (filled, e, ds, val, len) =
      zeros_loop-decimal n (b'0' ∷ l) (omega arith) (omega arith, omega arith, digits) in
    (filled, rw free e, ds, val, omega (arith, len))

-- One zero more than there is room for is a fault.
pub zeros_loop_full :
    (n : ℕ) (l : List ℕ)
    → max_number_len < length l + n
    → length l ≤ max_number_len
    → zeros_loop n l ≡ none
unfolding zeros_loop push
zeros_loop_full zero l over room = absurd (omega arith)
zeros_loop_full (suc n) l over room = elim (Bool-cases (ltb (length l) 66)) [
  | inl free ↦ rw free (zeros_loop_full n (b'0' ∷ l) (omega arith) (ground arith))
  | inr full ↦ rw full
]

-- The output loop writes the characters, one behind the other.
pub out_loop-write_list :
    (m : Mem) (buf : ℕ) (cs : List ℕ)
    → Mapped m buf (length cs)
    → out_loop m buf cs ≡ some (write_list m buf cs)
unfolding out_loop write_list
out_loop-write_list m buf [] room = refl
out_loop-write_list m buf (c ∷ cs) room = rw (store-eq-write m buf c room.0) (
    out_loop-write_list (write m buf c) (buf + 1) cs
      (Mapped-write m (buf + 1) (length cs) buf c room.0 room.1))
