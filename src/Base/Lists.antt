-- ===== src/Base/Lists.antt =====
-- Lists measured and indexed by native numbers, under the library's names.
use Prim.Native.Nat.{ℕ, zero, suc, ◌+◌, ◌-◌, ◌≤◌, min}
use mathlib.Core.Path.{◌≡◌, refl, ap}
use mathlib.Core.List.{List, [], ◌∷◌, ◌++◌, map}
use mathlib.Core.Option.{Option, none, some}
use mathlib.Core.Option
use mathlib.Core.Bool.{Bool, false, ◌||◌}
use osdev_libstdc.Base.Tests.{if◌then◌else◌, Bool-cases}
use mathlib.Core.Logic.{◌⊎◌, inl, inr}
use native.Mathlib.Omega.{arith}

module _ {ℓ} {A : Type ℓ} where
  abbrev pub length : List A → ℕ
  length [] = 0
  length (x ∷ xs) = suc (length xs)

  abbrev pub get_elem? : List A → ℕ → Option A
  get_elem? [] i = none
  get_elem? (x ∷ xs) zero = some x
  get_elem? (x ∷ xs) (suc i) = get_elem? xs i

  abbrev pub take : ℕ → List A → List A
  take zero xs = []
  take (suc n) [] = []
  take (suc n) (x ∷ xs) = x ∷ take n xs

  abbrev pub drop : ℕ → List A → List A
  drop zero xs = xs
  drop (suc n) [] = []
  drop (suc n) (x ∷ xs) = drop n xs

  abbrev pub replicate : ℕ → A → List A
  replicate zero a = []
  replicate (suc n) a = a ∷ replicate n a

module _ {ℓ} {A : Type ℓ} where
  pub length-append : (xs ys : List A) → length (xs ++ ys) ≡ length xs + length ys
  length-append [] ys = omega arith
  length-append (x ∷ xs) ys = omega (arith, length-append xs ys)

  pub length-replicate : (n : ℕ) (a : A) → length (replicate n a) ≡ n
  length-replicate zero a = refl
  length-replicate (suc n) a = ap suc (length-replicate n a)

  pub length-take : (n : ℕ) (xs : List A) → length (take n xs) ≡ min n (length xs)
  length-take zero xs = omega arith
  length-take (suc n) [] = omega arith
  length-take (suc n) (x ∷ xs) = omega (arith, length-take n xs)

  pub take-append :
      (k n : ℕ) (xs ys : List A) → k ≡ length xs + n → take k (xs ++ ys) ≡ xs ++ take n ys
  take-append k n [] ys e = ap (λ (j : ℕ). take j ys) (omega (arith, e))
  take-append zero n (x ∷ xs) ys e = absurd (omega (arith, e))
  take-append (suc k) n (x ∷ xs) ys e = ap (λ l. x ∷ l) (take-append k n xs ys (omega (arith, e)))

  pub take_all : (n : ℕ) (xs : List A) → length xs ≤ n → take n xs ≡ xs
  take_all zero [] h = refl
  take_all zero (x ∷ xs) h = absurd (omega arith)
  take_all (suc n) [] h = refl
  take_all (suc n) (x ∷ xs) h = ap (λ l. x ∷ l) (take_all n xs (omega arith))

  pub length-drop : (n : ℕ) (xs : List A) → length (drop n xs) ≡ length xs - n
  length-drop zero xs = omega arith
  length-drop (suc n) [] = omega arith
  length-drop (suc n) (x ∷ xs) = omega (arith, length-drop n xs)

  pub length-map {κ} : {B : Type κ} (f : A → B) (xs : List A) → length (map f xs) ≡ length xs
  length-map f [] = refl
  length-map f (x ∷ xs) = ap suc (length-map f xs)

  -- A list with an element has a last one.
  pub snoc_view :
      (n : ℕ) (l : List A)
      → length l ≡ suc n
      → (xs : List A) × (x : A) × (l ≡ xs ++ x ∷ []) × (length xs ≡ n)
  snoc_view n [] h = absurd (omega arith)
  snoc_view zero (x ∷ []) h = ([], x, refl, refl)
  snoc_view zero (x ∷ y ∷ l) h = absurd (omega arith)
  snoc_view (suc n) (x ∷ []) h = absurd (omega arith)
  snoc_view (suc n) (x ∷ y ∷ l) h =
      let (xs, z, e, k) = snoc_view n (y ∷ l) (omega arith) in
      (x ∷ xs, z, ap (λ t. x ∷ t) e, omega arith)

pub List-cases {ℓ} : {A : Type ℓ} (l : List A) → (l ≡ []) ⊎ ((x : A) × (xs : List A) × (l ≡ x ∷ xs))
List-cases [] = inl refl
List-cases (x ∷ xs) = inr (x, xs, refl)

-- Searches, as descriptions of what the scanning loops find.
module _ {ℓ} {A : Type ℓ} (test : A → Bool) where
  abbrev pub any : List A → Bool
  any [] = false
  any (x ∷ xs) = test x || any xs

  abbrev pub find_index : List A → Option ℕ
  find_index [] = none
  find_index (x ∷ xs) = if test x then some 0 else Option.map (λ i. i + 1) (find_index xs)

  abbrev pub find_last_index : List A → Option ℕ
  find_last_index [] = none
  find_last_index (x ∷ xs) = elim (find_last_index xs) [
    | some i ↦ some (i + 1)
    | none ↦ if test x then some 0 else none
  ]

  -- The elements up to the first that passes the test, it included.
  abbrev pub up_to : List A → List A
  up_to [] = []
  up_to (x ∷ xs) = x ∷ (if test x then [] else up_to xs)

  abbrev pub take_while : List A → List A
  take_while [] = []
  take_while (x ∷ xs) = if test x then x ∷ take_while xs else []

  abbrev pub drop_while : List A → List A
  drop_while [] = []
  drop_while (x ∷ xs) = if test x then drop_while xs else x ∷ xs

  pub take_while-append-drop_while : (xs : List A) → take_while xs ++ drop_while xs ≡ xs
  take_while-append-drop_while [] = refl
  take_while-append-drop_while (x ∷ xs) = ground (arith, take_while-append-drop_while xs)

  pub drop_while_head :
      (xs : List A) (x : A) (ys : List A) → drop_while xs ≡ x ∷ ys → test x ≡ false
  drop_while_head [] x ys e = cc
  drop_while_head (z ∷ xs) x ys e = elim (Bool-cases (test z)) [
    | inl passes ↦ drop_while_head xs x ys (rw passes at e)
    | inr fails ↦ let both : z ∷ xs ≡ x ∷ ys = rw fails at e in cc
  ]

  pub length-drop_while : (xs : List A) → length (drop_while xs) ≤ length xs
  length-drop_while [] = omega arith
  length-drop_while (x ∷ xs) = ground (arith, length-drop_while xs)
