-- ===== src/Base/Returns.antt =====
-- What an Option holds of its value, if it has one, through bind and conditionals.
use osdev_libstdc.Base.Tests.{if◌then◌else◌, ◌>>=◌}
use mathlib.Core.Bool.{Bool, true, false}
use mathlib.Core.Option.{Option, none, some}
use mathlib.Core.Path.{◌≡◌, refl}

-- A value that is returned satisfies `P`.
unfoldable pub Returns {ℓ} : {A : Type ℓ} → (A → Type 0) → Option A → Type 0
Returns P none = Unit
Returns P (some a) = P a

module _ {ℓ κ} {A : Type ℓ} {B : Type κ} where
  pub Returns-bind :
      (P : A → Type 0) (Q : B → Type 0) (r : Option A) (k : A → Option B)
      → Returns P r
      → ((a : A) → P a → Returns Q (k a))
      → Returns Q (r >>= k)
  unfolding Returns
  Returns-bind P Q none k h next = tt
  Returns-bind P Q (some a) k h next = next a h

  -- Nothing is known of the first value.
  pub Returns-then :
      (Q : B → Type 0) (r : Option A) (k : A → Option B)
      → ((a : A) → Returns Q (k a))
      → Returns Q (r >>= k)
  unfolding Returns
  Returns-then Q none k next = tt
  Returns-then Q (some a) k next = next a

  -- Two continuations that agree.
  pub then_ext : (r : Option A) (k k' : A → Option B) → ((a : A) → k a ≡ k' a) → r >>= k ≡ r >>= k'
  then_ext none k k' same = refl
  then_ext (some a) k k' same = same a

pub Returns-if {ℓ} :
    {A : Type ℓ} (P : A → Type 0) (c : Bool) (a b : Option A)
    → Returns P a
    → Returns P b
    → Returns P (if c then a else b)
Returns-if P true a b ha hb = ha
Returns-if P false a b ha hb = hb

pub Returns-weaken {ℓ} :
    {A : Type ℓ} (P Q : A → Type 0) (r : Option A)
    → ((a : A) → P a → Q a)
    → Returns P r
    → Returns Q r
unfolding Returns
Returns-weaken P Q none imp h = tt
Returns-weaken P Q (some a) imp h = imp a h

-- Both cases of an Option.
pub Returns-elim {ℓ κ} :
    {A : Type ℓ} {B : Type κ} (P : B → Type 0) (r : Option A) (s : A → Option B) (n : Option B)
    → ((a : A) → Returns P (s a))
    → Returns P n
    → Returns P (elim r [ some a ↦ s a | none ↦ n ])
Returns-elim P none s n hs hn = hn
Returns-elim P (some a) s n hs hn = hs a

-- A branch is reached only where its test holds.
pub Returns-when {ℓ} :
    {A : Type ℓ} (P : A → Type 0) (c : Bool) (a b : Option A)
    → (c ≡ true → Returns P a)
    → Returns P b
    → Returns P (if c then a else b)
Returns-when P true a b ha hb = ha refl
Returns-when P false a b ha hb = hb

pub Returns-always {ℓ} :
    {A : Type ℓ} (P : A → Type 0) (r : Option A) → ((a : A) → P a) → Returns P r
unfolding Returns
Returns-always P none h = tt
Returns-always P (some a) h = h a

-- What follows a chain, a conditional or a case of an Option.
pub bind_assoc {ℓ κ μ} :
    {A : Type ℓ} {B : Type κ} {C : Type μ} (r : Option A) (f : A → Option B) (g : B → Option C)
    → r >>= f >>= g ≡ r >>= λ a. f a >>= g
bind_assoc none f g = refl
bind_assoc (some a) f g = refl

pub bind-if {ℓ κ} :
    {A : Type ℓ} {B : Type κ} (c : Bool) (a b : Option A) (g : A → Option B)
    → (if c then a else b) >>= g ≡ (if c then (a >>= g) else (b >>= g))
bind-if true a b g = refl
bind-if false a b g = refl

pub bind-elim {ℓ κ μ} :
    {A : Type ℓ} {B : Type κ} {C : Type μ} (r : Option A) (s : A → Option B) (n : Option B)
    (g : B → Option C)
    → elim r as (λ x. Option B) [ some a ↦ s a | none ↦ n ] >>= g
      ≡ elim r as (λ x. Option C) [ some a ↦ (s a >>= g) | none ↦ (n >>= g) ]
bind-elim none s n g = refl
bind-elim (some a) s n g = refl
