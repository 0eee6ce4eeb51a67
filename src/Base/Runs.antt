-- ===== src/Base/Runs.antt =====
-- Loops without a bound on their rounds, as a step relation: what a loop with fuel stands for.
use osdev_libstdc.Base.Tests.{Option-cases, ◌>>=◌}
use osdev_libstdc.Base.Returns.{Returns}
use Prim.Native.Nat.{ℕ, zero, suc, ◌≤◌, ◌<◌}
use mathlib.Core.Logic.{◌⊎◌, inl, inr}
use mathlib.Core.Option.{Option, none, some}
use mathlib.Core.Path.{◌≡◌, refl, ◌∙◌, subst, sym}
use native.Mathlib.Omega.{arith}

module _ {S B : Type 0} where
  -- The loop whose round is `step` comes from a state to an end after finitely many rounds: a round
  -- faults, or it leaves the loop with a result, or it leads to another state. There is no run of a
  -- loop that goes on for ever.
  pub data Runs (step : S → Option (S ⊎ B)) : S → Option B → Type 0 where
    faults : {s : S} → step s ≡ none → Runs step s none
    leaves : {s : S} {b : B} → step s ≡ some (inr b) → Runs step s (some b)
    goes_on : {s s' : S} {r : Option B} → step s ≡ some (inl s') → Runs step s' r → Runs step s r

  -- What follows a round, where `rest` is the loop from the next state on.
  abbrev pub carry_on : (S → Option B) → S ⊎ B → Option B
  carry_on rest (inl s) = rest s
  carry_on rest (inr b) = some b

  -- A round that goes on brings the measure down.
  abbrev pub IsLess : (S → ℕ) → S → S ⊎ B → Type 0
  IsLess measure s (inl s') = measure s' < measure s
  IsLess measure s (inr b) = Unit

  -- A loop with as much fuel as its measure, or more, is a run of its rounds.
  pub loop-Runs :
      (step : S → Option (S ⊎ B)) (measure : S → ℕ) (loop : ℕ → S → Option B)
      → ((s : S) → measure s ≡ 0 → step s ≡ none)
      → ((s : S) → loop 0 s ≡ none)
      → ((k : ℕ) (s : S) → loop (suc k) s ≡ step s >>= carry_on (loop k))
      → ((s : S) → Returns (IsLess measure s) (step s))
      → (k : ℕ) (s : S) → measure s ≤ k
      → Runs step s (loop k s)
  unfolding Returns
  loop-Runs step measure loop last out unroll less zero s h =
      subst (λ r. Runs step s r) (sym (out s)) (faults (last s (omega arith)))
  loop-Runs step measure loop last out unroll less (suc k) s h = elim (Option-cases (step s)) [
    | inl gone ↦ subst (λ r. Runs step s r) (sym (unroll k s ∙ rw gone refl)) (faults gone)
    | inr (inl s', there) ↦
        let down : measure s' < measure s = rw there at (less s) in
        subst (λ r. Runs step s r) (sym (unroll k s ∙ rw there refl))
          (goes_on there (loop-Runs step measure loop last out unroll less k s' (omega arith)))
    | inr (inr b, there) ↦
        subst (λ r. Runs step s r) (sym (unroll k s ∙ rw there refl)) (leaves there)
  ]
