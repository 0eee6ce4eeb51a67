-- ===== src/Cstring/Token/Tokens.antt =====
-- The tokens of a string, and the first of them.
use osdev_libstdc.Base.{
  Bool-cases, List, List-cases, [], ap, append-nil, append_assoc, arith, drop_while,
  drop_while_head, if◌then◌else◌, inl, inr, length, length-drop_while, refl, sym, take_while, ℕ,
  ◌++◌, ◌∙◌, ◌∷◌, ◌≡◌, ◌≤◌,
}
use osdev_libstdc.Cstring.Search.Spans.{in_set, not_in_set}
use osdev_libstdc.Cstring.Token.Step.{behind}

-- The tokens of a string among the delimiters `set`; `cur` is what has been read of the next one.
abbrev pub with_last : List ℕ → List (List ℕ) → List (List ℕ)
with_last [] ts = ts
with_last (c ∷ cur) ts = (c ∷ cur) ∷ ts

abbrev pub tokens_from : (set : List ℕ) → (cur : List ℕ) → List ℕ → List (List ℕ)
tokens_from set cur [] = with_last cur []
tokens_from set cur (c ∷ s) =
    if in_set set c then with_last cur (tokens_from set [] s) else tokens_from set (cur ++ c ∷ []) s

abbrev pub tokens : (set : List ℕ) → List ℕ → List (List ℕ)
tokens set s = tokens_from set [] s

tokens_drop : (set s : List ℕ) → tokens set s ≡ tokens set (drop_while (in_set set) s)
tokens_drop set [] = refl
tokens_drop set (c ∷ s) = elim (Bool-cases (in_set set c)) [
  | inl e ↦ rw e (tokens_drop set s)
  | inr e ↦ rw e (rw e refl)
]

tokens_take :
    (set cur : List ℕ) (d : ℕ) (s : List ℕ)
    → tokens_from set (d ∷ cur) s
      ≡ (d ∷ (cur ++ take_while (not_in_set set) s))
        ∷ tokens set (behind (drop_while (not_in_set set) s))
tokens_take set cur d [] = ap (λ t. (d ∷ t) ∷ []) (sym (append-nil cur))
tokens_take set cur d (c ∷ s) = elim (Bool-cases (in_set set c)) [
  | inl e ↦ rw e (rw (append-nil cur) refl)
  | inr e ↦ rw e (
      tokens_take set (cur ++ c ∷ []) d s
      ∙ rw (append_assoc cur (c ∷ []) (take_while (not_in_set set) s)) refl)
]

pub tokens_none : (set s : List ℕ) → drop_while (in_set set) s ≡ [] → tokens set s ≡ []
tokens_none set s e = tokens_drop set s ∙ ap (λ t. tokens set t) e

pub tokens_some :
    (set s : List ℕ) (c : ℕ) (t : List ℕ)
    → drop_while (in_set set) s ≡ c ∷ t
    → tokens set s
      ≡ (c ∷ take_while (not_in_set set) t) ∷ tokens set (behind (drop_while (not_in_set set) t))
tokens_some set s c t e =
    tokens_drop set s
    ∙ ap (λ u. tokens set u) e
    ∙ rw (drop_while_head (in_set set) s c t e) (tokens_take set [] c t)

pub length-behind : (set t : List ℕ) → length (behind (drop_while (not_in_set set) t)) ≤ length t
length-behind set t =
    let all = length-drop_while (not_in_set set) t in
    elim (List-cases (drop_while (not_in_set set) t)) [
      | inl e ↦ rw e (omega arith)
      | inr (d, r, e) ↦ rw e (omega (arith, ap length e))
    ]
