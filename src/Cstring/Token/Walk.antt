-- ===== src/Cstring/Token/Walk.antt =====
-- strtok called with a string, and then with null until it returns null.
use osdev_libstdc.Base.{
  List, List-cases, Option, [], ap, arith, drop_while, inl, inr, length, length-drop_while, none,
  refl, some, suc, take_while, zero, ℕ, ◌+◌, ◌<◌, ◌>>=◌, ◌∙◌, ◌∷◌, ◌≡◌, ◌≤◌, ◌⊎◌,
}
use osdev_libstdc.Cstring.Search.Spans.{in_set, not_in_set}
use osdev_libstdc.Cstring.Token.{Token, strtok, strtok_from, strtok_r}
use osdev_libstdc.Cstring.Token.Step.{Cuts, behind, strtok_from-Cuts, strtok_from-none}
use osdev_libstdc.Cstring.Token.Tokens.{length-behind, tokens, tokens_none, tokens_some}
use osdev_libstdc.Memory.{Apart, IsString, Mem, load}
use osdev_libstdc.Memory.Strings.{IsString-tail}

-- The addresses that the calls return, up to the one that returns null, after the first call's `r`,
-- and memory behind them. At most `k` more calls are made.
abbrev static_of : Option (Option ℕ) → Option ℕ
static_of (some old_str) = old_str
static_of none = none

pub walk_on : ℕ → (delim : ℕ) → Option Token → Option (List ℕ × Mem)
walk_on k delim none = none
walk_on zero delim (some t) = elim (t.res) [ none ↦ some ([], t.mem) | some p ↦ none ]
walk_on (suc k) delim (some t) =
    let rest = walk_on k delim (strtok (t.mem) (static_of (t.saved)) none delim) in
    elim (t.res) [ none ↦ some ([], t.mem) | some p ↦ (do (ps, m') ← rest; some (p ∷ ps, m')) ]

-- The strings `ts` stand at the addresses `ps`.
abbrev pub AreStrings : Mem → List ℕ → List (List ℕ) → Type 0
AreStrings m [] [] = Unit
AreStrings m (p ∷ ps) (t ∷ ts) = IsString m p t × AreStrings m ps ts
AreStrings m ps ts = ⊥

IsString-kept :
    (m m' : Mem) (p : ℕ) (s : List ℕ)
    → ((q : ℕ) → p ≤ q → q ≤ p + length s → load m' q ≡ load m q)
    → IsString m p s
    → IsString m' p s
IsString-kept m m' p [] same h = ((same p (omega arith) (omega arith) ∙ h.0.0, tt), tt)
IsString-kept m m' p (c ∷ s) same h =
    let (there, chars) =
      IsString-kept m m' (p + 1) s (λ q low high. same q (omega arith) (omega arith))
        (IsString-tail m p c s h) in
    ((same p (omega arith) (omega arith) ∙ h.0.0, there), (h.1.0, h.1.1, chars))

-- The calls from `r` on return the tokens `ts` in turn, and change no byte outside the string.
pub record Walked (m : Mem) (str len : ℕ) (ts : List (List ℕ)) (r : Option (List ℕ × Mem))
    : Type 0 where
  pub addresses : List ℕ
  pub after : Mem
  pub returns : r ≡ some (addresses, after)
  pub tokens_there : AreStrings after addresses ts
  pub kept : (q : ℕ) → (q < str) ⊎ (str + len ≤ q) → load after q ≡ load m q

-- One token, and the calls behind it.
Walked-cons :
    (m : Mem) (str len delim start k : ℕ) (set token left : List ℕ) (ts : List (List ℕ))
    (old : Option ℕ) (r : Option Token)
    → (c : Cuts m str len delim set token left start (some old) r) → str ≤ start
    → start ≤ c.rest
    → Walked
        (c.after)
        (c.rest)
        (length left)
        ts
        (walk_on k delim (strtok (c.after) (some (c.rest)) none delim))
    → Walked m str len (token ∷ ts) (walk_on (suc k) delim r)
unfolding walk_on
Walked-cons m str len delim start k set token left ts old r c le le' w = record {
  addresses = start ∷ w.addresses;
  after = w.after;
  returns = rw (c.returns, w.returns) refl;
  tokens_there = (
    IsString-kept (c.after) (w.after) start token
        (λ q low high. w.kept q (token_before q high (c.before))) c.token_there,
    w.tokens_there,
  );
  kept = λ q out. w.kept q (omega (arith, c.ends)) ∙ c.kept q out;
}
  where
    token_before :
        (q : ℕ)
        → q ≤ start + length token
        → (start + length token < c.rest) ⊎ ((start + length token ≡ c.rest) × (left ≡ []))
        → (q < c.rest) ⊎ (c.rest + length left ≤ q)
    token_before q high (inl lt) = inl (omega arith)
    token_before q high (inr (e, none_left)) = rw none_left (omega arith)

Walked-nil :
    (m : Mem) (str len delim k : ℕ) (saved : Option (Option ℕ)) (r : Option Token)
    → r ≡ some (record { res = none; saved = saved; mem = m })
    → Walked m str len [] (walk_on k delim r)
unfolding walk_on
Walked-nil m str len delim zero saved r e = record {
  addresses = [];
  after = m;
  returns = rw e refl;
  tokens_there = tt;
  kept = λ q out. refl;
}
Walked-nil m str len delim (suc k) saved r e = record {
  addresses = [];
  after = m;
  returns = rw e refl;
  tokens_there = tt;
  kept = λ q out. refl;
}

strtok_next :
    (m : Mem) (p delim : ℕ) → strtok m (some p) none delim ≡ strtok_from m p delim (some (some p))
unfolding strtok strtok_r
strtok_next m p delim = refl

-- After a token the calls go on with what it has left of the string.
walk_some :
    (k : ℕ) (m : Mem) (p delim c : ℕ) (s set t : List ℕ) (old : Option ℕ)
    → length s ≤ suc k
    → IsString m p s
    → IsString m delim set
    → Apart p (length s + 1) delim (length set + 1)
    → drop_while (in_set set) s ≡ c ∷ t
    → ((m' : Mem) (p' : ℕ) (s' : List ℕ)
        → length s' ≤ k
        → IsString m' p' s'
        → IsString m' delim set
        → Apart p' (length s' + 1) delim (length set + 1)
        → Walked m' p'
            (length s')
            (tokens set s')
            (walk_on k delim (strtok_from m' p' delim (some (some p')))))
    → Walked m p
        (length s)
        (tokens set s)
        (walk_on (suc k) delim (strtok_from m p delim (some old)))
walk_some k m p delim c s set t old le h hs apart e rest =
    let start = p + length (take_while (in_set set) s) in
    let left = behind (drop_while (not_in_set set) t) in
    let cuts = strtok_from-Cuts m p delim s set (some old) h hs apart c t e in
    let shorter : length left ≤ k =
      omega (arith, length-behind set t, length-drop_while (in_set set) s, ap length e) in
    let on : start ≤ cuts.rest = omega (arith, cuts.before) in
    rw (tokens_some set s c t e) (
      Walked-cons m p (length s) delim start k set (c ∷ take_while (not_in_set set) t) left
        (tokens set left) old (strtok_from m p delim (some old)) cuts (omega arith) on
        (rw (strtok_next (cuts.after) (cuts.rest) delim) (
          rest (cuts.after) (cuts.rest) left shorter cuts.left_there cuts.set_kept
            (omega (arith, cuts.ends)))))

walk :
    (k : ℕ) (m : Mem) (p delim : ℕ) (s set : List ℕ) (old : Option ℕ)
    → length s ≤ k
    → IsString m p s
    → IsString m delim set
    → Apart p (length s + 1) delim (length set + 1)
    → Walked m p (length s) (tokens set s) (walk_on k delim (strtok_from m p delim (some old)))
walk zero m p delim s set old le h hs apart = elim (List-cases (drop_while (in_set set) s)) [
  | inl e ↦ rw (tokens_none set s e) (
      Walked-nil m p (length s) delim zero (some old) (strtok_from m p delim (some old))
        (strtok_from-none m p delim s set (some old) h hs apart e))
  | inr (c, t, e) ↦ absurd (omega (arith, length-drop_while (in_set set) s, ap length e))
]
walk (suc k) m p delim s set old le h hs apart = elim (List-cases (drop_while (in_set set) s)) [
  | inl e ↦ rw (tokens_none set s e) (
      Walked-nil m p (length s) delim (suc k) (some old) (strtok_from m p delim (some old))
        (strtok_from-none m p delim s set (some old) h hs apart e))
  | inr (c, t, e) ↦
      walk_some k m p delim c s set t old le h hs apart e
        (λ m' p' s' le' h' hs' apart'. walk k m' p' delim s' set (some p') le' h' hs' apart')
]

-- A first call of strtok with a string and further calls with null return the tokens of the string in
-- turn, the maximal runs of characters outside the set, and then null: each stands as a string at the
-- address returned, and no byte outside the string has changed. As many further calls as the string
-- has characters are enough. String and set have no address in common.
pub strtok-tokens :
    (m : Mem) (str delim : ℕ) (s set : List ℕ) (old_str : Option ℕ)
    → IsString m str s
    → IsString m delim set
    → Apart str (length s + 1) delim (length set + 1)
    → Walked m str
        (length s)
        (tokens set s)
        (walk_on (length s) delim (strtok m old_str (some str) delim))
unfolding strtok strtok_r
strtok-tokens m str delim s set old_str h hs apart =
    walk (length s) m str delim s set old_str (omega arith) h hs apart
