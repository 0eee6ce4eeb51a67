-- ===== src/Cstring/Token/Step.antt =====
-- One call of strtok_r: the token that it cuts off, and where the next call goes on.
use osdev_libstdc.Base.{
  List, Option, [], ap, append-nil, arith, drop_while, false, inl, inr, is_some, length,
  length-append, none, refl, some, suc, sym, take_while, take_while-append-drop_while, ℕ, ◌++◌, ◌+◌,
  ◌<◌, ◌==◌, ◌>>=◌, ◌∙◌, ◌∷◌, ◌≡◌, ◌≤◌, ◌⊎◌,
}
use osdev_libstdc.Cstring.Search.Spans.{in_set, not_in_set, strcspn-take_while, strspn-take_while}
use osdev_libstdc.Cstring.Token.{Token, cut, strtok_from}
use osdev_libstdc.Memory.{Apart, IsString, Mem, load, write}
use osdev_libstdc.Memory.Laws.{load-write_ne, store-eq-write}
use osdev_libstdc.Memory.Strings.{
  IsString-cut, IsString-drop, IsString-end, IsString-tail, IsString-write,
}
use mathlib.Core.Option

-- The characters that a token leaves for the next call: those behind its delimiter.
abbrev pub behind : List ℕ → List ℕ
behind [] = []
behind (e ∷ r) = r

-- What a call that finds the token `token` at `start` returns and leaves in memory: the token as a
-- string of its own, a string with the characters `left` to go on from, the set of delimiters, and
-- every byte outside the string at `str` of `len` characters.
pub record Cuts (m : Mem) (str len delim : ℕ) (set token left : List ℕ) (start : ℕ)
    (saveptr : Option (Option ℕ)) (result : Option Token) : Type 0 where
  pub rest : ℕ
  pub after : Mem
  pub returns :
      result
      ≡ some (record { res = some start; saved = Option.map (λ _. some rest) saveptr; mem = after })
  pub token_there : IsString after start token
  pub left_there : IsString after rest left
  pub before : (start + length token < rest) ⊎ ((start + length token ≡ rest) × (left ≡ []))
  pub ends : rest + length left ≡ str + len
  pub set_kept : IsString after delim set
  pub kept : (q : ℕ) → (q < str) ⊎ (str + len ≤ q) → load after q ≡ load m q

module _ (m : Mem) (str delim : ℕ) (s set : List ℕ) (saveptr : Option (Option ℕ))
    (h : IsString m str s) (hs : IsString m delim set)
    (apart : Apart str (length s + 1) delim (length set + 1)) where
  abbrev lead : List ℕ
  lead = take_while (in_set set) s

  found_there :
      (c : ℕ) (t : List ℕ)
      → drop_while (in_set set) s ≡ c ∷ t
      → IsString m (str + length lead) (c ∷ t)
  found_there c t e =
      let split : s ≡ lead ++ c ∷ t =
        sym (take_while-append-drop_while (in_set set) s) ∙ ap (λ r. lead ++ r) e in
      IsString-drop m str lead (c ∷ t) (rw split at h)

  length_split :
      (c : ℕ) (t : List ℕ)
      → drop_while (in_set set) s ≡ c ∷ t
      → length lead + suc (length t) ≡ length s
  length_split c t e = omega (
    arith,
    length-append lead (c ∷ t),
    ap length (sym (take_while-append-drop_while (in_set set) s) ∙ ap (λ r. lead ++ r) e),
  )

  -- The cut behind a token of which `tw` are the characters after the first.
  cut-Cuts :
      (start c : ℕ) (tw rem : List ℕ)
      → IsString m start (c ∷ (tw ++ rem))
      → str ≤ start
      → start + suc (length (tw ++ rem)) ≡ str + length s
      → (result : Option Token)
      → result ≡ (
          cut m (start + 1 + length tw) >>= λ t.
          some (record { res = some start; saved = Option.map (λ _. some t.0) saveptr; mem = t.1 }))
      → Cuts m str (length s) delim set (c ∷ tw) (behind rem) start saveptr result
  unfolding cut
  cut-Cuts start c tw [] there le total result e =
      let there' : IsString m start (c ∷ tw) = rw (append-nil tw) at there in
      let last : load m (start + 1 + length tw) ≡ some 0 =
        IsString-end m (start + 1) tw (IsString-tail m start c tw there') in
      record {
        rest = start + 1 + length tw;
        after = m;
        returns = e ∙ rw last;
        token_there = there';
        left_there = ((last, tt), tt);
        before = inr (omega arith, refl);
        ends = omega (arith, length-append tw []);
        set_kept = hs;
        kept = λ q out. refl;
      }
  cut-Cuts start c tw (d ∷ r) there le total result e =
      let end = start + 1 + length tw in
      let rem_there : IsString m end (d ∷ r) =
        IsString-drop m (start + 1) tw (d ∷ r) (IsString-tail m start c (tw ++ d ∷ r) there) in
      let more : (d == 0) ≡ false = ground (arith, rem_there.1.0) in
      let size = length-append tw (d ∷ r) in
      record {
        rest = end + 1;
        after = write m end 0;
        returns = e ∙ rw (rem_there.0.0, more, store-eq-write m end 0 (ap is_some rem_there.0.0));
        token_there = IsString-cut m start end (c ∷ tw) d r (omega arith) there;
        left_there =
            IsString-write m (end + 1) r end 0 (omega arith) (IsString-tail m end d r rem_there);
        before = inl (omega arith);
        ends = omega (arith, size);
        set_kept = IsString-write m delim set end 0 (omega (arith, size)) hs;
        kept = λ q out. load-write_ne m end 0 q (omega (arith, size));
      }

  -- With delimiters only, or nothing, left of the string, the result is null, and neither memory nor
  -- the saved pointer changes.
  pub strtok_from-none :
      drop_while (in_set set) s ≡ []
      → strtok_from m str delim saveptr ≡ some (record { res = none; saved = saveptr; mem = m })
  unfolding strtok_from
  strtok_from-none e =
      let all : s ≡ lead =
        sym (take_while-append-drop_while (in_set set) s)
        ∙ ap (λ r. lead ++ r) e
        ∙ append-nil lead in
      let last : load m (str + length lead) ≡ some 0 = rw (← all) (IsString-end m str s h) in
      rw (strspn-take_while m str delim s set h hs, last)

  pub strtok_from-Cuts :
      (c : ℕ) (t : List ℕ)
      → drop_while (in_set set) s ≡ c ∷ t
      → Cuts m str
          (length s)
          delim
          set
          (c ∷ take_while (not_in_set set) t)
          (behind (drop_while (not_in_set set) t))
          (str + length lead)
          saveptr
          (strtok_from m str delim saveptr)
  unfolding strtok_from
  strtok_from-Cuts c t e =
      let start = str + length lead in
      let there : IsString m start (c ∷ t) = found_there c t e in
      let more : (c == 0) ≡ false = ground (arith, there.1.0) in
      let split = take_while-append-drop_while (not_in_set set) t in
      cut-Cuts start c (take_while (not_in_set set) t) (drop_while (not_in_set set) t)
        (rw split there) (omega arith) (omega (arith, ap length split, length_split c t e)) _
        (rw (
          strspn-take_while m str delim s set h hs,
          there.0.0,
          more,
          strcspn-take_while m (start + 1) delim t set (IsString-tail m start c t there) hs,
        ))
