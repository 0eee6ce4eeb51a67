-- ===== src/Cstring/Token/Laws.antt =====
-- strtok_r and strtok, called with a string and called to go on.
use osdev_libstdc.Base.{
  List, Option, [], drop_while, length, none, some, take_while, ℕ, ◌+◌, ◌∷◌, ◌≡◌,
}
use osdev_libstdc.Cstring.Search.Spans.{in_set, not_in_set}
use osdev_libstdc.Cstring.Token.{strtok, strtok_r}
use osdev_libstdc.Cstring.Token.Step.{Cuts, behind, strtok_from-Cuts, strtok_from-none}
use osdev_libstdc.Memory.{Apart, IsString, Mem}

module _ (m : Mem) (str delim : ℕ) (s set : List ℕ) (h : IsString m str s)
    (hs : IsString m delim set) (apart : Apart str (length s + 1) delim (length set + 1)) where
  -- With a string at `str` that has a character outside the set `delim`, strtok_r skips the delimiters
  -- and cuts off the token up to the next delimiter: the token stands as a string where it began, the
  -- saved pointer, if there is a place for it, points to a string with the characters left, and no byte
  -- outside the string changes. It does the same where it is called with null and `str` saved.
  pub strtok_r-Cuts :
      (saveptr : Option (Option ℕ)) (c : ℕ) (t : List ℕ)
      → drop_while (in_set set) s ≡ c ∷ t
      → Cuts m str
          (length s)
          delim
          set
          (c ∷ take_while (not_in_set set) t)
          (behind (drop_while (not_in_set set) t))
          (str + length (take_while (in_set set) s))
          saveptr
          (strtok_r m (some str) delim saveptr)
        × Cuts m str
            (length s)
            delim
            set
            (c ∷ take_while (not_in_set set) t)
            (behind (drop_while (not_in_set set) t))
            (str + length (take_while (in_set set) s))
            (some (some str))
            (strtok_r m none delim (some (some str)))
  unfolding strtok_r
  strtok_r-Cuts saveptr c t e = (
    strtok_from-Cuts m str delim s set saveptr h hs apart c t e,
    strtok_from-Cuts m str delim s set (some (some str)) h hs apart c t e,
  )

  -- Where the string at `str` has delimiters only, strtok with it returns null and keeps the pointer
  -- that an earlier string left: a later call with null goes on in that earlier string.
  pub strtok_keeps_old :
      (old_str : Option ℕ)
      → drop_while (in_set set) s ≡ []
      → strtok m old_str (some str) delim
        ≡ some (record { res = none; saved = some old_str; mem = m })
  unfolding strtok strtok_r
  strtok_keeps_old old_str e = strtok_from-none m str delim s set (some old_str) h hs apart e
