-- ===== src/Cstring/Tests.antt =====
-- The theorems on the routines of cstring.cpp at concrete memories.
use osdev_libstdc.Base.{
  List, [], arith, inl, length, none, refl, some, take, ℕ, ◌>>=◌, ◌↔◌, ◌∷◌, ◌≡◌,
}
use osdev_libstdc.Base.Int.{pos, ℤ, ◌<ℤ◌}
use osdev_libstdc.Cstring.Build.{stpcpy, strcat, strcpy, strdup, strncat, strncpy}
use osdev_libstdc.Cstring.Build.Appending.{strcat-append, strncat-append}
use osdev_libstdc.Cstring.Build.Copying.{copies-write_list, strdup-write_list, strncpy-padded}
use osdev_libstdc.Cstring.Compare.{memcmp, strcmp, strncmp}
use osdev_libstdc.Cstring.Compare.Laws.{
  ComesBefore, Precedes, memcmp_order, strcmp_order, strncmp-char_diff,
}
use osdev_libstdc.Cstring.Copy.{memccpy, memmove}
use osdev_libstdc.Cstring.Copy.Laws.{load-memmove, memccpy-write_list}
use osdev_libstdc.Cstring.Edit.{strrev}
use osdev_libstdc.Cstring.Edit.Reverse.{strrev-strrev}
use osdev_libstdc.Cstring.Length.{strlen, strnlen}
use osdev_libstdc.Cstring.Length.Laws.{lengths_iff}
use osdev_libstdc.Cstring.Search.{strcspn, strpbrk, strrchr, strspn, strstr}
use osdev_libstdc.Cstring.Search.Chars.{strrchr-find_last_index}
use osdev_libstdc.Cstring.Search.Spans.{spans-take_while, strstr-find_sub}
use osdev_libstdc.Cstring.Token.{strtok, strtok_r}
use osdev_libstdc.Cstring.Token.Laws.{strtok_r-Cuts}
use osdev_libstdc.Cstring.Token.Step.{Cuts}
use osdev_libstdc.Cstring.Token.Walk.{Walked, strtok-tokens, walk_on}
use osdev_libstdc.Memory.{IsString, Mem, load, store, write, write_list}
use osdev_libstdc.Memory.Sample.{
  abc, abc_there, b_there, bc_there, comma_there, empty, empty_bytes, five_free, fixed_malloc,
  overlap_there, sample, sample_there, three_free, two_behind, two_free, xs_there,
}
use Prim.Native.Nat.{min}

load-memmove_example :
    (m' : Mem) × (memmove sample 2 1 3 ≡ some (2, m')) × (load m' 3 ≡ load sample 2)
load-memmove_example = load-memmove sample 2 1 (97 ∷ 98 ∷ 44 ∷ []) 3 sample_there overlap_there

memccpy-write_list_example :
    memccpy sample 8 1 (pos 98) 3 ≡ some (some 10, write_list sample 8 (97 ∷ 98 ∷ []))
memccpy-write_list_example =
    memccpy-write_list sample 8 1 (pos 98) (97 ∷ 98 ∷ 44 ∷ []) sample_there three_free (omega arith)

lengths_iff_example :
    ((strlen empty 0 ≡ some 0) ↔ ((s : List ℕ) × IsString empty 0 s × (length s ≡ 0)))
    × ((strnlen empty 0 5 ≡ some 0) ↔ ((s : List ℕ) × IsString empty 0 s × (min (length s) 5 ≡ 0)))
lengths_iff_example = lengths_iff empty 0 5 0 empty_bytes

memcmp_order_example :
    (r : ℤ) × (memcmp sample 1 8 3 ≡ some r)
    × ((r ≡ pos 0) ↔ (take 3 abc ≡ 120 ∷ 120 ∷ 120 ∷ []))
    × ((r <ℤ pos 0) ↔ Precedes (take 3 abc) (120 ∷ 120 ∷ 120 ∷ []))
memcmp_order_example =
    memcmp_order sample 1 8 (97 ∷ 98 ∷ 44 ∷ []) (120 ∷ 120 ∷ 120 ∷ []) refl sample_there xs_there

strcmp_order_example :
    (r : ℤ) × (strcmp sample 1 14 ≡ some r)
    × ((r ≡ pos 0) ↔ (abc ≡ 98 ∷ []))
    × ((r <ℤ pos 0) ↔ ComesBefore abc (98 ∷ []))
strcmp_order_example = strcmp_order sample 1 14 abc (98 ∷ []) abc_there b_there

strncmp-char_diff_example : strncmp sample 2 14 1 ≡ some (pos 0)
strncmp-char_diff_example =
    strncmp-char_diff sample 2 14 1 (98 ∷ 44 ∷ 99 ∷ []) (98 ∷ []) bc_there b_there

strrchr-find_last_index_example : strrchr sample 1 (pos 0) ≡ some (some 5)
strrchr-find_last_index_example = strrchr-find_last_index sample 1 (pos 0) abc abc_there

spans-take_while_example :
    (strspn sample 1 6 ≡ some 0)
    × (strcspn sample 1 6 ≡ some 2)
    × (strpbrk sample 1 6 ≡ some (some 3))
spans-take_while_example = spans-take_while sample 1 6 abc (44 ∷ []) abc_there comma_there

strstr-find_sub_example : strstr sample 1 6 ≡ some (some 3)
strstr-find_sub_example = strstr-find_sub sample 1 6 abc (44 ∷ []) abc_there comma_there

copies-write_list_example :
    (strcpy sample 8 1 ≡ some (8, write_list sample 8 (97 ∷ 98 ∷ 44 ∷ 99 ∷ 0 ∷ [])))
    × (stpcpy sample 8 1 ≡ some (12, write_list sample 8 (97 ∷ 98 ∷ 44 ∷ 99 ∷ 0 ∷ [])))
copies-write_list_example = copies-write_list sample 8 1 abc abc_there five_free (omega arith)

strncpy-padded_example : strncpy sample 8 14 3 ≡ some (8, write_list sample 8 (98 ∷ 0 ∷ 0 ∷ []))
strncpy-padded_example = strncpy-padded sample 8 14 3 (98 ∷ []) b_there three_free (omega arith)

strdup-write_list_example :
    strdup fixed_malloc sample (some 14) ≡ some (some 8, write_list sample 8 (98 ∷ 0 ∷ []))
strdup-write_list_example =
    strdup-write_list fixed_malloc sample sample 14 8 (98 ∷ []) b_there refl b_there two_free
      (omega arith)

strcat-append_example :
    (m' : Mem) × (strcat sample 6 14 ≡ some (6, m'))
    × (m' ≡ write_list sample 7 (98 ∷ 0 ∷ []))
    × IsString m' 6 (44 ∷ 98 ∷ [])
strcat-append_example =
    strcat-append sample 6 14 (44 ∷ []) (98 ∷ []) comma_there b_there two_behind (omega arith)

strncat-append_example :
    (m' : Mem) × (strncat sample 6 1 1 ≡ some (6, m'))
    × (m' ≡ write_list sample 7 (97 ∷ 0 ∷ []))
    × IsString m' 6 (44 ∷ 97 ∷ [])
strncat-append_example =
    strncat-append sample 6 1 1 (44 ∷ []) abc comma_there abc_there two_behind (omega arith)

strrev-strrev_example :
    (m' : Mem) × (strrev sample (some 1) ≡ some (some 1, m'))
    × IsString m' 1 (99 ∷ 44 ∷ 98 ∷ 97 ∷ [])
    × (strrev m' (some 1) ≡ some (some 1, sample))
strrev-strrev_example = strrev-strrev sample 1 abc abc_there

strtok_r-Cuts_example :
    Cuts sample 1 4 6
      (44 ∷ [])
      (97 ∷ 98 ∷ [])
      (99 ∷ [])
      1
      (some none)
      (strtok_r sample (some 1) 6 (some none))
    × Cuts sample 1 4 6
        (44 ∷ [])
        (97 ∷ 98 ∷ [])
        (99 ∷ [])
        1
        (some (some 1))
        (strtok_r sample none 6 (some (some 1)))
strtok_r-Cuts_example =
    strtok_r-Cuts sample 1 6 abc (44 ∷ []) abc_there comma_there (omega arith) (some none) 97
      (98 ∷ 44 ∷ 99 ∷ []) refl

-- Runs of the routines on the same memory.
strtok_run :
    (strtok sample none (some 1) 6 >>= λ t.
    strtok t.mem (elim t.saved [ some p ↦ p | none ↦ none ]) none 6 >>= λ u. some (u.res))
    ≡ some (some 4)
unfolding strtok load write store
strtok_run = refl

-- "ab,c" among ",": two tokens, at 1 and 4.
strtok-tokens_example :
    Walked sample 1 4
      ((97 ∷ 98 ∷ []) ∷ (99 ∷ []) ∷ [])
      (walk_on 4 6 (strtok sample none (some 1) 6))
strtok-tokens_example =
    strtok-tokens sample 1 6 abc (44 ∷ []) none abc_there comma_there (inl (omega arith))
