-- ===== src/Cstring/Build/Tests.antt =====
-- strncat, strcpy and strcat at concrete places, of src/cstring.cpp.
use osdev_libstdc.Base.{[], arith, none, refl, some, ◌∷◌, ◌≡◌}
use osdev_libstdc.Base.Runs.{Runs}
use osdev_libstdc.Cstring.Build.{end_loop, strcat_loop, strcpy_loop, strncat, strncat_loop}
use osdev_libstdc.Cstring.Build.Ends.{copies-Runs, end_round, strcat_round, strcpy_round}
use osdev_libstdc.Memory.{load, store, write, write_list}
use osdev_libstdc.Memory.Sample.{open_text, sample}

-- It reads one byte too many: the two characters that it is to append are the last of memory.
strncat_at_end : strncat open_text 1 6 2 ≡ none
unfolding strncat strncat_loop end_loop load store write
strncat_at_end = refl

copies-Runs_example :
    Runs strcpy_round (sample, 8, 1) (some (write_list sample 8 (97 ∷ 98 ∷ 44 ∷ 99 ∷ 0 ∷ [])))
    × Runs strcat_round (sample, 8, 1) (some (12, write_list sample 8 (97 ∷ 98 ∷ 44 ∷ 99 ∷ [])))
    × Runs (end_round sample) 1 (some 5)
unfolding strcpy_loop strcat_loop end_loop load store write write_list
copies-Runs_example = copies-Runs sample 8 1 15 (omega arith)
