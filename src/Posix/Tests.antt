-- ===== src/Posix/Tests.antt =====
-- The theorems on posix_strings.cpp at concrete inputs.
use osdev_libstdc.Base.{[], arith, refl, some, ℕ, ◌+◌, ◌<◌, ◌∷◌, ◌≡◌}
use osdev_libstdc.Base.Int.{negsuc, pos, to_unsigned, ◌-ℤ◌}
use osdev_libstdc.Memory.{write_list}
use osdev_libstdc.Memory.Sample.{
  abc, abc_there, b_there, bc_there, comma_there, sample, three_free, two_behind,
}
use osdev_libstdc.Posix.{ffs, ffs_width, ffsl, ffsll, strcasecmp, strlcat, strlcpy, strncasecmp}
use osdev_libstdc.Posix.Bounded.{strlcat-appended, strlcpy-take}
use osdev_libstdc.Posix.FirstSet.{LowestBit, ffs_width-LowestBit}
use osdev_libstdc.Posix.Fold.{casecmp-char_diff}

strlcpy-take_example : strlcpy sample 8 1 3 ≡ some (4, write_list sample 8 (97 ∷ 98 ∷ 0 ∷ []))
strlcpy-take_example = strlcpy-take sample 8 1 3 abc abc_there three_free (omega arith)

strlcat-appended_example : strlcat sample 6 1 3 ≡ some (5, write_list sample 7 (97 ∷ 0 ∷ []))
strlcat-appended_example =
    strlcat-appended sample 6 1 3 (44 ∷ []) abc comma_there abc_there two_behind (omega arith)

casecmp-char_diff_example :
    (strcasecmp sample 2 14 ≡ some (pos 44)) × (strncasecmp sample 2 14 1 ≡ some (pos 0))
unfolding ◌-ℤ◌
casecmp-char_diff_example =
    casecmp-char_diff sample 2 14 1 (98 ∷ 44 ∷ 99 ∷ []) (98 ∷ []) bc_there b_there

ffs_width-LowestBit_example :
    (k : ℕ) × (ffs_width 32 (negsuc 7) ≡ some (1 + k))
    × (k < 32)
    × LowestBit (to_unsigned 32 (negsuc 7)) k
    × (ffs_width 32 (pos 0) ≡ some 0)
ffs_width-LowestBit_example = ffs_width-LowestBit 31 (negsuc 7) (omega arith) (λ e. cc)

ffs_runs : (ffs (negsuc 7) ≡ some 4) × (ffsl 32 (pos 40) ≡ some 4) × (ffsll (pos 1) ≡ some 1)
unfolding ffs ffsl ffsll
ffs_runs = (refl, refl, refl)
