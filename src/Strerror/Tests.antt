-- ===== src/Strerror/Tests.antt =====
-- The theorems on strerror at concrete numbers.
use osdev_libstdc.Base.{Option, false, get_elem?, is_some, none, refl, some, ◌≡◌}
use osdev_libstdc.Base.Int.{negsuc, pos}
use osdev_libstdc.Strerror.{errno_table, error_strings, strerror}
use osdev_libstdc.Strerror.Laws.{strerror_of_errno, strerror_total}
use Prim.Native.String.{String}

strerror_total_example :
    (message : Option String) × (strerror (pos 0) (negsuc 4) ≡ some (pos 22, message))
    × (is_some message ≡ false)
strerror_total_example = strerror_total (pos 0) (negsuc 4)

strerror_of_errno_example :
    (get_elem? error_strings 122 ≡ some "Disk quota exceeded")
    × (strerror (pos 0) (pos 122) ≡ some (pos 22, none))
unfolding errno_table
strerror_of_errno_example = strerror_of_errno (pos 0) 121 122 "Disk quota exceeded" refl
