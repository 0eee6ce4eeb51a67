-- ===== src/Printf/Loop/Bounded.antt =====
-- vsnprintf in a buffer of any size.
use osdev_libstdc.Base.{List, Option, length, take, ℕ, ◌++◌, ◌+◌, ◌<◌, ◌^◌}
use osdev_libstdc.Memory.{Apart, Mem}
use osdev_libstdc.Printf.Loop.{Frame, State}
use osdev_libstdc.Printf.Loop.Kept.{Kept}
use osdev_libstdc.Printf.Loop.Reached.{Done}
use osdev_libstdc.Printf.Loop.Ready.{Ready}
use osdev_libstdc.Printf.Number.{max_number_len}

module _ (f : Frame) (buf size : ℕ) (m : Mem)
    (apart_digits : Apart buf (size + 1) (f.number_str) max_number_len)
    (apart_char : Apart buf (size + 1) (f.c) 1) (small : size < 2 ^ 64)
    (ready : Ready f buf (size + 1) m) where
  -- The loop has written what the room lets through, and counted all.
  abbrev Cut : (out text : List ℕ) → (room : ℕ) → Option State → Type 0
  Cut out text room r = Done f buf (size + 1) m (out ++ take room text) (length out + length text) r
