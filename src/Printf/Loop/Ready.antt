-- ===== src/Printf/Loop/Ready.antt =====
-- The memory that a call of vsnprintf needs, and how much of it is left.
use osdev_libstdc.Base.{
  arith, is_some, length, length-append, true, ℕ, ◌++◌, ◌+◌, ◌-◌, ◌∙◌, ◌∷◌, ◌≡◌, ◌≤◌,
}
use osdev_libstdc.Base.Int.{pos, ◌-ℤ◌}
use osdev_libstdc.Memory.{Mapped, Mem, load}
use osdev_libstdc.Memory.Laws.{Mapped-shift, Mapped-sub}
use osdev_libstdc.Printf.Loop.{Frame}
use osdev_libstdc.Printf.Loop.Kept.{Kept, Kept-Mapped}
use osdev_libstdc.Printf.Number.{max_number_len}
use osdev_libstdc.Printf.Spec.{LengthSpec}
use osdev_libstdc.Printf.Spec.Sizes.{length-specifier_text, size_len, specifier_text}
use osdev_libstdc.Printf.Spec.Written.{Directive, directive_text}

-- The frame's variables and the range are mapped.
pub record Ready (f : Frame) (p n : ℕ) (m : Mem) : Type 0 where
  pub digits_room : Mapped m (f.number_str) max_number_len
  pub char_room : is_some (load m (f.c)) ≡ true
  pub out_room : Mapped m p n

pub Kept-Ready :
    (f : Frame) (q k p n : ℕ) (m m' : Mem) → Kept f q k m m' → Ready f p n m → Ready f p n m'
Kept-Ready f q k p n m m' a h = record {
  digits_room = Kept-Mapped f q k m m' a (f.number_str) max_number_len h.digits_room;
  char_room = a.mapped (f.c) ∙ h.char_room;
  out_room = Kept-Mapped f q k m m' a p n h.out_room;
}

pub out_room_at : (m : Mem) (p n w k : ℕ) → Mapped m p n → w + k ≤ n → Mapped m (p + w) k
out_room_at m p n w k h le =
    let e : n ≡ w + (n - w) = omega arith in
    Mapped-sub m (p + w) (n - w) k (Mapped-shift m p w (n - w) (rw e at h)) (omega arith)

pub room_left : (size w room : ℕ) → w + room ≡ size → pos size -ℤ pos w ≡ pos room
unfolding ◌-ℤ◌
room_left size w room e = ground (arith, e)

pub length-conversion :
    (d : Directive) (ls : LengthSpec) (x : ℕ)
    → length (b'%' ∷ (directive_text d ++ specifier_text ls x))
      ≡ length (directive_text d) + size_len ls + 2
length-conversion d ls x =
    omega
      (arith, length-append (directive_text d) (specifier_text ls x), length-specifier_text ls x)
