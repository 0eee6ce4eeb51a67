-- ===== src/Printf/Loop/Scratch.antt =====
-- The array of format_number: the sign and the digits in it.
use osdev_libstdc.Base.{
  Bool-cases, List, [], arith, if◌then◌else◌, inl, inr, is_some, length, some, true, ℕ, ◌+◌, ◌-◌,
  ◌<◌, ◌==◌, ◌∙◌, ◌∷◌, ◌≡◌, ◌≤◌,
}
use osdev_libstdc.Memory.{Bytes, Mapped, Mem, load, store, write, write_list}
use osdev_libstdc.Memory.Laws.{
  Bytes-write_list_self, Mapped-head, Mapped-shift, Mapped-sub, Mapped-write, load-write_list_out,
  load-write_self, store-eq-write,
}
use osdev_libstdc.Printf.Field.Laws.{digits_at}
use osdev_libstdc.Printf.Loop.{Frame}
use osdev_libstdc.Printf.Loop.Kept.{Kept, Kept-trans, Kept-write_list}
use osdev_libstdc.Printf.Number.{max_number_len}
use native.Mathlib.Nat.{add-zero}

-- A sign, or 0 for none, and the digits.
abbrev pub signed_text : (sign : ℕ) → List ℕ → List ℕ
signed_text sign t = if sign == 0 then t else sign ∷ t

pub length-signed_text :
    (sign : ℕ) (t : List ℕ) → length (signed_text sign t) ≡ length t + digits_at sign
length-signed_text sign t = elim (Bool-cases (sign == 0)) [
  | inl e ↦ rw e (omega arith)
  | inr e ↦ rw e (omega arith)
]

module _ (f : Frame) (m : Mem) (sign : ℕ) (t : List ℕ)
    (room : Mapped m (f.number_str) max_number_len) (fits : length t < max_number_len) where
  sign_free : is_some (load m (f.number_str)) ≡ true
  sign_free = Mapped-head m (f.number_str) 65 room

  room_behind : (k : ℕ) → k ≤ 1 → Mapped (write m (f.number_str) sign) (f.number_str + k) (length t)
  room_behind k le =
      Mapped-sub (write m (f.number_str) sign) (f.number_str + k) (max_number_len - k) (length t)
        (Mapped-shift (write m (f.number_str) sign) (f.number_str) k (max_number_len - k) (
          rw whole
            (Mapped-write m (f.number_str) max_number_len (f.number_str) sign sign_free room)))
        (omega arith)
    where
      whole : k + (max_number_len - k) ≡ max_number_len
      whole = omega arith

  scratch-Kept :
      (k p n : ℕ)
      → k ≤ 1
      → Kept f p n m (write_list (write m (f.number_str) sign) (f.number_str + k) t)
  unfolding write_list
  scratch-Kept k p n le =
      Kept-trans f p n m (write m (f.number_str) sign)
        (write_list (write m (f.number_str) sign) (f.number_str + k) t)
        (Kept-write_list f p n m (f.number_str) (sign ∷ []) (sign_free, tt) (λ x h. omega arith))
        (Kept-write_list f p n (write m (f.number_str) sign) (f.number_str + k) t (room_behind k le)
          (λ x h. omega arith))

-- What format_number leaves in its array: the sign and the digits.
unfoldable pub Scratch : Frame → Mem → (sign : ℕ) → List ℕ → Type 0
Scratch f m sign t =
    (m' : Mem) × (store m (f.number_str) sign ≡ some m')
    × Mapped m' (f.number_str + digits_at sign) (length t)
    × Bytes (write_list m' (f.number_str + digits_at sign) t) (f.number_str) (signed_text sign t)
    × ((p n : ℕ) → Kept f p n m (write_list m' (f.number_str + digits_at sign) t))

pub number-Scratch :
    (f : Frame) (m : Mem) (sign : ℕ) (t : List ℕ)
    → Mapped m (f.number_str) max_number_len
    → length t < max_number_len
    → Scratch f m sign t
unfolding Scratch
number-Scratch f m sign t room fits =
    let m' = write m (f.number_str) sign in
    let free = sign_free f m sign t room fits in
    elim (Bool-cases (sign == 0)) [
      | inl e ↦ rw e (
        m',
        store-eq-write m (f.number_str) sign free,
        room_behind f m sign t room fits 0 (omega arith),
        rw (add-zero (f.number_str)) (
            Bytes-write_list_self m' (f.number_str) t
              (rw (add-zero (f.number_str)) at (room_behind f m sign t room fits 0 (omega arith)))),
        λ p n. scratch-Kept f m sign t room fits 0 p n (omega arith),
      )
      | inr e ↦ rw e (
        m',
        store-eq-write m (f.number_str) sign free,
        room_behind f m sign t room fits 1 (omega arith),
        (
          load-write_list_out m' (f.number_str + 1) t (f.number_str) (inl (omega arith))
              ∙ load-write_self m (f.number_str) sign free,
          Bytes-write_list_self m' (f.number_str + 1) t
              (room_behind f m sign t room fits 1 (omega arith)),
        ),
        λ p n. scratch-Kept f m sign t room fits 1 p n (omega arith),
      )
    ]
