-- ===== src/Printf/Loop/Room.antt =====
-- A piece in the room that is left for it.
-- The text of a piece in a room of `room` characters, past which the code reads no string.
use osdev_libstdc.Base.{
  Bool-cases, List, [], ap, arith, inl, inr, length, refl, subst, suc, sym, take, take_all, zero, ℕ,
  ◌++◌, ◌-◌, ◌∷◌, ◌≡◌, ◌≤◌,
}
use osdev_libstdc.Base.Int.{pos, to_unsigned}
use osdev_libstdc.Printf.Args.Laws.{magnitude_of, signed_of, signed_spec, unsigned_of}
use osdev_libstdc.Printf.Field.Laws.{blanks_of, length-field}
use osdev_libstdc.Printf.Field.Strings.{cut_string}
use osdev_libstdc.Printf.Loop.NumberTexts.{number_body, number_field}
use osdev_libstdc.Printf.Loop.Numbers.{IsNumberRoom, plain_number_field}
use osdev_libstdc.Printf.Loop.Pieces.{
  Piece, address_spec, char_piece, percent_piece, plain_piece, pointer_piece, rendered,
  signed_piece, spec_of, start_spec, string_piece, unsigned_piece, unsigned_spec,
}
use osdev_libstdc.Printf.Loop.Writes.{IsRoom, in_field}
use osdev_libstdc.Printf.Spec.{FormatSpec}

abbrev pub measured : (room : ℕ) → Piece → List ℕ
measured room (string_piece d p s) =
    let spec = spec_of d (start_spec (pos 0)) in
    in_field spec (take room (cut_string (spec.precision) s))
measured room pc = rendered pc

-- The room is enough for the piece, or for the blanks before its value, or there are no blanks.
abbrev pub IsPieceRoom : (room : ℕ) → Piece → Type 0
IsPieceRoom room (plain_piece c) = Unit
IsPieceRoom room percent_piece = Unit
IsPieceRoom room (signed_piece x ls d v) =
    IsNumberRoom (signed_spec (signed_of ls v) (spec_of d (start_spec (pos 0))))
      (magnitude_of (signed_of ls v)) room
IsPieceRoom room (unsigned_piece b ls d v) =
    IsNumberRoom (unsigned_spec b (spec_of d (start_spec (pos 0)))) (unsigned_of ls v) room
IsPieceRoom room (pointer_piece d p) =
    IsNumberRoom (address_spec (spec_of d (start_spec (pos 0)))) p room
IsPieceRoom room (char_piece d v) = IsRoom (spec_of d (start_spec (pos 0))) 1 room
IsPieceRoom room (string_piece d p s) =
    let spec = spec_of d (start_spec (pos 0)) in
    IsRoom spec (length (take room (cut_string (spec.precision) s))) room

number_field-IsNumberRoom :
    (spec : FormatSpec) (k room : ℕ)
    → length (number_field spec k) ≤ room
    → IsNumberRoom spec k room
number_field-IsNumberRoom spec k room le = elim (Bool-cases (spec.flags.f_zero)) [
  | inl filled ↦ inl filled
  | inr no_zero ↦
      let len =
        length-field (spec.flags.f_minus) (blanks_of spec (length (number_body spec k)))
          (number_body spec k) in
      inr (inl (omega (arith, len, ap length (plain_number_field spec k no_zero), le)))
]

in_field-IsRoom :
    (spec : FormatSpec) (bs : List ℕ) (room : ℕ)
    → length (in_field spec bs) ≤ room
    → IsRoom spec (length bs) room
in_field-IsRoom spec bs room le =
    inl (omega (arith, length-field (spec.flags.f_minus) (blanks_of spec (length bs)) bs))

module _ (room : ℕ) where
  whole_string :
      (spec : FormatSpec) (s : List ℕ)
      → length (in_field spec (cut_string (spec.precision) s)) ≤ room
      → take room (cut_string (spec.precision) s) ≡ cut_string (spec.precision) s
  whole_string spec s le =
      let cut = cut_string (spec.precision) s in
      let len = length-field (spec.flags.f_minus) (blanks_of spec (length cut)) cut in
      take_all room cut (omega (arith, len))

  -- Where the whole text of a piece fits, it is what the piece makes.
  pub measured-rendered :
      (pc : Piece) → length (rendered pc) ≤ room → measured room pc ≡ rendered pc
  measured-rendered (plain_piece c) le = refl
  measured-rendered percent_piece le = refl
  measured-rendered (signed_piece x ls d v) le = refl
  measured-rendered (unsigned_piece b ls d v) le = refl
  measured-rendered (pointer_piece d p) le = refl
  measured-rendered (char_piece d v) le = refl
  measured-rendered (string_piece d p s) le =
      let spec = spec_of d (start_spec (pos 0)) in ap (in_field spec) (whole_string spec s le)

  pub rendered-IsPieceRoom : (pc : Piece) → length (rendered pc) ≤ room → IsPieceRoom room pc
  rendered-IsPieceRoom (plain_piece c) le = tt
  rendered-IsPieceRoom percent_piece le = tt
  rendered-IsPieceRoom (signed_piece x ls d v) le =
      number_field-IsNumberRoom (signed_spec (signed_of ls v) (spec_of d (start_spec (pos 0))))
        (magnitude_of (signed_of ls v)) room le
  rendered-IsPieceRoom (unsigned_piece b ls d v) le =
      number_field-IsNumberRoom (unsigned_spec b (spec_of d (start_spec (pos 0))))
        (unsigned_of ls v) room le
  rendered-IsPieceRoom (pointer_piece d p) le =
      number_field-IsNumberRoom (address_spec (spec_of d (start_spec (pos 0)))) p room le
  rendered-IsPieceRoom (char_piece d v) le =
      in_field-IsRoom (spec_of d (start_spec (pos 0))) (to_unsigned 8 v ∷ []) room le
  rendered-IsPieceRoom (string_piece d p s) le =
      let spec = spec_of d (start_spec (pos 0)) in
      subst (λ l. IsRoom spec (length l) room) (sym (whole_string spec s le))
        (in_field-IsRoom spec (cut_string (spec.precision) s) room le)

-- The text that the pieces come to in a room of so many characters: the last of them may go past it,
-- and no piece is begun where there is no room.
abbrev pub shown_pieces : (room : ℕ) → List Piece → List ℕ
shown_pieces zero ps = []
shown_pieces (suc r) [] = []
shown_pieces (suc r) (pc ∷ ps) =
    measured (suc r) pc ++ shown_pieces (suc r - length (measured (suc r) pc)) ps

-- Each piece that is begun fits its room, or its blanks before the value do, or there are none.
abbrev pub AreRoom : (room : ℕ) → List Piece → Type 0
AreRoom zero ps = Unit
AreRoom (suc r) [] = Unit
AreRoom (suc r) (pc ∷ ps) =
    IsPieceRoom (suc r) pc × AreRoom (suc r - length (measured (suc r) pc)) ps

pub shown_pieces_end : (room : ℕ) (ps : List Piece) → room ≡ 0 → shown_pieces room ps ≡ []
shown_pieces_end room ps e = ap (λ (k : ℕ). shown_pieces k ps) e

pub shown_pieces_none : (room : ℕ) → shown_pieces room [] ≡ []
shown_pieces_none zero = refl
shown_pieces_none (suc r) = refl
