-- ===== src/Printf/Loop/Heads.antt =====
-- How a piece starts in a format, and the pieces while memory changes outside them.
use osdev_libstdc.Base.{
  List, [], arith, false, length, length-append, refl, some, ℕ, ◌++◌, ◌==◌, ◌∷◌, ◌≡◌, ◌≤◌,
}
use osdev_libstdc.Memory.{Bytes, Mem, load}
use osdev_libstdc.Printf.Field.{or_null}
use osdev_libstdc.Printf.Loop.{Frame}
use osdev_libstdc.Printf.Loop.Kept.{Kept, Kept-Bytes}
use osdev_libstdc.Printf.Loop.Pieces.{
  ArePieces, IsPiece, Piece, char_piece, first, format_text, percent_piece, piece_format,
  plain_piece, pointer_piece, signed_piece, string_piece, unsigned_piece,
}

pub first_is_not_nul :
    (f : Frame) (p n : ℕ) (m : Mem) (pc : Piece) → IsPiece f p n m pc → (first pc == 0) ≡ false
first_is_not_nul f p n m (plain_piece c) h = h.0
first_is_not_nul f p n m percent_piece h = refl
first_is_not_nul f p n m (signed_piece x ls d v) h = refl
first_is_not_nul f p n m (unsigned_piece b ls d v) h = refl
first_is_not_nul f p n m (pointer_piece d a) h = refl
first_is_not_nul f p n m (char_piece d v) h = refl
first_is_not_nul f p n m (string_piece d q t) h = refl

pub first_there :
    (m : Mem) (q : ℕ) (pc : Piece) → Bytes m q (piece_format pc) → load m q ≡ some (first pc)
first_there m q (plain_piece c) h = h.0
first_there m q percent_piece h = h.0
first_there m q (signed_piece x ls d v) h = h.0
first_there m q (unsigned_piece b ls d v) h = h.0
first_there m q (pointer_piece d a) h = h.0
first_there m q (char_piece d v) h = h.0
first_there m q (string_piece d p t) h = h.0

piece_not_empty : (pc : Piece) → 1 ≤ length (piece_format pc)
piece_not_empty (plain_piece c) = omega arith
piece_not_empty percent_piece = omega arith
piece_not_empty (signed_piece x ls d v) = omega arith
piece_not_empty (unsigned_piece b ls d v) = omega arith
piece_not_empty (pointer_piece d a) = omega arith
piece_not_empty (char_piece d v) = omega arith
piece_not_empty (string_piece d q t) = omega arith

pub length-format_text : (ps : List Piece) → length ps ≤ length (format_text ps)
length-format_text [] = omega arith
length-format_text (pc ∷ ps) = omega (
  arith,
  length-append (piece_format pc) (format_text ps),
  piece_not_empty pc,
  length-format_text ps,
)

module _ (f : Frame) (p n : ℕ) (m m' : Mem) (a : Kept f p n m m') where
  pub Kept-IsPiece : (pc : Piece) → IsPiece f p n m pc → IsPiece f p n m' pc
  Kept-IsPiece (plain_piece c) h = h
  Kept-IsPiece percent_piece h = h
  Kept-IsPiece (signed_piece x ls d v) h = h
  Kept-IsPiece (unsigned_piece b ls d v) h = h
  Kept-IsPiece (pointer_piece d a) h = h
  Kept-IsPiece (char_piece d v) h = h
  Kept-IsPiece (string_piece d q t) (ok, string, separate) = (
    ok,
    (
      Kept-Bytes f p n m m' a (or_null (f.k_null) q) (t ++ 0 ∷ [])
          (rw (length-append t (0 ∷ [])) separate) string.0,
      string.1,
    ),
    separate,
  )

  Kept-ArePieces : (ps : List Piece) → ArePieces f p n m ps → ArePieces f p n m' ps
  Kept-ArePieces [] h = tt
  Kept-ArePieces (pc ∷ ps) h = (Kept-IsPiece pc h.0, Kept-ArePieces ps h.1)
