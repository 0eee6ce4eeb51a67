-- ===== src/Printf/Loop/Truncation.antt =====
-- The loop of vsnprintf where the room ends within a piece.
use osdev_libstdc.Base.{
  List, Option, [], ap, arith, false, if◌then◌else◌, leb, length, length-append, length-take, refl,
  some, suc, sym, take, take-append, true, ℕ, ◌++◌, ◌+◌, ◌<◌, ◌==◌, ◌^◌, ◌∙◌, ◌∷◌, ◌≡◌, ◌≤◌,
}
use osdev_libstdc.Memory.{Apart, Bytes, Mem, load}
use osdev_libstdc.Memory.Laws.{Bytes-append_left}
use osdev_libstdc.Printf.Loop.{Frame, State, conversion, literal, vsnprintf_loop}
use osdev_libstdc.Printf.Loop.Heads.{first_is_not_nul}
use osdev_libstdc.Printf.Loop.Kept.{Separate}
use osdev_libstdc.Printf.Loop.Pieces.{IsPiece, Piece, first, piece_args, piece_format}
use osdev_libstdc.Printf.Loop.Reached.{At, Done, round-Bytes, round-Kept, round-here}
use osdev_libstdc.Printf.Loop.Ready.{Ready}
use osdev_libstdc.Printf.Loop.Refinement.{next_there}
use osdev_libstdc.Printf.Loop.Rendered.{At-After, load-first, loop_round, loop_stop}
use osdev_libstdc.Printf.Loop.Room.{IsPieceRoom, measured}
use osdev_libstdc.Printf.Loop.Steps.{After}
use osdev_libstdc.Printf.Number.{max_number_len}
use osdev_libstdc.Printf.Spec.{Arg}

-- The loop stops behind the piece that the room ends in.
module _ (f : Frame) (buf size : ℕ) (m : Mem)
    (apart_digits : Apart buf (size + 1) (f.number_str) max_number_len)
    (apart_char : Apart buf (size + 1) (f.c) 1) where
  cut_Done :
      (s : State) (out more : List ℕ) (q t len next : ℕ) (args args' : List Arg) (k c : ℕ)
      → (r : Option State) → (if c == b'%' then conversion f buf size s else literal c s) ≡ r
      → load (s.mem) (s.fmt) ≡ some c
      → (c == 0) ≡ false
      → length out < size
      → At f buf (size + 1) m s out q args
      → (b : After f s (length out) more t len args' r) → length out + length more ≡ size
      → load (b.next.mem) (q + len) ≡ some next
      → Done f buf (size + 1) m (out ++ more) t (vsnprintf_loop (suc (suc k)) f buf size s)
  cut_Done s out more q t len next args args' k c r round here no_nul fits a b all at_next =
      let n = size + 1 in
      let not_full : leb size (s.written) ≡ false = ground (arith, a.counted) in
      let full : leb size (b.next.written) ≡ true = ground (arith, b.counted, all) in
      let le : length out + length more ≤ n = omega (arith, all) in
      record {
        final = b.next;
        runs =
            loop_round (suc k) c f buf size s (b.next) here (rw (no_nul, not_full) refl)
              (round ∙ b.runs)
            ∙ loop_stop k next f buf size (b.next)
                (ap (λ (x : ℕ). load (b.next.mem) x)
                    (b.consumed ∙ ap (λ (x : ℕ). x + len) a.format_at)
                  ∙ at_next)
                (rw full (ground arith));
        here = round-here f buf n m apart_digits apart_char s out more t len q args args' r a b le;
        totalled = b.totalled;
        kept = round-Kept f buf n m apart_digits apart_char s out more t len q args args' r a b le;
        there =
            round-Bytes f buf n m apart_digits apart_char s out more t len q args args' r a b le;
      }

  -- The last piece, where the room ends in it.
  module _ (small : size < 2 ^ 64) (ready : Ready f buf (size + 1) m) where
    pub cut_step :
        (s : State) (out : List ℕ) (q room next : ℕ) (pc : Piece) (args : List Arg) (k : ℕ)
        → At f buf (size + 1) m s out q (piece_args pc args)
        → IsPiece f buf (size + 1) m pc
        → Bytes m q (piece_format pc ++ next ∷ [])
        → Separate f buf (size + 1) q (length (piece_format pc ++ next ∷ []))
        → length out + room ≡ size
        → 1 ≤ room
        → room ≤ length (measured room pc)
        → IsPieceRoom room pc
        → Done f buf
            (size + 1)
            m
            (take size (out ++ measured room pc))
            (length out + length (measured room pc))
            (vsnprintf_loop (suc (suc k)) f buf size s)
    cut_step s out q room next pc args k a ok h apart left more over fits =
        let n = size + 1 in
        let text = piece_format pc in
        let cut = take room (measured room pc) in
        let t = length out + length (measured room pc) in
        let c = first pc in
        let len : length cut ≡ room = length-take room (measured room pc) ∙ omega arith in
        let split = length-append text (next ∷ []) in
        let here = Bytes-append_left m q text (next ∷ []) h in
        let apart' : Separate f buf n q (length text) =
          (omega (arith, split), omega (arith, split), omega (arith, split)) in
        let b =
          At-After f buf n size m apart_digits apart_char small ready s out q pc args room a ok here
            apart' left more fits (omega (arith, len)) in
        let r = if c == b'%' then conversion f buf size s else literal c s in
        let kept =
          round-Kept f buf n m apart_digits apart_char s out cut t (length text) q
            (piece_args pc args) args r a b (omega (arith, len)) in
        rw (take-append size room out (measured room pc) (sym left)) (
          cut_Done s out cut q t (length text) next (piece_args pc args) args k c r refl
            (load-first f buf n size m apart_digits apart_char small ready s out q pc
              (piece_args pc args) a here apart')
            (first_is_not_nul f buf n m pc ok) (omega (arith, left)) a b (omega (arith, len, left))
            (next_there f m (b.next.mem) buf n q text next kept h apart))
