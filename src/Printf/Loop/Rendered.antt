-- ===== src/Printf/Loop/Rendered.antt =====
-- The loop of vsnprintf over the pieces of a format.
use osdev_libstdc.Base.{
  Bool-cases, List, Option, [], ap, append-nil, append_assoc, arith, false, if◌then◌else◌, inl, inr,
  leb, length, length-append, refl, some, subst, suc, sym, take, take_all, true, zero, ℕ, ◌++◌, ◌+◌,
  ◌-◌, ◌<◌, ◌==◌, ◌^◌, ◌||◌, ◌∙◌, ◌∷◌, ◌≡◌, ◌≤◌,
}
use osdev_libstdc.Memory.{Apart, Bytes, Mem, load}
use osdev_libstdc.Memory.Laws.{Bytes-append_left, Bytes-append_right}
use osdev_libstdc.Printf.Loop.{Frame, State, conversion, literal, vsnprintf_loop}
use osdev_libstdc.Printf.Loop.Heads.{Kept-IsPiece, first_is_not_nul, first_there}
use osdev_libstdc.Printf.Loop.Kept.{Kept-Bytes, Separate}
use osdev_libstdc.Printf.Loop.Pieces.{
  ArePieces, IsPiece, Piece, all_args, first, format_text, piece_args, piece_format, rendered,
  rendered_all,
}
use osdev_libstdc.Printf.Loop.Reached.{At, round-At}
use osdev_libstdc.Printf.Loop.Ready.{Kept-Ready, Ready}
use osdev_libstdc.Printf.Loop.Room.{IsPieceRoom, measured, measured-rendered, rendered-IsPieceRoom}
use osdev_libstdc.Printf.Loop.Rounds.{round-After}
use osdev_libstdc.Printf.Loop.Steps.{After}
use osdev_libstdc.Printf.Number.{max_number_len}
use osdev_libstdc.Printf.Spec.{Arg}

pub loop_stop :
    (k c : ℕ) (f : Frame) (buf size : ℕ) (s : State)
    → load (s.mem) (s.fmt) ≡ some c
    → c == 0 || leb size (s.written) ≡ true
    → vsnprintf_loop (suc k) f buf size s ≡ some s
unfolding vsnprintf_loop
loop_stop k c f buf size s h stop = rw (h, stop) refl

pub loop_round :
    (k c : ℕ) (f : Frame) (buf size : ℕ) (s s' : State)
    → load (s.mem) (s.fmt) ≡ some c
    → c == 0 || leb size (s.written) ≡ false
    → (if c == b'%' then conversion f buf size s else literal c s) ≡ some s'
    → vsnprintf_loop (suc k) f buf size s ≡ vsnprintf_loop k f buf size s'
unfolding vsnprintf_loop
loop_round k c f buf size s s' h more e = rw (h, more, e) refl

no_text_left : (k : ℕ) (out : List ℕ) → k + length out ≤ k → out ≡ []
no_text_left k [] h = refl
no_text_left k (x ∷ out) h = absurd (omega arith)

module _ (f : Frame) (buf n size : ℕ) (m0 : Mem)
    (apart_digits : Apart buf n (f.number_str) max_number_len) (apart_char : Apart buf n (f.c) 1)
    (small : size < 2 ^ 64) (ready : Ready f buf n m0) where
  -- The round for a piece, from any state that the loop may be in.
  pub At-After :
      (s : State) (out : List ℕ) (q : ℕ) (pc : Piece) (args : List Arg) (room : ℕ)
      → At f buf n m0 s out q (piece_args pc args)
      → IsPiece f buf n m0 pc
      → Bytes m0 q (piece_format pc)
      → Separate f buf n q (length (piece_format pc))
      → length out + room ≡ size
      → 1 ≤ room
      → IsPieceRoom room pc
      → length out + length (take room (measured room pc)) ≤ n
      → After f s
          (length out)
          (take room (measured room pc))
          (length out + length (measured room pc))
          (length (piece_format pc))
          args
          (if first pc == b'%' then conversion f buf size s else literal (first pc) s)
  At-After s out q pc args room a ok h apart left more fits le =
      round-After f buf n size apart_digits apart_char small s (length out) room
        (Kept-Ready f buf n buf n m0 (s.mem) a.kept ready) a.here a.counted a.totalled left pc args
        (Kept-IsPiece f buf n m0 (s.mem) a.kept pc ok)
        (rw a.format_at (Kept-Bytes f buf n m0 (s.mem) a.kept q (piece_format pc) apart h)) a.given
        fits more le

  pub load-first :
      (s : State) (out : List ℕ) (q : ℕ) (pc : Piece) (args : List Arg)
      → At f buf n m0 s out q args
      → Bytes m0 q (piece_format pc)
      → Separate f buf n q (length (piece_format pc))
      → load (s.mem) (s.fmt) ≡ some (first pc)
  load-first s out q pc args a h apart =
      rw a.format_at (
        first_there (s.mem) q pc (Kept-Bytes f buf n m0 (s.mem) a.kept q (piece_format pc) apart h))

  -- A piece that fits, as it is in its room.
  pub measured_step :
      (s : State) (out : List ℕ) (q : ℕ) (pc : Piece) (args : List Arg) (room : ℕ)
      → At f buf n m0 s out q (piece_args pc args)
      → IsPiece f buf n m0 pc
      → Bytes m0 q (piece_format pc)
      → Separate f buf n q (length (piece_format pc))
      → length out + room ≡ size
      → 1 ≤ room
      → IsPieceRoom room pc
      → length (measured room pc) ≤ room
      → length out + length (measured room pc) ≤ n
      → (s' : State) × At f buf n m0 s'
          (out ++ measured room pc)
          (q + length (piece_format pc))
          args
        × ((k : ℕ) → vsnprintf_loop (suc k) f buf size s ≡ vsnprintf_loop k f buf size s')
  measured_step s out q pc args room a ok h apart left more fits whole le =
      let all : take room (measured room pc) ≡ measured room pc =
        take_all room (measured room pc) whole in
      let b = rw all at (At-After s out q pc args room a ok h apart left more fits (rw all le)) in
      let not_full : leb size (s.written) ≡ false = ground (arith, a.counted, left) in
      (
        b.next,
        round-At f buf n m0 apart_digits apart_char s out (measured room pc)
            (length out + length (measured room pc)) (length (piece_format pc)) q
            (piece_args pc args) args
            (if first pc == b'%' then conversion f buf size s else literal (first pc) s) a b le
            refl,
        λ k.
            loop_round k (first pc) f buf size s (b.next)
              (load-first s out q pc (piece_args pc args) a h apart)
              (rw (first_is_not_nul f buf n m0 pc ok, not_full) refl) b.runs,
      )

  piece_step :
      (s : State) (out : List ℕ) (q : ℕ) (pc : Piece) (args : List Arg)
      → At f buf n m0 s out q (piece_args pc args)
      → IsPiece f buf n m0 pc
      → Bytes m0 q (piece_format pc)
      → Separate f buf n q (length (piece_format pc))
      → length out < size
      → length out + length (rendered pc) ≤ size
      → length out + length (rendered pc) ≤ n
      → (s' : State) × At f buf n m0 s' (out ++ rendered pc) (q + length (piece_format pc)) args
        × ((k : ℕ) → vsnprintf_loop (suc k) f buf size s ≡ vsnprintf_loop k f buf size s')
  piece_step s out q pc args a ok h apart more fits le =
      let room = size - length out in
      let whole = measured-rendered room pc (omega arith) in
      rw whole at (
        measured_step s out q pc args room a ok h apart (omega arith) (omega arith)
          (rendered-IsPieceRoom room pc (omega arith)) (rw whole (omega arith)) (rw whole le))

  -- No room any more.
  pub piece_stop :
      (s : State) (out : List ℕ) (q : ℕ) (pc : Piece) (args : List Arg) (k : ℕ)
      → At f buf n m0 s out q args
      → IsPiece f buf n m0 pc
      → Bytes m0 q (piece_format pc)
      → Separate f buf n q (length (piece_format pc))
      → size ≤ length out
      → vsnprintf_loop (suc k) f buf size s ≡ some s
  piece_stop s out q pc args k a ok h apart full =
      let is_full : leb size (s.written) ≡ true = ground (arith, a.counted) in
      loop_stop k (first pc) f buf size s (load-first s out q pc args a h apart)
        (rw (first_is_not_nul f buf n m0 pc ok, is_full) refl)

  -- The loop over the pieces `ps`: at their end, or where there is no room any more, whatever holds of
  -- the loop from there on holds of it.
  pub loop_pieces :
      (P : Option State → Type 0) (ps : List Piece) (fuel k : ℕ) (s : State) (out : List ℕ) (q : ℕ)
      (args : List Arg) (tail : List ℕ)
      → fuel ≡ length ps + k
      → ArePieces f buf n m0 ps
      → Bytes m0 q (format_text ps ++ tail)
      → Separate f buf n q (length (format_text ps ++ tail))
      → At f buf n m0 s out q (all_args ps args)
      → length out + length (rendered_all ps) ≤ n
      → length out + length (rendered_all ps) ≤ size
      → ((s' : State)
          → At f buf n m0 s' (out ++ rendered_all ps) (q + length (format_text ps)) args
          → P (vsnprintf_loop k f buf size s'))
      → ((s' : State) (q' : ℕ) (args' : List Arg)
          → length (out ++ rendered_all ps) ≡ size
          → At f buf n m0 s' (out ++ rendered_all ps) q' args'
          → P (some s'))
      → P (vsnprintf_loop fuel f buf size s)
  loop_pieces P [] fuel k s out q args tail enough ok h apart a le fits at_end full =
      let start : q + length {A = ℕ} [] ≡ q = omega arith in
      subst (λ x. P (vsnprintf_loop x f buf size s)) (sym (enough ∙ omega arith))
        (at_end s (rw (append-nil out, start) a))
  loop_pieces P (pc ∷ ps) zero k s out q args tail enough ok h apart a le fits at_end full =
      absurd (omega (arith, enough))
  loop_pieces P (pc ∷ ps) (suc fuel) k s out q args tail enough ok h apart a le fits at_end full =
      let mine = piece_format pc in
      let rest = rendered_all ps in
      let whole : Bytes m0 q (mine ++ (format_text ps ++ tail)) =
        rw (append_assoc mine (format_text ps) tail) at h in
      let len : length (mine ++ format_text ps ++ tail)
          ≡ length mine + length (format_text ps ++ tail) =
        ap length (append_assoc mine (format_text ps) tail)
        ∙ length-append mine (format_text ps ++ tail) in
      let split : length (rendered pc ++ rest) ≡ length (rendered pc) + length rest =
        length-append (rendered pc) rest in
      let here = Bytes-append_left m0 q mine (format_text ps ++ tail) whole in
      let apart' : Separate f buf n q (length mine) =
        (omega (arith, len), omega (arith, len), omega (arith, len)) in
      elim (Bool-cases (leb size (length out))) [
        | inl no_room ↦
            let none_left : out ++ (rendered pc ++ rest) ≡ out =
              ap (λ l. out ++ l)
                (no_text_left (length out) (rendered pc ++ rest) (ground (arith, no_room)))
              ∙ append-nil out in
            subst P
              (sym (
                piece_stop s out q pc (all_args (pc ∷ ps) args) fuel a ok.0 here apart'
                  (ground (arith, no_room))))
              (full s q (all_args (pc ∷ ps) args) (ap length none_left ∙ ground (arith, no_room))
                (rw none_left a))
        | inr room ↦
            let (s', a', step) =
              piece_step s out q pc (all_args ps args) a ok.0 here apart' (ground (arith, room))
                (omega (arith, split)) (omega (arith, split)) in
            let joined = append_assoc out (rendered pc) rest in
            let behind : q + length mine + length (format_text ps)
                ≡ q + length (mine ++ format_text ps) =
              omega (arith, length-append mine (format_text ps)) in
            subst P (sym (step fuel)) (
              loop_pieces P ps fuel k s' (out ++ rendered pc) (q + length mine) args tail
                (omega (arith, enough)) ok.1
                (Bytes-append_right m0 q mine (format_text ps ++ tail) whole)
                (omega (arith, len), omega (arith, len), omega (arith, len)) a'
                (omega (arith, split, length-append out (rendered pc)))
                (omega (arith, split, length-append out (rendered pc))) (rw (joined, behind) at_end)
                (rw joined full))
      ]
