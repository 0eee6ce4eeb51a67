-- ===== src/Printf/Loop/Rounds.antt =====
-- One round of the loop for each kind of piece.
use osdev_libstdc.Base.{
  List, Option, [], arith, if◌then◌else◌, inl, inr, length, length-take, none, refl, some, sym,
  take, take_all, ℕ, ◌++◌, ◌+◌, ◌<◌, ◌==◌, ◌^◌, ◌∙◌, ◌∷◌, ◌≡◌, ◌≤◌,
}
use osdev_libstdc.Base.Int.{pos, ℤ, ◌-ℤ◌}
use osdev_libstdc.Memory.{Apart, Bytes, Mapped}
use osdev_libstdc.Printf.Args.Laws.{
  format_signed_lem, magnitude_of, read_format_unsigned_int_lem, signed_of, signed_spec, sized_arg,
  unsigned_of,
}
use osdev_libstdc.Printf.Field.{format_char, format_number, format_string}
use osdev_libstdc.Printf.Field.Strings.{cut_string, length-cut_string}
use osdev_libstdc.Printf.Loop.{
  Converted, Frame, State, conversion, dispatch, literal, pointer_spec, put_char,
}
use osdev_libstdc.Printf.Loop.NumberTexts.{IsNumeric, number_field}
use osdev_libstdc.Printf.Loop.Numbers.{IsNumberRoom, format_number-Writes}
use osdev_libstdc.Printf.Loop.Pieces.{
  Base, IsPiece, Piece, SignedName, base_spec, char_piece, first, percent_piece, piece_args,
  piece_format, plain_piece, pointer_piece, rendered, signed_letter, signed_letter-IsSpecifier,
  signed_piece, spec_of, specifier, specifier-IsSpecifier, start_spec, string_piece, unsigned_piece,
  unsigned_spec,
}
use osdev_libstdc.Printf.Loop.Ready.{Ready, length-conversion, out_room_at, room_left}
use osdev_libstdc.Printf.Loop.Room.{IsPieceRoom, measured}
use osdev_libstdc.Printf.Loop.Steps.{
  After, conversion-After, dispatch_char, dispatch_percent, dispatch_pointer, dispatch_signed,
  dispatch_string, dispatch_unsigned, literal-After,
}
use osdev_libstdc.Printf.Loop.Texts.{format_char-Writes, format_string-Writes, put_char-Writes}
use osdev_libstdc.Printf.Loop.Writes.{of_eq-Writes, with_args, with_args-Writes}
use osdev_libstdc.Printf.Number.{max_number_len}
use osdev_libstdc.Printf.Spec.{Arg, FormatSpec, LengthSpec, int_arg, pointer_arg}
use osdev_libstdc.Printf.Spec.Sizes.{sized, specifier_text}
use osdev_libstdc.Printf.Spec.Specifiers.{
  char-IsSpecifier, percent-IsSpecifier, pointer-IsSpecifier, string-IsSpecifier,
}
use osdev_libstdc.Printf.Spec.Written.{
  Directive, IsDirective, IsSpecifier, directive_args, directive_text, no_precision, no_width,
}

-- The state `s` has written `w` characters from `buf` on, and `n` of its buffer may be used; there is
-- `room` for more.
module _ (f : Frame) (buf n size : ℕ) (apart_digits : Apart buf n (f.number_str) max_number_len)
    (apart_char : Apart buf n (f.c) 1) (small : size < 2 ^ 64) (s : State) (w room : ℕ)
    (ready : Ready f buf n (s.mem)) (here : s.pos_at ≡ buf + w) (written : s.written ≡ w)
    (counted : s.spec.total ≡ pos w) (left : w + room ≡ size) where
  out_there : (k : ℕ) → w + k ≤ n → Mapped (s.mem) (s.pos_at) k
  out_there k le = rw here (out_room_at (s.mem) buf n w k ready.out_room le)

  -- The switch at the specifier `x` of the directive `d`, with the arguments `given`.
  abbrev switched : (x : ℕ) → LengthSpec → Directive → List Arg → Option Converted
  switched x ls d given =
      dispatch (s.mem) f x (s.pos_at) (s.written) (sized ls (spec_of d (start_spec (s.spec.total))))
        (pos size -ℤ pos (s.written)) (pos size -ℤ pos (s.i)) given

  -- The round for the piece `pc` writes the text of that as far as the room goes, and counts all of it.
  abbrev Rounded : (pc : Piece) → (args : List Arg) → Option State → Type 0
  Rounded pc args r =
      After f s w (take room (measured room pc)) (w + length (measured room pc))
        (length (piece_format pc)) args r

  number-After :
      (x : ℕ) (ls : LengthSpec) (d : Directive) (spec : FormatSpec) (k : ℕ) (given args : List Arg)
      → IsDirective d
      → IsSpecifier x
      → Bytes (s.mem) (s.fmt + 1) (directive_text d ++ specifier_text ls x)
      → s.args ≡ directive_args d given
      → switched x ls d given
        ≡ with_args (format_number (s.mem) (f.number_str) (s.pos_at) k spec (pos room)) args
      → IsNumeric spec k
      → spec.total ≡ pos w
      → IsNumberRoom spec k room
      → w + length (take room (number_field spec k)) ≤ n
      → After f s w
          (take room (number_field spec k))
          (w + length (number_field spec k))
          (length (b'%' ∷ (directive_text d ++ specifier_text ls x)))
          args
          (conversion f buf size s)
  number-After x ls d spec k given args ok end h taken e numeric counted' fits le =
      let out = take room (number_field spec k) in
      let t = w + length (number_field spec k) in
      let r = format_number (s.mem) (f.number_str) (s.pos_at) k spec (pos room) in
      rw (length-conversion d ls x) (
        conversion-After f buf size s w x d ls given args out t ok end h here taken (
          of_eq-Writes f (s.mem) (s.pos_at) t out args (switched x ls d given) (with_args r args) e
            (with_args-Writes f (s.mem) (s.pos_at) t out args r (
              format_number-Writes f (s.mem) (s.pos_at) w k spec room numeric counted'
                ready.digits_room fits (out_there (length out) le) (omega arith)))))

  signed-After :
      (x : SignedName) (ls : LengthSpec) (d : Directive) (v : ℤ) (args : List Arg)
      → IsPiece f buf n (s.mem) (signed_piece x ls d v)
      → Bytes (s.mem) (s.fmt) (piece_format (signed_piece x ls d v))
      → s.args ≡ directive_args d (sized_arg ls v ∷ args)
      → IsPieceRoom room (signed_piece x ls d v)
      → w + length (take room (rendered (signed_piece x ls d v))) ≤ n
      → Rounded (signed_piece x ls d v) args (conversion f buf size s)
  signed-After x ls d v args (ok, low, numeric) h given fits le =
      let spec = sized ls (spec_of d (start_spec (s.spec.total))) in
      number-After (signed_letter x) ls d (signed_spec (signed_of ls v) spec)
        (magnitude_of (signed_of ls v)) (sized_arg ls v ∷ args) args ok
        (signed_letter-IsSpecifier x) h.1 given
        (dispatch_signed (s.mem) f (s.pos_at) (s.written) spec (pos size -ℤ pos (s.written))
            (pos size -ℤ pos (s.i)) (sized_arg ls v ∷ args) x
          ∙ rw (written, room_left size w room left)
              (format_signed_lem (s.mem) (f.number_str) (s.pos_at) spec ls (pos room) v args refl
                low))
        numeric counted fits le

  unsigned-After :
      (b : Base) (ls : LengthSpec) (d : Directive) (v : ℤ) (args : List Arg)
      → IsPiece f buf n (s.mem) (unsigned_piece b ls d v)
      → Bytes (s.mem) (s.fmt) (piece_format (unsigned_piece b ls d v))
      → s.args ≡ directive_args d (sized_arg ls v ∷ args)
      → IsPieceRoom room (unsigned_piece b ls d v)
      → w + length (take room (rendered (unsigned_piece b ls d v))) ≤ n
      → Rounded (unsigned_piece b ls d v) args (conversion f buf size s)
  unsigned-After b ls d v args (ok, numeric) h given fits le =
      let spec = sized ls (spec_of d (start_spec (s.spec.total))) in
      number-After (specifier b) ls d (unsigned_spec b spec) (unsigned_of ls v)
        (sized_arg ls v ∷ args) args ok (specifier-IsSpecifier b) h.1 given
        (dispatch_unsigned (s.mem) f (s.pos_at) (s.written) spec (pos size -ℤ pos (s.written))
            (pos size -ℤ pos (s.i)) (sized_arg ls v ∷ args) b
          ∙ rw (written, room_left size w room left)
              (read_format_unsigned_int_lem (s.mem) (f.number_str) (s.pos_at) (base_spec b spec) ls
                (pos room) v args refl))
        numeric counted fits le

  pointer-After :
      (d : Directive) (a : ℕ) (args : List Arg)
      → IsPiece f buf n (s.mem) (pointer_piece d a)
      → Bytes (s.mem) (s.fmt) (piece_format (pointer_piece d a))
      → s.args ≡ directive_args d (pointer_arg (some a) ∷ args)
      → IsPieceRoom room (pointer_piece d a)
      → w + length (take room (rendered (pointer_piece d a))) ≤ n
      → Rounded (pointer_piece d a) args (conversion f buf size s)
  pointer-After d a args (ok, above, below, short) h given fits le =
      let spec = spec_of d (start_spec (s.spec.total)) in
      number-After b'p' LengthSpec.null d (pointer_spec spec) a (pointer_arg (some a) ∷ args) args
        ok pointer-IsSpecifier h.1 given
        (rw (written, room_left size w room left)
          (dispatch_pointer (s.mem) f (s.pos_at) w a spec (pos room) (pos size -ℤ pos (s.i)) args
            refl above below))
        (inr (inr refl), below, inl (refl, omega (arith, short))) counted fits le

  char-After :
      (d : Directive) (v : ℤ) (args : List Arg)
      → IsPiece f buf n (s.mem) (char_piece d v)
      → Bytes (s.mem) (s.fmt) (piece_format (char_piece d v))
      → s.args ≡ directive_args d (int_arg v ∷ args)
      → IsPieceRoom room (char_piece d v)
      → w + length (take room (rendered (char_piece d v))) ≤ n
      → Rounded (char_piece d v) args (conversion f buf size s)
  char-After d v args ok h given fits le =
      let out = take room (rendered (char_piece d v)) in
      let t = w + length (rendered (char_piece d v)) in
      let spec = spec_of d (start_spec (s.spec.total)) in
      rw (length-conversion d LengthSpec.null b'c') (
        conversion-After f buf size s w b'c' d LengthSpec.null (int_arg v ∷ args) args out t ok
          char-IsSpecifier h.1 here given
          (of_eq-Writes f (s.mem) (s.pos_at) t out args
            (switched b'c' LengthSpec.null d (int_arg v ∷ args))
            (format_char (s.mem) (f.c) (s.pos_at) spec (pos room) (int_arg v ∷ args))
            (dispatch_char (s.mem) f (s.pos_at) (s.written) spec (pos size -ℤ pos (s.written))
                (pos size -ℤ pos (s.i)) (int_arg v ∷ args)
              ∙ rw (written, room_left size w room left) refl)
            (format_char-Writes f (s.mem) (s.pos_at) w v spec room args counted ready.char_room fits
              (out_there (length out) le) (omega arith))))

  string-After :
      (d : Directive) (q : Option ℕ) (str : List ℕ) (args : List Arg)
      → IsPiece f buf n (s.mem) (string_piece d q str)
      → Bytes (s.mem) (s.fmt) (piece_format (string_piece d q str))
      → s.args ≡ directive_args d (pointer_arg q ∷ args)
      → IsPieceRoom room (string_piece d q str)
      → w + length (take room (measured room (string_piece d q str))) ≤ n
      → Rounded (string_piece d q str) args (conversion f buf size s)
  string-After d q str args (ok, string, separate) h given fits le =
      let out = take room (measured room (string_piece d q str)) in
      let t = w + length (measured room (string_piece d q str)) in
      let spec = spec_of d (start_spec (s.spec.total)) in
      let cut = cut_string (spec.precision) str in
      rw (length-conversion d LengthSpec.null b's') (
        conversion-After f buf size s w b's' d LengthSpec.null (pointer_arg q ∷ args) args out t ok
          string-IsSpecifier h.1 here given
          (of_eq-Writes f (s.mem) (s.pos_at) t out args
            (switched b's' LengthSpec.null d (pointer_arg q ∷ args))
            (format_string (s.mem) (f.k_null) (s.pos_at) spec (pos room) (pointer_arg q ∷ args)
              none)
            (dispatch_string (s.mem) f (s.pos_at) (s.written) spec (pos size -ℤ pos (s.written))
                (pos size -ℤ pos (s.i)) (pointer_arg q ∷ args)
              ∙ rw (written, room_left size w room left) refl)
            (format_string-Writes f (s.mem) (s.pos_at) w q str spec room args (take room cut) refl
              counted string fits (out_there (length out) le)
              (omega (arith, length-take room cut, length-cut_string (spec.precision) str))
              (omega arith))))

  percent-After :
      Bytes (s.mem) (s.fmt) (piece_format percent_piece)
      → w + 1 ≤ n
      → After f s w (rendered percent_piece) (w + 1) 2 (s.args) (conversion f buf size s)
  percent-After h le =
      let d : Directive = record { flags = []; width = no_width; precision = no_precision } in
      let spec = spec_of d (start_spec (s.spec.total)) in
      conversion-After f buf size s w b'%' d LengthSpec.null (s.args) (s.args) (b'%' ∷ []) (w + 1)
        (record { flags_ok = tt; width_ok = tt; precision_ok = tt }) percent-IsSpecifier h.1 here
        refl
        (of_eq-Writes f (s.mem) (s.pos_at) (w + 1) (b'%' ∷ []) (s.args)
          (switched b'%' LengthSpec.null d (s.args))
          (put_char (s.mem) (s.pos_at) b'%' spec (s.args))
          (dispatch_percent (s.mem) f (s.pos_at) (s.written) spec (pos size -ℤ pos (s.written))
            (pos size -ℤ pos (s.i)) (s.args))
          (put_char-Writes f (s.mem) (s.pos_at) w b'%' spec (s.args) counted (out_there 1 le).0))

  pub round-After :
      (pc : Piece) (args : List Arg)
      → IsPiece f buf n (s.mem) pc
      → Bytes (s.mem) (s.fmt) (piece_format pc)
      → s.args ≡ piece_args pc args
      → IsPieceRoom room pc
      → 1 ≤ room
      → w + length (take room (measured room pc)) ≤ n
      → Rounded pc args (if first pc == b'%' then conversion f buf size s else literal (first pc) s)
  round-After (plain_piece c) args ok h given fits more le =
      let all : take room (c ∷ []) ≡ c ∷ [] = take_all room (c ∷ []) more in
      rw (ok.1, sym given, all)
        (literal-After f s w c written counted (out_there 1 (rw all at le)).0)
  round-After percent_piece args ok h given fits more le =
      let percent : List ℕ = b'%' ∷ [] in
      let all : take room percent ≡ percent = take_all room percent more in
      rw (sym given, all) (percent-After h (rw all at le))
  round-After (signed_piece x ls d v) args ok h given fits more le =
      signed-After x ls d v args ok h given fits le
  round-After (unsigned_piece b ls d v) args ok h given fits more le =
      unsigned-After b ls d v args ok h given fits le
  round-After (pointer_piece d a) args ok h given fits more le =
      pointer-After d a args ok h given fits le
  round-After (char_piece d v) args ok h given fits more le = char-After d v args ok h given fits le
  round-After (string_piece d q str) args ok h given fits more le =
      string-After d q str args ok h given fits le
