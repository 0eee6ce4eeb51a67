-- ===== src/Printf/Loop/Refinement.antt =====
-- vsnprintf against the text that its format and arguments stand for.
use osdev_libstdc.Base.{
  List, [], ap, arith, false, is_some, length, ltb, refl, some, suc, sym, true, ℕ, ◌++◌, ◌+◌, ◌-◌,
  ◌<◌, ◌==◌, ◌∙◌, ◌∷◌, ◌≡◌,
}
use osdev_libstdc.Base.Int.{pos, ℤ}
use osdev_libstdc.Memory.{Apart, Bytes, Mapped, Mem, load, store, write, write_list}
use osdev_libstdc.Memory.Laws.{
  Bytes-append, Bytes-append_right, Bytes-write, Mapped-get, load-lt-size, load-write_self,
  store-eq-write,
}
use osdev_libstdc.Printf.Loop.{Frame, State, vsnprintf, vsnprintf_loop}
use osdev_libstdc.Printf.Loop.Heads.{length-format_text}
use osdev_libstdc.Printf.Loop.Kept.{
  Kept, Kept-Bytes, Kept-refl, Kept-trans, Kept-write_list, Separate,
}
use osdev_libstdc.Printf.Loop.Pieces.{
  ArePieces, Piece, all_args, format_text, rendered_all, start_spec,
}
use osdev_libstdc.Printf.Loop.Reached.{At, At-Done, Done}
use osdev_libstdc.Printf.Loop.Ready.{Ready}
use osdev_libstdc.Printf.Loop.Rendered.{loop_pieces, loop_stop}
use osdev_libstdc.Printf.Number.{max_number_len}
use osdev_libstdc.Printf.Spec.{Arg, reset}

-- What a call needs of memory and of the addresses in it, for a text of `n` characters: the buffer, the
-- frame's variables and the format have no address in common, and the first two are mapped. The format
-- is the text of the pieces `ps`, and the character `next` stands behind that.
pub record IsCall (m : Mem) (f : Frame) (buf n fmt : ℕ) (ps : List Piece) (next : ℕ) : Type 0 where
  pub mapped : Ready f buf (n + 1) m
  pub apart_digits : Apart buf (n + 1) (f.number_str) max_number_len
  pub apart_char : Apart buf (n + 1) (f.c) 1
  pub format_there : Bytes m fmt (format_text ps ++ next ∷ [])
  pub format_apart : Separate f buf (n + 1) fmt (length (format_text ps ++ next ∷ []))
  pub pieces : ArePieces f buf (n + 1) m ps

abbrev pub start_state : Mem → (buf fmt : ℕ) → List Arg → State
start_state m buf fmt args = record {
  pos_at = buf;
  fmt = fmt;
  i = 0;
  written = 0;
  spec = start_spec (pos 0);
  mem = m;
  args = args;
}

vsnprintf_of_loop :
    (m : Mem) (f : Frame) (buf max_size fmt : ℕ) (args : List Arg) (s : State) (m' : Mem)
    → 0 < max_size
    → max_size < 2147483647
    → vsnprintf_loop (m.size - fmt) f buf (max_size - 1) (start_state m buf fmt args) ≡ some s
    → store (s.mem) (s.pos_at) 0 ≡ some m'
    → vsnprintf m f buf max_size fmt args ≡ some (s.spec.total, m')
unfolding vsnprintf reset
vsnprintf_of_loop m f buf max_size fmt args s m' above below runs stored =
    let some_room : (max_size == 0) ≡ false = ground arith in
    let no_error : ltb max_size 2147483647 ≡ true = ground arith in
    rw (some_room, no_error, runs, stored) refl

-- The NUL behind the text, and the result of the call.
pub vsnprintf-Done :
    (m : Mem) (f : Frame) (buf max_size fmt : ℕ) (args : List Arg) (n : ℕ) (out : List ℕ) (t : ℕ)
    → 0 < max_size
    → max_size < 2147483647
    → Mapped m buf n
    → length out < n
    → Done f buf n m out t
        (vsnprintf_loop (m.size - fmt) f buf (max_size - 1) (start_state m buf fmt args))
    → (m' : Mem) × (vsnprintf m f buf max_size fmt args ≡ some (pos t, m'))
      × Bytes m' buf (out ++ 0 ∷ [])
      × Kept f buf n m m'
unfolding write_list
vsnprintf-Done m f buf max_size fmt args n out t above below room inside d =
    let at_end : is_some (load (d.final.mem) (d.final.pos_at)) ≡ true =
      rw d.here (d.kept.mapped (buf + length out) ∙ Mapped-get m buf n (length out) room inside) in
    let m' = write (d.final.mem) (d.final.pos_at) 0 in
    (
      m',
      vsnprintf_of_loop m f buf max_size fmt args (d.final) m' above below d.runs
            (store-eq-write (d.final.mem) (d.final.pos_at) 0 at_end)
          ∙ ap (λ (z : ℤ). some (z, m')) d.totalled,
      Bytes-append m' buf out (0 ∷ [])
          (Bytes-write (d.final.mem) buf out (d.final.pos_at) 0 (omega (arith, d.here)) d.there)
          (rw (sym d.here) (load-write_self (d.final.mem) (d.final.pos_at) 0 at_end), tt),
      Kept-trans f buf n m (d.final.mem) m' d.kept (
          Kept-write_list f buf n (d.final.mem) (d.final.pos_at) (0 ∷ []) (at_end, tt)
            (λ x h. omega (arith, d.here))),
    )

-- The start of the loop.
pub start-At :
    (f : Frame) (m : Mem) (buf n fmt : ℕ) (args : List Arg)
    → At f buf n m (start_state m buf fmt args) [] fmt args
start-At f m buf n fmt args = record {
  here = omega arith;
  format_at = refl;
  counted = refl;
  totalled = refl;
  given = refl;
  kept = Kept-refl f buf n m;
  there = tt;
}

-- The rounds that the length of memory allows are enough.
pub fuel_enough :
    (m : Mem) (fmt : ℕ) (ps : List Piece) (next : ℕ)
    → Bytes m fmt (format_text ps ++ next ∷ [])
    → length ps < m.size - fmt
fuel_enough m fmt ps next h =
    let behind : load m (fmt + length (format_text ps)) ≡ some next =
      (Bytes-append_right m fmt (format_text ps) (next ∷ []) h).0 in
    omega (
      arith,
      length-format_text ps,
      load-lt-size m (fmt + length (format_text ps)) (ap is_some behind),
    )

-- The character behind the pieces, in a state of the loop.
pub next_there :
    (f : Frame) (m m' : Mem) (buf n q : ℕ) (text : List ℕ) (next : ℕ)
    → Kept f buf n m m'
    → Bytes m q (text ++ next ∷ [])
    → Separate f buf n q (length (text ++ next ∷ []))
    → load m' (q + length text) ≡ some next
next_there f m m' buf n q text next kept h apart =
    (Bytes-append_right m' q text (next ∷ [])
      (Kept-Bytes f buf n m m' kept q (text ++ next ∷ []) apart h)).0

-- Of a format that is made of plain characters, "%%" and conversions %d, %i, %u, %o, %x, %X, %p, %c and
-- %s, the first six with any size or none, vsnprintf writes the text of these pieces, one behind
-- another, and a NUL, and returns the number of its characters; nothing else in memory changes but the
-- frame's variables. Field width and precision stand in the format in decimal or are arguments. The
-- text of a number is its sign, the prefix of the alternate form, zeros up to the precision and its
-- digits, among blanks up to the field width on the side that the minus flag says, or with zeros in
-- place of the blanks where the zero flag is set; that of %p is the address in base 16, with 16 digits
-- where there is no width and no precision; that of %s is the string as far as the precision goes,
-- where null is the text at k_null, and that of %c the character, in a field as well. The text and the
-- NUL fit max_size, which is below INT_MAX; buffer, variables, format and strings have no address in
-- common and are mapped. A width in the format is below 2 ^ 31 and has no leading 0. The precision of a
-- number, or with the zero flag its field width, is below 66, less the prefix in the former case; the
-- width is not below -1 with the zero flag; the number is not the least long long; the address is not
-- null; and 0 does not come with the zero flag and a field width of the sign's length. Of 0 with
-- precision 0 no digit is written.
pub vsnprintf-rendered_all :
    (m : Mem) (f : Frame) (buf max_size fmt : ℕ) (ps : List Piece) (args : List Arg)
    → IsCall m f buf (length (rendered_all ps)) fmt ps 0
    → length (rendered_all ps) < max_size
    → max_size < 2147483647
    → (m' : Mem) × (vsnprintf m f buf max_size fmt (all_args ps args)
        ≡ some (pos (length (rendered_all ps)), m'))
      × Bytes m' buf (rendered_all ps ++ 0 ∷ [])
      × Kept f buf (length (rendered_all ps) + 1) m m'
vsnprintf-rendered_all m f buf max_size fmt ps args call fits below =
    let out = rendered_all ps in
    let n = length out + 1 in
    let fuel = m.size - fmt in
    let enough = fuel_enough m fmt ps 0 call.format_there in
    let done =
      loop_pieces f buf n (max_size - 1) m call.apart_digits call.apart_char (omega arith)
        call.mapped (Done f buf n m out (length out)) ps fuel (suc (fuel - length ps - 1))
        (start_state m buf fmt (all_args ps args)) [] fmt args (0 ∷ []) (omega arith) call.pieces
        call.format_there call.format_apart (start-At f m buf n fmt (all_args ps args))
        (omega arith) (omega arith)
        (λ s a.
          At-Done f buf n m s out (fmt + length (format_text ps)) args
            (vsnprintf_loop (suc (fuel - length ps - 1)) f buf (max_size - 1) s) a
            (loop_stop (fuel - length ps - 1) 0 f buf (max_size - 1) s
              (rw a.format_at (
                next_there f m (s.mem) buf n fmt (format_text ps) 0 a.kept call.format_there
                  call.format_apart))
              refl))
        (λ s q args' e a. At-Done f buf n m s out q args' (some s) a refl) in
    vsnprintf-Done m f buf max_size fmt (all_args ps args) n out (length out) (omega arith) below
      call.mapped.out_room (omega arith) done
