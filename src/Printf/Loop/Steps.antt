-- ===== src/Printf/Loop/Steps.antt =====
-- One round of the loop: what a conversion or a literal character makes of the state.
use osdev_libstdc.Base.{
  List, Option, [], ap, arith, is_some, length, ltb, none, refl, some, true, ℕ, ◌%◌, ◌++◌, ◌+◌, ◌-◌,
  ◌<◌, ◌^◌, ◌∷◌, ◌≡◌,
}
use osdev_libstdc.Base.Int.{pos, ℤ, ◌-ℤ◌}
use osdev_libstdc.Memory.{Bytes, Mem, load}
use osdev_libstdc.Memory.Laws.{Bytes-append, Bytes-append_left, Bytes-append_right}
use osdev_libstdc.Printf.Args.{
  format_signed, next_wide, read_format_unsigned_int, read_unsigned_number,
}
use osdev_libstdc.Printf.Field.{format_char, format_number, format_string}
use osdev_libstdc.Printf.Loop.{
  Frame, State, conversion, dispatch, format_pointer, literal, pointer_spec, put_char,
}
use osdev_libstdc.Printf.Loop.Kept.{Kept}
use osdev_libstdc.Printf.Loop.Pieces.{
  Base, SignedName, base_spec, big_hex_base, d_name, decimal_base, hex_base, i_name, octal_base,
  signed_letter, spec_of, specifier, start_spec,
}
use osdev_libstdc.Printf.Loop.Texts.{put_char-Writes}
use osdev_libstdc.Printf.Loop.Writes.{Writes, with_args}
use osdev_libstdc.Printf.Spec.{Arg, FormatSpec, LengthSpec, pointer_arg, reset}
use osdev_libstdc.Printf.Spec.Directive.{parse_flags_fw_precision-parsed}
use osdev_libstdc.Printf.Spec.Sizes.{
  leading, leading-IsEnd, leading_no_dot, leading_there, parse_size_specifier-sized, size_len,
  sized, specifier_text, specifier_there,
}
use osdev_libstdc.Printf.Spec.Written.{
  Directive, IsDirective, IsSpecifier, directive_args, directive_text, parsed,
}

-- `r` is the state after `s` that has written `out`, read `k` characters of the format, and left `args`,
-- with the total `t`.
pub record After (f : Frame) (s : State) (w : ℕ) (out : List ℕ) (t k : ℕ) (args : List Arg)
    (r : Option State) : Type 0 where
  pub next : State
  pub runs : r ≡ some next
  pub moved : next.pos_at ≡ s.pos_at + length out
  pub consumed : next.fmt ≡ s.fmt + k
  pub counted : next.written ≡ w + length out
  pub totalled : next.spec.total ≡ pos t
  pub rest : next.args ≡ args
  pub kept : Kept f (s.pos_at) (length out) (s.mem) (next.mem)
  pub there : Bytes (next.mem) (s.pos_at) out

pub conversion-After :
    (f : Frame) (buf size : ℕ) (s : State) (w x : ℕ) (d : Directive) (ls : LengthSpec)
    (given args : List Arg) (out : List ℕ) (t : ℕ)
    → IsDirective d
    → IsSpecifier x
    → Bytes (s.mem) (s.fmt + 1) (directive_text d ++ specifier_text ls x)
    → s.pos_at ≡ buf + w
    → s.args ≡ directive_args d given
    → Writes f (s.mem) (s.pos_at) t out args (
        dispatch
          (s.mem)
          f
          x
          (s.pos_at)
          (s.written)
          (sized ls (spec_of d (start_spec (s.spec.total))))
          (pos size -ℤ pos (s.written))
          (pos size -ℤ pos (s.i))
          given)
    → After f s w out t (length (directive_text d) + size_len ls + 2) args (conversion f buf size s)
unfolding conversion reset
conversion-After f buf size s w x d ls given args out t ok end h here taken
      (spec3, m', e, total, kept, bytes) =
    let text = directive_text d in
    let q = s.fmt + 1 + length text in
    let behind = Bytes-append_right (s.mem) (s.fmt + 1) text (specifier_text ls x) h in
    let e1 =
      parse_flags_fw_precision-parsed (s.mem) (s.fmt + 1) (leading ls x) d
        (start_spec (s.spec.total)) given ok (leading-IsEnd ls x end) (leading_no_dot ls x end)
        (Bytes-append (s.mem) (s.fmt + 1) text (leading ls x ∷ [])
          (Bytes-append_left (s.mem) (s.fmt + 1) text (specifier_text ls x) h)
          (leading_there (s.mem) q x ls behind, tt)) in
    let e2 =
      parse_size_specifier-sized (s.mem) q x ls (parsed d (start_spec (s.spec.total))) refl end
        behind in
    record {
      next = record {
        pos_at = s.pos_at + length out;
        fmt = q + size_len ls + 1;
        i = s.i + 1;
        written = s.pos_at + length out - buf;
        spec = spec3;
        mem = m';
        args = args;
      };
      runs = rw (taken, e1, e2, specifier_there (s.mem) q x ls behind, e) refl;
      moved = refl;
      consumed = omega arith;
      counted = omega (arith, here);
      totalled = total;
      rest = refl;
      kept = kept;
      there = bytes;
    }

pub literal-After :
    (f : Frame) (s : State) (w c : ℕ)
    → s.written ≡ w
    → s.spec.total ≡ pos w
    → is_some (load (s.mem) (s.pos_at)) ≡ true
    → After f s w (c ∷ []) (w + 1) 1 (s.args) (literal c s)
unfolding literal reset
literal-After f s w c written counted free =
    let (spec', m', e, total, kept, bytes) =
      put_char-Writes f (s.mem) (s.pos_at) w c (start_spec (s.spec.total)) (s.args) counted free in
    record {
      next = record s {
        pos_at = s.pos_at + 1;
        fmt = s.fmt + 1;
        i = s.i + 1;
        written = s.written + 1;
        spec = spec';
        mem = m';
      };
      runs = rw e refl;
      moved = refl;
      consumed = refl;
      counted = ap (λ (k : ℕ). k + 1) written;
      totalled = total;
      rest = refl;
      kept = kept;
      there = bytes;
    }

-- The switch.
module _ (m : Mem) (f : Frame) (p written : ℕ) (spec : FormatSpec) (room past : ℤ)
    (args : List Arg) where
  pub dispatch_percent :
      dispatch m f b'%' p written spec room past args ≡ put_char m p b'%' spec args
  unfolding dispatch
  dispatch_percent = refl

  pub dispatch_signed :
      (x : SignedName)
      → dispatch m f (signed_letter x) p written spec room past args
        ≡ format_signed m (f.number_str) p spec room args
  unfolding dispatch
  dispatch_signed d_name = refl
  dispatch_signed i_name = refl

  pub dispatch_unsigned :
      (b : Base)
      → dispatch m f (specifier b) p written spec room past args
        ≡ read_format_unsigned_int m (f.number_str) p (base_spec b spec) room args
  unfolding dispatch
  dispatch_unsigned decimal_base = refl
  dispatch_unsigned octal_base = refl
  dispatch_unsigned hex_base = refl
  dispatch_unsigned big_hex_base = refl

  pub dispatch_char :
      dispatch m f b'c' p written spec room past args ≡ format_char m (f.c) p spec room args
  unfolding dispatch
  dispatch_char = refl

  pub dispatch_string :
      dispatch m f b's' p written spec room past args
      ≡ format_string m (f.k_null) p spec room args none
  unfolding dispatch
  dispatch_string = refl

-- %p of an address that is not null.
pub dispatch_pointer :
    (m : Mem) (f : Frame) (p written a : ℕ) (spec : FormatSpec) (room past : ℤ) (args : List Arg)
    → spec.length_spec ≡ LengthSpec.null
    → 0 < a
    → a < 2 ^ 64
    → dispatch m f b'p' p written spec room past (pointer_arg (some a) ∷ args)
      ≡ with_args (format_number m (f.number_str) p a (pointer_spec spec) room) args
unfolding dispatch format_pointer read_unsigned_number next_wide
dispatch_pointer m f p written a spec room past args no_size above below =
    let whole : a % 2 ^ 64 ≡ a = omega arith in
    let given : ltb 0 a ≡ true = ground arith in rw (no_size, whole, given) refl
