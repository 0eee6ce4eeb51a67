-- ===== src/Printf/Loop/Reached.antt =====
-- What the loop has done when it has come to a place in its format.
use osdev_libstdc.Base.{
  List, Option, ap, arith, length, length-append, some, sym, ℕ, ◌++◌, ◌+◌, ◌∙◌, ◌≡◌, ◌≤◌,
}
use osdev_libstdc.Base.Int.{pos}
use osdev_libstdc.Memory.{Apart, Bytes, Mem}
use osdev_libstdc.Memory.Laws.{Bytes-append}
use osdev_libstdc.Printf.Loop.{Frame, State}
use osdev_libstdc.Printf.Loop.Kept.{Kept, Kept-Bytes, Kept-trans, Kept-wider}
use osdev_libstdc.Printf.Loop.Steps.{After}
use osdev_libstdc.Printf.Number.{max_number_len}
use osdev_libstdc.Printf.Spec.{Arg}

-- A range of memory is there in `m0`, with the frame's variables, and the format stands in `m0` outside.
module _ (f : Frame) (buf n : ℕ) (m0 : Mem) where
  -- The state `s` has written `out` from `buf` on, has come to the address `q` of the format, and has
  -- the arguments `args` left.
  pub record At (s : State) (out : List ℕ) (q : ℕ) (args : List Arg) : Type 0 where
    pub here : s.pos_at ≡ buf + length out
    pub format_at : s.fmt ≡ q
    pub counted : s.written ≡ length out
    pub totalled : s.spec.total ≡ pos (length out)
    pub given : s.args ≡ args
    pub kept : Kept f buf n m0 (s.mem)
    pub there : Bytes (s.mem) buf out

  -- `r` is the state at the end of the loop, which has written `out` and counted `t`.
  pub record Done (out : List ℕ) (t : ℕ) (r : Option State) : Type 0 where
    pub final : State
    pub runs : r ≡ some final
    pub here : final.pos_at ≡ buf + length out
    pub totalled : final.spec.total ≡ pos t
    pub kept : Kept f buf n m0 (final.mem)
    pub there : Bytes (final.mem) buf out

  pub At-Done :
      (s : State) (out : List ℕ) (q : ℕ) (args : List Arg) (r : Option State)
      → At s out q args
      → r ≡ some s
      → Done out (length out) r
  At-Done s out q args r a e = record {
    final = s;
    runs = e;
    here = a.here;
    totalled = a.totalled;
    kept = a.kept;
    there = a.there;
  }

  -- What a round leaves of the range and of what was written before.
  module _ (apart_digits : Apart buf n (f.number_str) max_number_len)
      (apart_char : Apart buf n (f.c) 1) (s : State) (out more : List ℕ) (t k q : ℕ)
      (args args' : List Arg) (r : Option State) (a : At s out q args)
      (b : After f s (length out) more t k args' r) (le : length out + length more ≤ n) where
    pub round-Kept : Kept f buf n m0 (b.next.mem)
    round-Kept = Kept-trans f buf n m0 (s.mem) (b.next.mem) (a.kept) (
        Kept-wider f (s.pos_at) (length more) buf n (s.mem) (b.next.mem) (omega (arith, a.here))
          (omega (arith, a.here)) b.kept)

    pub round-Bytes : Bytes (b.next.mem) buf (out ++ more)
    round-Bytes =
        Bytes-append (b.next.mem) buf out more
          (Kept-Bytes f (s.pos_at) (length more) (s.mem) (b.next.mem) b.kept buf out
            (omega arith, omega (arith, a.here), omega arith) a.there)
          (rw a.here at b.there)

    pub round-here : b.next.pos_at ≡ buf + length (out ++ more)
    round-here = b.moved ∙ omega (arith, a.here, length-append out more)

    pub round-At : t ≡ length out + length more → At (b.next) (out ++ more) (q + k) args'
    round-At all = record {
      here = round-here;
      format_at = b.consumed ∙ ap (λ (x : ℕ). x + k) a.format_at;
      counted = b.counted ∙ sym (length-append out more);
      totalled = b.totalled ∙ ap pos (all ∙ sym (length-append out more));
      given = b.rest;
      kept = round-Kept;
      there = round-Bytes;
    }
