-- ===== src/Printf/Loop/Kept.antt =====
-- What a conversion leaves alone: all but the scratch variables of a frame and the range it writes.
use osdev_libstdc.Base.{
  List, [], arith, is_some, length, refl, suc, zero, ℕ, ◌+◌, ◌<◌, ◌∙◌, ◌∷◌, ◌≡◌, ◌≢◌, ◌≤◌, ◌⊎◌,
}
use osdev_libstdc.Memory.{Apart, Bytes, Mapped, Mem, load, write_list}
use osdev_libstdc.Memory.Laws.{is_some-load-write_list, load-write_list_out, size-write_list}
use osdev_libstdc.Printf.Loop.{Frame}
use osdev_libstdc.Printf.Number.{max_number_len}

-- `q` is no byte of the frame's variables, and not among the `n` addresses from `p` on.
abbrev pub Outside : Frame → (p n q : ℕ) → Type 0
Outside f p n q =
    ((q < f.number_str) ⊎ (f.number_str + max_number_len ≤ q)) × ((q < p) ⊎ (p + n ≤ q)) × (q ≢ f.c)

-- The same for each of the `k` addresses from `q` on.
abbrev pub Separate : Frame → (p n q k : ℕ) → Type 0
Separate f p n q k = Apart (f.number_str) max_number_len q k × Apart p n q k × Apart (f.c) 1 q k

pub record Kept (f : Frame) (p n : ℕ) (m m' : Mem) : Type 0 where
  pub size : m'.size ≡ m.size
  pub mapped : (q : ℕ) → is_some (load m' q) ≡ is_some (load m q)
  pub kept : (q : ℕ) → Outside f p n q → load m' q ≡ load m q

pub Kept-refl : (f : Frame) (p n : ℕ) (m : Mem) → Kept f p n m m
Kept-refl f p n m = record { size = refl; mapped = λ q. refl; kept = λ q h. refl }

pub Kept-trans :
    (f : Frame) (p n : ℕ) (m m' m'' : Mem) → Kept f p n m m' → Kept f p n m' m'' → Kept f p n m m''
Kept-trans f p n m m' m'' a b = record {
  size = b.size ∙ a.size;
  mapped = λ q. b.mapped q ∙ a.mapped q;
  kept = λ q h. b.kept q h ∙ a.kept q h;
}

pub Kept-wider :
    (f : Frame) (p n p' n' : ℕ) (m m' : Mem)
    → p' ≤ p
    → p + n ≤ p' + n'
    → Kept f p n m m'
    → Kept f p' n' m m'
Kept-wider f p n p' n' m m' low high a = record {
  size = a.size;
  mapped = a.mapped;
  kept = λ q h. a.kept q (h.0, omega arith, h.2);
}

-- A list of bytes is written among the frame's variables or in the range.
pub Kept-write_list :
    (f : Frame) (p n : ℕ) (m : Mem) (q : ℕ) (bs : List ℕ)
    → Mapped m q (length bs)
    → ((x : ℕ) → Outside f p n x → (x < q) ⊎ (q + length bs ≤ x))
    → Kept f p n m (write_list m q bs)
Kept-write_list f p n m q bs room inside = record {
  size = size-write_list m q bs;
  mapped = λ x. is_some-load-write_list m q bs x room;
  kept = λ x h. load-write_list_out m q bs x (inside x h);
}

module _ (f : Frame) (p n : ℕ) (m m' : Mem) (a : Kept f p n m m') where
  pub Kept-Bytes :
      (q : ℕ) (bs : List ℕ) → Separate f p n q (length bs) → Bytes m q bs → Bytes m' q bs
  Kept-Bytes q [] apart h = tt
  Kept-Bytes q (b ∷ bs) apart h = (
    a.kept q (omega arith, omega arith, omega arith) ∙ h.0,
    Kept-Bytes (q + 1) bs (omega arith, omega arith, omega arith) h.1,
  )

  pub Kept-Mapped : (q k : ℕ) → Mapped m q k → Mapped m' q k
  Kept-Mapped q zero h = tt
  Kept-Mapped q (suc k) h = (a.mapped q ∙ h.0, Kept-Mapped (q + 1) k h.1)
