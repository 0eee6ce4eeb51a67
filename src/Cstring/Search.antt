-- ===== src/Cstring/Search.antt =====
-- src/cstring.cpp: memchr, memrchr, strchr, strrchr, strspn, strcspn, strpbrk and strstr.
-- A pointer that may be null is an `Option`, inside the one that stands for a fault.
pub mod Chars
pub mod Spans
use osdev_libstdc.Base.{
  Option, if◌then◌else◌, is_some, leb, none, not, some, suc, zero, ℕ, ◌&&◌, ◌+◌, ◌-◌, ◌==◌, ◌>>=◌,
}
use osdev_libstdc.Base.Int.{eqb_ℤ, negsuc, pos, pos_part, schar, to_unsigned, ℤ}
use osdev_libstdc.Cstring.Compare.{strncmp}
use osdev_libstdc.Cstring.Length.{strlen}
use osdev_libstdc.Memory.{Mem, load}

memchr_loop : ℕ → Mem → ℕ → ℕ → Option (Option ℕ)
memchr_loop zero m p c = some none
memchr_loop (suc n) m p c = do
  b ← load m p
  if b == c then some (some p) else memchr_loop n m (p + 1) c

pub memchr : Mem → (memory : ℕ) → (needle : ℤ) → (count : ℕ) → Option (Option ℕ)
unfolding memchr_loop
memchr m memory needle count = memchr_loop count m memory (to_unsigned 8 needle)

memrchr_loop : ℕ → Mem → ℕ → ℕ → Option (Option ℕ)
memrchr_loop zero m s c = some none
memrchr_loop (suc n) m s c = do
  b ← load m s
  if b == c then some (some s) else memrchr_loop n m (s - 1) c

pub memrchr : Mem → (mem : ℕ) → (needle : ℤ) → (count : ℕ) → Option (Option ℕ)
unfolding memrchr_loop
memrchr m mem needle count = memrchr_loop count m (mem + count - 1) (to_unsigned 8 needle)

strchr_loop : ℕ → Mem → ℕ → ℕ → Option (Option ℕ)
strchr_loop zero m s c = none
strchr_loop (suc k) m s c = do
  b ← load m s
  if b == c then some (some s) else if b == 0 then some none else strchr_loop k m (s + 1) c

pub strchr : Mem → (str : ℕ) → (needle : ℤ) → Option (Option ℕ)
unfolding strchr_loop
strchr m str needle = strchr_loop (m.size - str) m str (to_unsigned 8 needle)

-- `last` is the variable `pos`. The character is compared with the whole `needle`.
strrchr_loop : ℕ → Mem → (str s : ℕ) → (needle last : ℤ) → Option ℤ
strrchr_loop zero m str s needle last = none
strrchr_loop (suc k) m str s needle last = do
  b ← load m s
  let last' = if eqb_ℤ (schar b) needle then pos (s - str) else last
  if b == 0 then some last' else strrchr_loop k m str (s + 1) needle last'

pub strrchr : Mem → (str : ℕ) → (needle : ℤ) → Option (Option ℕ)
unfolding strrchr_loop
strrchr m str needle = do
  last ← strrchr_loop (m.size - str) m str str needle (negsuc 0)
  some (if eqb_ℤ last (negsuc 0) then none else some (str + pos_part last))

pub strspn_loop : ℕ → Mem → (str accept res : ℕ) → Option ℕ
unfolding strchr
strspn_loop zero m str accept res = none
strspn_loop (suc k) m str accept res = do
  c ← load m str
  if c == 0 then some res else do
    r ← strchr m accept (schar c)
    if is_some r then strspn_loop k m (str + 1) accept (res + 1) else some res

unfoldable pub strspn : Mem → (str accept : ℕ) → Option ℕ
unfolding strspn_loop
strspn m str accept = strspn_loop (m.size - str) m str accept 0

strcspn_loop : ℕ → Mem → (s reject res : ℕ) → Option ℕ
unfolding strchr
strcspn_loop zero m s reject res = none
strcspn_loop (suc k) m s reject res = do
  c ← load m s
  if c == 0 then some res else do
    r ← strchr m reject (schar c)
    if not (is_some r) then strcspn_loop k m (s + 1) reject (res + 1) else some res

unfoldable pub strcspn : Mem → (str reject : ℕ) → Option ℕ
unfolding strcspn_loop
strcspn m str reject = strcspn_loop (m.size - str) m str reject 0

strpbrk_loop : ℕ → Mem → (s accept : ℕ) → Option (Option ℕ)
unfolding strchr
strpbrk_loop zero m s accept = none
strpbrk_loop (suc k) m s accept = do
  c ← load m s
  if c == 0 then some none else do
    r ← strchr m accept (schar c)
    if is_some r then some (some s) else strpbrk_loop k m (s + 1) accept

pub strpbrk : Mem → (str accept : ℕ) → Option (Option ℕ)
unfolding strpbrk_loop
strpbrk m str accept = strpbrk_loop (m.size - str) m str accept

-- for (i = haystack_len; i >= needle_len; i--, haystack++), by the rounds left: `i + 1` of them,
-- the test `i >= needle_len` made in each. At `i = 0` the decrement wraps to the largest size_t,
-- but then needle_len is 0 and the comparison before it has returned.
strstr_loop : ℕ → Mem → (haystack needle needle_len : ℕ) → Option (Option ℕ)
unfolding strncmp
strstr_loop zero m haystack needle needle_len = none
strstr_loop (suc i) m haystack needle needle_len =
    if leb needle_len i
    then (do
      r ← strncmp m haystack needle needle_len
      if eqb_ℤ r (pos 0)
          then some (some haystack)
          else strstr_loop i m (haystack + 1) needle needle_len)
    else some none

pub strstr : Mem → (haystack needle : ℕ) → Option (Option ℕ)
unfolding strlen strstr_loop
strstr m haystack needle = do
  needle_len ← strlen m needle
  haystack_len ← strlen m haystack
  if needle_len == 0 && haystack_len == 0
      then some (some haystack)
      else strstr_loop (haystack_len + 1) m haystack needle needle_len
