-- ===== src/Lib.antt =====
-- Verification of osdev-libstdc, a freestanding C library for kernels: the memory and string
-- routines with their POSIX extensions, the character classes, strerror, vsnprintf, the
-- atomic objects, the spin lock with the interrupt guard, and the entry points of the allocator that
-- use them.
--
-- The parts and their files. Paths of the program are from the root of the repository.
-- - Base: numbers, lists and `int` values that all parts share. Base/Int reads an `int` or a `char` as a
--   mathematical integer, `to_unsigned w` as its `w`-bit two's complement pattern, and `schar` the other
--   way round, since the target's plain `char` is signed. Base/Returns carries what holds of a value, if
--   one is returned, through chains of steps that may fault, and Base/Runs has the runs of a loop without a
--   bound on its rounds, which a loop with fuel is compared with.
-- - Memory: the memory that the string routines work on. A pointer is an address, `Option ℕ` where null
--   is allowed; `load` and `store` of an unmapped address are the fault `none`, which C leaves
--   undefined. The state is passed explicitly: a routine that writes returns the new memory. `Bytes`,
--   `IsString`, `Mapped` and `Apart` say what stands where; `write_list` writes a list of bytes. The
--   modules named Sizes under it, Cstring/Copy and Printf's Number, Field, Args and Loop are about the
--   size of memory, which no routine changes.
-- - Cstring: src/cstring.cpp. Its children are
--   Copy (memcpy, memmove, memset, mempcpy, memccpy), Length (strlen, strnlen), Compare (memcmp, strcmp,
--   strncmp), Search (memchr, memrchr, strchr, strrchr, strspn, strcspn, strpbrk, strstr),
--   Build (strcpy, strncpy, stpcpy, strcat, strncat, strdup; Build/Ends is about arguments that point
--   anywhere), Edit (strlwr, strupr, strrev) and Token (strtok_r, strtok with its static pointer as
--   state; Token/Tokens says what the tokens of a string are, and Token/Walk is about calls of strtok
--   until it returns null).
-- - Posix: posix/posix_strings.cpp (strlcpy, strlcat, strcasecmp, strncasecmp, ffs, ffsl, ffsll).
-- - Ctype: src/cctype.cpp. Strerror: src/strerror.cpp and the numbers of include/libstdc/cerrno.h.
-- - Atomic: include/atomic.h, over the GCC builtins as a record of functions with their documented
--   behaviour for the memory orders that GCC allows. Atomic/Objects has the objects, atomic and
--   atomic_ref, which may share a value, and Atomic/Registers what each value goes through. SpinLock:
--   include/dux/spin_lock.h and the interrupt functions of include/arch/x86/asm/cpu.h. SpinLock/Guards has the constructors and destructors of
--   lock_guard, irq_save_guard and irq_save_lock_guard, and SpinLock/Scopes runs them one within another
--   on one CPU, where no other thread gives back a lock that is held.
-- - Malloc: src/malloc.cpp. The allocator that it calls is a submodule outside the repository and a
--   parameter. Malloc/System runs any number of threads, each on a CPU of its own, in any interleaving:
--   a step relation over the lock, the allocator's state, the interrupt flags and what each thread does.
--   Malloc/System/Safety has the invariant, Guarantees and Progress what follows from it.
-- - Printf: src/vsnprintf.cpp. Spec (parse_number, parse_flags_fw_precision and parse_size_specifier over
--   the FormatSpec), Number (number_to_string), Field (put_with_field_width, format_char, format_string
--   and format_number), Args (the reading of numeric arguments, which are a list) and Loop (vsnprintf,
--   sprintf and snprintf). A type long, size_t or pointer has 64 bits there. Spec/Written writes a
--   conversion specification as a record, with the arguments that it takes, and Spec/Directive reads it;
--   Spec/Sizes is about the size of its argument, and Number/Numeral gives a number as its prefix and
--   digits. Loop/Pieces describes formats by what they mean: a `Piece` is a plain character or a
--   conversion with its directive and its argument, `rendered` is its text, and `piece_format` how it is
--   written. Loop/Room says what of a piece a room that is too short lets through. Loop/Kept says what a
--   conversion leaves alone, Loop/Numbers and Loop/Texts are about one conversion, Loop/Rounds about one
--   round of the loop, Loop/Rendered about the loop over the pieces, from the states of Loop/Reached, and
--   Loop/Refinement and Loop/Bounded about a whole call, with room for the text or in a buffer of any
--   size. Spec/Advance, Spec/Runs and Loop/Ends are about formats of any kind, also ill-formed ones.
--
-- The span routines and strtok_r use strchr and the spans, strstr uses strlen and strncmp, strcpy
-- and its like loop for themselves, as in the code; Posix uses Ctype's tolower and Cstring's
-- strlen; Printf uses Ctype's isdigit and Cstring's memset, mempcpy and strnlen; Malloc uses
-- SpinLock, and SpinLock uses Atomic.
--
-- Loops. A loop with a counter is recursion on that counter. A loop that runs to a NUL has as fuel
-- the number of addresses from its pointer to the end of memory: each round reads one address
-- further, so that it meets a NUL or an unmapped address first, and running out is the same fault
-- `none`. The loop of ffs has the width of the type as fuel, since each round shifts one bit out,
-- and that of number_to_string one round more than its array has characters, since each round
-- stores one; the loops of vsnprintf and of the reading of a specification get one address further in
-- each round. That of spin_lock::lock in SpinLock/Guards has any number of rounds, of which one is
-- enough for a lock that is free, and none for another. Numbers of type size_t and addresses are
-- natural numbers without an upper bound; differences of characters and the arguments of type int are
-- integers, and the int that parse_number reads is kept below 2 ^ 31, and the functions that reduce an
-- int to a byte do so in the model.
--
-- Not modelled: src/abort.cpp, one trap instruction; the build of strerror for a hosted system; weak
-- memory, since operations on atomic objects take effect in one order for all threads; forwarding
-- headers, tests and benchmarks.
pub mod Base
pub mod Memory
pub mod Ctype
pub mod Cstring
pub mod Posix
pub mod Strerror
pub mod Atomic
pub mod SpinLock
pub mod Malloc
pub mod Printf
