-- ===== src/Lib.antt =====
-- liballo: memory allocators behind one interface, and what makes them correct.
--
-- The program. An allocator is a table of functions (`allo_t` of include/allo.h) over a context.
-- The fixed buffer (src/allo_buffer.c) hands out the front of a caller's buffer, the pool
-- (src/allo_pool.c) blocks of one size from a free list inside them, the page allocator
-- (src/allo_page.c) mappings of the operating system with a registry of them. The arena
-- (src/allo_arena.c) is a chain of such buffers from a child. The fallback (src/allo_fallback.c)
-- and the general allocator (src/allo_gen.c) route requests to other allocators, through the same
-- table; src/allo_mtx.c wraps one in a mutex, and src/allo_libc.c is the C library's.
--
-- The model. The C state is an explicit state `W`. A function that reads or changes it is a
-- command `Cmd W A = W → Option (A × W)` (Base/Cmd), and `none` is the end of the program by a
-- failed `ALLO_ASSERT`, an `abort` or a fault. `Returns P r` says that `r` is an answer, and that
-- `P` holds of it: it is total correctness, a failed assertion falsifies it. A context is a
-- record with the fields of the C struct. An allocator that stands on another one has its part of
-- `W` as a `Slot`, a pair of `get` and `put` with their laws, since the other allocator changes
-- the same state; `zoom` runs a command there. A pointer is its address, a number; `size_t` and
-- `uintptr_t` are numbers below 2^64, and sums, differences and products of the code wrap by
-- `add64`, `sub64`, `mul64` (Base). `Memory` (Mem) has a byte for each address, and, apart from
-- them, the words that the allocators store in blocks: the link of a free block in a pool, and
-- the header of a block of the arena. A store of a word changes no byte: that the links of a free
-- block overwrite its first bytes is not seen, and no result below says what is in a free block.
--
--   Base          helpers: Lists, Word (wrap-around), Arith (division), Bits (masks, xor and powers
--                 of two), Cmd (commands and slots)
--   Mem           `allo_memcpy` and `allo_memset` of include/allo_mem.h and src/allo_mem.c (Copy),
--                 `ALLO_IS_ALIGNED` and `allo_align_up` (Align)
--   Allo          `allo_t`, its wrappers, `allo_calloc` and `allo_realloc` of src/allo.c (Calloc);
--                 what an allocator may expect of the one that it was made with (Contract)
--   Blocks        ranges of addresses and lists of ranges that do not overlap
--   Buffer        src/allo_buffer.c: the invariant with allocation (Inv), reallocation and search
--                 (Realloc), the factory (Make)
--   Pool          src/allo_pool.c: the free list in memory (Inv), the operations (Ops), the factory's
--                 loop (Init) and the factory (Make)
--   Page          src/allo_page.c with src/allo_page_posix.h: the registry as a bag of entries
--                 (Registry), its search (Lookup), allocation and the registry's bounds (Inv),
--                 reallocation (Resize)
--   Buddy         src/allo_buddy.c: `get_order` (Order); the doubly linked lists (Links, Unlink), the
--                 bit set (Flags) and the tree of blocks (Tiling) that the invariant (Inv) is about;
--                 one block taken from a list or given to it (Steps, Take, Give); the loop that cuts
--                 a block (Halve, Split) and the one that joins buddies (Merge); the operations
--                 (Level, TakeFrom, Alloc, Free, Realloc); what the invariant means for a client
--                 (Apart, Separate, Whole) and after any sequence of calls (Calls). The factory and the
--                 destruction (Make): its first loop (Make/Round), the state it ends with
--                 (Make/Start), what is on loan from the child (Make/Lease), and the factory step by
--                 step (Make/Undo, Make/Factory), as a whole (Make/Lifecycle) and without memory
--                 (Make/Refused)
--   Arena         src/allo_arena.c: the chain and its search (Chain), its release (Release); the
--                 invariant and the contract of the child (Inv), a write of an offset (Offset,
--                 Resize), a new block in the chain (Inserted, Insert), what the child's calls leave
--                 alone (Frame), what was handed out (Parts), a request to the child (Request); allocation
--                 (Alloc), reallocation (Realloc), the factory and the destruction (Make); a child for
--                 tests (Heap)
--   Gen           src/allo_gen.c: the index of a pool (Index), the routing by size (Tiers), the
--                 factory (Make) and its failures (Make/Failure)
--   Fallback      src/allo_fallback.c: the routing (Routing), and that the fixed buffer meets what it asks
--                 of a primary allocator (FixedBuffer)
--   Mtx           src/allo_mtx.c: the wrapper against its target (Transparent); threads that share it,
--                 as interleaved steps (Threads), that these are the steps of the code (Code), who
--                 holds the mutex (Owner) and what holds after any interleaving (Exclusion)
--   Libc          src/allo_libc.c: the C library's blocks through the interface (Heap)
--   HeapArena     examples/heap-arena/main.c, arenas over the page allocator, and its loop (Rounds)
--
-- Names are those of the C functions and struct fields; `free` of the table is `free_mem`. The
-- tests of each part, in its Tests (for Buddy also in Runs and Loans, for Arena in Runs, for Gen
-- in Make/Tests), run the operations on small states and apply the theorems there.
--
-- The buddy allocator's arrays `free_lists`, `bitset` and `block_orders`, which no one else
-- reaches, are functions of the index in its context, beside their addresses; the links of its
-- free blocks are words of the memory. A node of its tree is a level and an index, and `IsValid`
-- says that the nodes of the free lists and those that are handed out cover each smallest block
-- exactly once, that the bit set marks the free nodes, and that two buddies are never both free.
--
-- What is ghost. A list of the blocks that are handed out, for the arena those of its chain, and,
-- for the pool, of the free blocks in the order of the free list, stand beside the state in the
-- invariants `IsValid`; the code has no such list. A `size` argument of a release is what the
-- caller says, so the theorems on releases take it as the interface asks, the size of the block.
--
-- Parameters. The operating system (`Os`: `mmap`, `mremap`, `munmap`, the page size), the C
-- library's heap (`LibcOps`), `memcpy` and `memset` (`MemOps`, whose laws are those of string.h;
-- `freestanding` shows that they can hold, with the loops of src/allo_mem.c), the mutex of
-- threads.h (`MtxOps`) and the compiler's `__builtin_clzll` (`CountsLeadingZeros`) are arguments
-- with their documented behaviour as hypotheses. A client of an allocator takes it as `Allo W`
-- and, where it depends on its answers, `Provides` or `Lends`; a target of the wrapper neither
-- reads nor changes the mutex (`Ignores`).
--
-- Loops. The loops of the code count up to a bound that is fixed when they start; they are
-- recursion on the rounds that are left, so no fuel can run out. The shifts of `get_order` are
-- six fixed steps. The two loops along the arena's chain take a number of steps that they may
-- make, and have no result when they need more; any number above the length of the chain is
-- enough. So does the first loop of `make_buddy_allocator`, for which 64 rounds are enough up to
-- a size of 2^63; above, no number is. A shift by a negative level, in a release with a size
-- above the whole buffer, is undefined in C and has no result here. The example's 1000 rounds are
-- recursion on the rounds that are left.
--
-- Threads. A thread that calls the wrapper goes through the lock, the target's call and the
-- unlock; a thread that waits for the mutex has no step until it is free. The target's call is two
-- steps: it reads the whole state, and later writes back what it makes of what it has read, so two
-- calls that overlapped would lose a write. A state of the system is the shared state, the place of
-- each thread with what it has read and, as a ghost, the target's calls so far, in the order in
-- which they wrote.
--
-- Not modelled. The build is the one without AddressSanitizer (include/allo_asan.h), where the
-- poison macros expand to nothing. Memory that was given back stays readable, but for the state
-- of src/allo_gen.c, where `readable` of `Parts` says whether the program may still read it;
-- theorems on that factory are about its failures only. What other
-- threads do to the target of src/allo_mtx.c without the wrapper is not seen. What the example prints is left out. Benchmarks and tests of the
-- repository are clients of the library.
pub mod Base
pub mod Mem
pub mod Allo
pub mod Blocks
pub mod Arena
pub mod Buffer
pub mod Pool
pub mod Buddy
pub mod Gen
pub mod HeapArena
pub mod Page
pub mod Fallback
pub mod Libc
pub mod Mtx
