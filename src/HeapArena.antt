-- ===== src/HeapArena.antt =====
-- examples/heap-arena/main.c: an arena over the page allocator, made, used and destroyed 1000 times.
--
-- What the program prints is left out, and `abort` is `none`.
pub mod Rounds
mod Tests
use liballo.Base.{ℕ, zero, suc, ◌*◌, Option, none, some, ◌==◌, if◌then◌else◌}
use liballo.Base.Cmd.{Cmd, pure, ◌>>=◌, ◌>>◌, Slot}
use liballo.Mem.{Ptr, null, MemOps}
use liballo.Allo.{Error, Allo, allo_alloc, allo_destroy}
use liballo.Page.{Os, PageContext, make_page_allocator}
use liballo.Arena.{State, make_arena_allocator}

abbrev pub block_size : ℕ
block_size = 1024 * 1024

abbrev abort : {W A : Type 0} → Cmd W A
abort w = none

module _ {W : Type 0} (arena_self : Slot W State) (ops : MemOps) (steps : ℕ) (arena_at : Ptr) where
  -- The body of the loop once the arena is made.
  pub use_arena : Error × Option (Allo W) → Cmd W (Unit {0})
  use_arena (err, none) = abort
  use_arena (err, some arena) = do
    ptr1 ← allo_alloc arena 256
    if ptr1 == null
        then abort
        else (do ptr2 ← allo_alloc arena 512; if ptr2 == null then abort else allo_destroy arena)

  -- The loop, with the rounds that are left.
  pub run_rounds : Allo W → (rounds : ℕ) → Cmd W (Unit {0})
  unfolding use_arena
  run_rounds backing_alloc zero = pure tt
  run_rounds backing_alloc (suc n) = do
    result ← make_arena_allocator arena_self ops steps arena_at (some backing_alloc) block_size
    use_arena result
    run_rounds backing_alloc n

  -- `main`, with the answer for the shell.
  pub main_with : Error × Option (Allo W) → Cmd W ℕ
  unfolding run_rounds
  main_with (err, none) = pure 1
  main_with (err, some backing_alloc) = do
    run_rounds backing_alloc 1000
    allo_destroy backing_alloc
    pure 0

  pub main : Os W → Slot W PageContext → (backing_at : Ptr) → Cmd W ℕ
  unfolding main_with
  main os page_self backing_at = do
    result ← make_page_allocator os page_self backing_at
    main_with result
