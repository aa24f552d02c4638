-- ===== src/Arena/Runs.antt =====
-- Arenas over the heap of Arena/Heap.
use liballo.Base.{refl, ◌⊎◌, ap, subst, Option, none, some, List, [], ◌∷◌, arith}
use liballo.Base.Cmd.{Returns}
use liballo.Mem.Copy.{freestanding}
use liballo.Blocks.{Block, block, here}
use liballo.Allo.{Allo}
use liballo.Arena.{State, arena_alloc_fn, arena_realloc_fn, make_arena_allocator, set_offset}
use liballo.Arena.Chain.{first}
use liballo.Arena.Inv.{Lends, IsValid}
use liballo.Arena.Heap.{Heap, self, child, Lent, child-Lends, blank, empty_heap, empty_heap-Lent}
use liballo.Arena.Offset.{IsValid-take}
use liballo.Arena.Alloc.{Allocated, arena_alloc_lem}
use liballo.Arena.Realloc.{Reallocated, InPlace, Extended, arena_realloc_lem}
use liballo.Arena.Make.{one_block, IsValid-one, Made, make_arena_lem}

-- One block for 40 bytes, of which 8 are handed out.
abbrev used_arena : State
used_arena = set_offset 8192 8 (one_block 8192 40 blank)

abbrev used_heap : Heap
used_heap = record { arena = used_arena; next = 8256; lent = 1 }

abbrev used_blocks : List Block
used_blocks = block 8192 64 ∷ []

used_heap-Lent : Lent used_blocks used_heap
used_heap-Lent = record {
  count = refl;
  aligned = refl;
  ne_null = omega arith;
  below = (omega arith, tt);
  afresh = λ e. absurd (omega arith);
}

used_arena-IsValid : IsValid used_arena used_blocks (block 8216 8 ∷ [])
used_arena-IsValid =
    IsValid-take 8 (IsValid-one blank 8192 40 (omega arith) refl (omega arith) (omega arith))
      (first refl) (omega arith) (omega arith)

arena_alloc_lem_example :
    Returns
      (Allocated Lent self child used_heap used_blocks (block 8216 8 ∷ []) 100)
      (arena_alloc_fn self child 100 used_heap)
arena_alloc_lem_example =
    arena_alloc_lem Lent self child child-Lends used_heap 100 used_arena-IsValid used_heap-Lent
      (omega arith)

arena_realloc_lem_example :
    Returns
      (λ p w'.
        Reallocated Lent self used_heap used_blocks (block 8216 8 ∷ []) [] 8216 8 60 p w'
        × (Extended 8216 60 used_arena p w'.arena ⊎ ¬ InPlace used_arena 8216 8 60))
      (arena_realloc_fn self child freestanding 8216 8 60 used_heap)
arena_realloc_lem_example =
    arena_realloc_lem Lent self child child-Lends freestanding used_heap 8216 8 60
      used_arena-IsValid used_heap-Lent here (omega arith) (omega arith)

abbrev or_else : Allo Heap → Option (Allo Heap) → Allo Heap
or_else d none = d
or_else d (some c) = c

make_arena_lem_example :
    Returns
      (Made Lent self freestanding 9 (some child) 64 40 empty_heap)
      (make_arena_allocator self freestanding 9 64 (some child) 40 empty_heap)
make_arena_lem_example =
    make_arena_lem Lent self freestanding 9 (some child) 64 40 empty_heap
      (λ c e. subst (Lends Lent self) (ap (or_else child) e) child-Lends) empty_heap-Lent
      (omega arith)
