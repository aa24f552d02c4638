-- ===== src/Buffer/Tests.antt =====
-- Runs of the fixed buffer allocator, and its theorems at concrete states.
use liballo.Base.{◌-◌, ◌^◌, ◌≡◌, refl, some, List, [], ◌∷◌, arith}
use liballo.Base.Cmd.{Returns, Slot}
use liballo.Mem.{Memory, align_up}
use liballo.Mem.Copy.{freestanding}
use liballo.Blocks.{Block, block, here, there}
use liballo.Buffer.{State, buf_alloc_fn, buf_realloc_fn, make_fixed_buf_allocator}
use liballo.Buffer.Inv.{IsValid, Allocated, buf_alloc_lem}
use liballo.Buffer.Make.{Made, make_fixed_buf_lem}
use liballo.Buffer.Realloc.{Reallocated, buf_realloc_lem, buf_realloc_wrap}

abbrev blank : Memory
blank = record { byte = λ p. 0; word = λ p. 0 }

-- 64 bytes from 4096, of which 8 and 4 are handed out.
abbrev two_blocks : State
two_blocks = record { ctx = record { buffer = 4096; size = 64; offset = 20 }; mem = blank }

abbrev live : List Block
live = block 4112 4 ∷ block 4096 8 ∷ []

two_blocks-IsValid : IsValid two_blocks live
two_blocks-IsValid = omega arith

abbrev whole : Slot State State
whole = record {
  get = λ s. s;
  put = λ s w. s;
  get-put = λ s w. refl;
  put-get = λ w. refl;
  put-put = λ s t w. refl;
}

-- The third block begins at the next multiple of 8.
alloc_third :
    buf_alloc_fn 16 two_blocks
    ≡ some (4120, record two_blocks { ctx = record (two_blocks.ctx) { offset = 40 } })
unfolding buf_alloc_fn align_up
alloc_third = refl

buf_alloc_lem_example : Returns (Allocated two_blocks live 16) (buf_alloc_fn 16 two_blocks)
buf_alloc_lem_example = buf_alloc_lem 16 two_blocks-IsValid (omega arith)

-- The first block grows, and has to move.
buf_realloc_lem_example :
    Returns
      (Reallocated two_blocks (block 4112 4 ∷ []) 4096 8 24)
      (buf_realloc_fn freestanding 4096 8 24 two_blocks)
buf_realloc_lem_example =
    buf_realloc_lem two_blocks-IsValid (there here) freestanding 24 (omega arith) (omega arith)

-- The last block, at offset 16, is granted 2 ^ 64 - 16 bytes.
buf_realloc_wrap_example :
    buf_realloc_fn freestanding 4112 4 (2 ^ 64 - 16) two_blocks
    ≡ some (4112, record two_blocks { ctx = record (two_blocks.ctx) { offset = 0 } })
buf_realloc_wrap_example = buf_realloc_wrap freestanding two_blocks-IsValid here refl (omega arith)

make_fixed_buf_lem_example :
    Returns
      (Made freestanding whole 512 4096 64 two_blocks)
      (make_fixed_buf_allocator freestanding whole 512 4096 64 two_blocks)
make_fixed_buf_lem_example =
    make_fixed_buf_lem freestanding whole 512 4096 64 two_blocks (omega arith)
