-- ===== src/Fallback/Tests.antt =====
-- The fallback allocator over two allocators of one block each.
use liballo.Base.{
  ℕ, ◌^◌, ◌<◌, ◌⊎◌, inl, [], ◌∷◌, Bool-cases, ◌%◌, ◌≡◌, refl, inr, Option, some, none, arith, leb,
  ◌==◌, if◌then◌else◌,
}
use liballo.Base.Cmd.{Cmd, Returns, Slot}
use liballo.Mem.{Ptr, Memory, null, InRange}
use liballo.Mem.Copy.{freestanding}
use liballo.Allo.{Contains, contains_no, contains_yes, Allo}
use liballo.Fallback.{fallback_alloc_fn, fallback_free_fn}
use liballo.Fallback.FixedBuffer.{buf_allocator-Tracks}
use liballo.Buffer.{State, buf_allocator}
use liballo.Buffer.Inv.{InBuffer}
use liballo.Blocks.{block}
use liballo.Fallback.Routing.{Served, fallback_routing, fallback_misroutes}

abbrev whole : Slot Memory Memory
whole = record {
  get = λ m. m;
  put = λ m w. m;
  get-put = λ m w. refl;
  put-get = λ w. refl;
  put-put = λ m n w. refl;
}

-- One block at `p` of up to `room` bytes; `knows` is its `contains`.
abbrev one_block : (p room : ℕ) → Option (Ptr → Cmd Memory Contains) → Allo Memory
one_block p room knows = record {
  alloc = λ n m. some ((if leb n room then p else null), m);
  realloc = λ q old new m. some (null, m);
  free_mem = λ q n m. some (tt, m);
  destroy = none;
  contains = knows;
}

abbrev small : Allo Memory
small = one_block 4096 16 (some λ q m. some ((if q == 4096 then contains_yes else contains_no), m))

abbrev large : Allo Memory
large = one_block 8192 1024 none

abbrev untracked : Allo Memory
untracked = one_block 4096 16 none

abbrev none_left : Allo Memory
none_left = one_block 8192 0 none

abbrev blank : Memory
blank = record { byte = λ p. p % 256; word = λ p. 0 }

served_by_large : fallback_alloc_fn small large 100 blank ≡ some (8192, blank)
unfolding fallback_alloc_fn
served_by_large = refl

-- 64 bytes from 4096, of which 8 are handed out, in front of a block at 8192.
abbrev used_buffer : State
used_buffer = record { ctx = record { buffer = 4096; size = 64; offset = 8 }; mem = blank }

abbrev state : Slot State State
state = record {
  get = λ s. s;
  put = λ s w. s;
  get-put = λ s w. refl;
  put-get = λ w. refl;
  put-put = λ s t w. refl;
}

abbrev second : Allo State
second = record {
  alloc = λ n s. some ((if leb n 1024 then 8192 else null), s);
  realloc = λ q old new s. some (null, s);
  free_mem = λ q n s. some (tt, s);
  destroy = none;
  contains = none;
}

used_buffer-InBuffer : InBuffer 4096 64 used_buffer
used_buffer-InBuffer = (block 4096 8 ∷ [], omega arith, refl, refl)

second-elsewhere :
    (n : ℕ) (s : State)
    → InBuffer 4096 64 s
    → n < 2 ^ 64
    → Returns (λ p s'. InBuffer 4096 64 s' × ((p ≡ null) ⊎ ¬ InRange 4096 64 p)) (second.alloc n s)
second-elsewhere n s i small = elim (Bool-cases (leb n 1024)) [
  | inl fits ↦ rw fits (i, inr (λ h. omega arith))
  | inr large_n ↦ rw large_n (i, inl refl)
]

fallback_routing_example :
    Returns
      (λ p s'.
        InBuffer 4096 64 s'
        × Served (buf_allocator freestanding state) second 100 100 used_buffer used_buffer p s')
      (fallback_alloc_fn (buf_allocator freestanding state) second 100 used_buffer)
fallback_routing_example =
    fallback_routing (buf_allocator freestanding state) second
      (buf_allocator-Tracks freestanding state second 4096 64 second-elsewhere) 100 100 used_buffer
      used_buffer used_buffer-InBuffer used_buffer-InBuffer (omega arith)

fallback_misroutes_example :
    (fallback_alloc_fn untracked large 100 blank ≡ some (8192, blank))
    × (fallback_free_fn untracked large 8192 100 ≡ untracked.free_mem 8192 100)
fallback_misroutes_example =
    fallback_misroutes untracked large 100 8192 100 blank blank blank refl refl refl (omega arith)
