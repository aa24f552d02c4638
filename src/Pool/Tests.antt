-- ===== src/Pool/Tests.antt =====
-- Runs of the pool allocator, and its theorems at concrete states.
use liballo.Base.{
  ℕ, ◌≡◌, refl, ◌⊎◌, inl, inr, false, some, none, List, [], ◌∷◌, arith, leb, leb→le, Bool-cases,
  ◌==◌, if◌then◌else◌,
}
use liballo.Base.Cmd.{Returns, Slot}
use liballo.Mem.{null, align_up}
use liballo.Allo.{Allo}
use liballo.Allo.Contract.{Provides, IsBlock}
use liballo.Pool.{State, pool_alloc_fn, pool_free_fn, make_pool_allocator, actual_size}
use liballo.Pool.Inv.{IsValid, end, link}
use liballo.Pool.Make.{Made, make_pool_lem}
use liballo.Pool.Ops.{Allocated, remove, pool_alloc_lem, pool_free_lem}

-- Four blocks of 16 bytes from 4096: blocks 2 and 0 are free, 1 and 3 are handed out.
abbrev half_used : State
half_used = record {
  ctx = record {
    buffer = 4096;
    block_size = 16;
    total_blocks = 4;
    free_list = 4128;
    own_buffer = false;
  };
  mem = record { byte = λ p. 0; word = λ p. if p == 4128 then 4096 else 0 };
}

abbrev free : List ℕ
free = 2 ∷ 0 ∷ []

abbrev live : List ℕ
live = 1 ∷ 3 ∷ []

half_used-IsValid : IsValid half_used free live
half_used-IsValid = record {
  ne_null = omega arith;
  node_fits = omega arith;
  aligned = refl;
  fits = omega arith;
  chain = link 2 refl (link 0 refl end);
  once = λ k. ground arith;
}

alloc_first :
    pool_alloc_fn 10 half_used
    ≡ some (4128, record half_used { ctx = record (half_used.ctx) { free_list = 4096 } })
unfolding pool_alloc_fn
alloc_first = refl

pool_alloc_lem_example : Returns (Allocated half_used free live 10) (pool_alloc_fn 10 half_used)
pool_alloc_lem_example = pool_alloc_lem half_used-IsValid 10

pool_free_lem_example :
    Returns (λ _ s'. IsValid s' (3 ∷ 2 ∷ 0 ∷ []) (remove 3 live)) (pool_free_fn 4144 10 half_used)
pool_free_lem_example = pool_free_lem half_used-IsValid 3 10 (omega arith)

abbrev whole : Slot State State
whole = record {
  get = λ s. s;
  put = λ s w. s;
  get-put = λ s w. refl;
  put-get = λ w. refl;
  put-put = λ s t w. refl;
}

-- A child that has one block of up to 1024 bytes at 8192.
abbrev child : Allo State
child = record {
  alloc = λ n w. some ((if leb n 1024 then 8192 else null), w);
  realloc = λ p old new w. some (null, w);
  free_mem = λ p n w. some (tt, w);
  destroy = none;
  contains = none;
}

child_alloc :
    (n : ℕ)
    → ((if leb n 1024 then 8192 else null) ≡ null) ⊎ IsBlock n (if leb n 1024 then 8192 else null)
child_alloc n = elim (Bool-cases (leb n 1024)) [
  | inl t ↦ rw t (
      inr (record { ne_null = omega arith; aligned = refl; fits = omega (arith, leb→le n 1024 t) }))
  | inr t ↦ rw t (inl refl)
]

child-Provides : Provides {W = State} {S = State} (λ w. Unit {0}) whole child
child-Provides = record {
  alloc_ends = λ n w i. (tt, child_alloc n);
  free_ends = λ p n w i. tt;
  apart = λ s w i. tt;
}

actual_size_ten : actual_size 10 ≡ 16
unfolding actual_size align_up
actual_size_ten = refl

-- The child's block becomes a pool of 4 blocks.
make_pool_lem_example :
    Returns
      (Made whole child 512 0 10 4 half_used)
      (make_pool_allocator whole 512 (some child) 0 10 4 half_used)
make_pool_lem_example =
    make_pool_lem whole child child-Provides 512 0 10 4 half_used tt (omega arith)
      (rw actual_size_ten (omega arith)) (λ ne. absurd (ne refl))
