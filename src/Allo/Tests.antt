-- ===== src/Allo/Tests.antt =====
-- `allo_calloc` over an allocator of one block.
use liballo.Base.{
  ℕ, ◌+◌, ◌^◌, ◌≤◌, ◌≡◌, refl, ◌≢◌, Bool-cases, inl, inr, some, none, arith, leb, leb→le,
  if◌then◌else◌,
}
use liballo.Base.Cmd.{Returns, Slot}
use liballo.Mem.{null, Memory}
use liballo.Mem.Copy.{freestanding}
use liballo.Allo.{Allo, allo_calloc}
use liballo.Allo.Calloc.{Calloced, allo_calloc_lem}

abbrev whole : Slot Memory Memory
whole = record {
  get = λ m. m;
  put = λ m w. m;
  get-put = λ m w. refl;
  put-get = λ w. refl;
  put-put = λ m n w. refl;
}

-- One block of up to 1024 bytes at 8192.
abbrev one_block : Allo Memory
one_block = record {
  alloc = λ n m. some ((if leb n 1024 then 8192 else null), m);
  realloc = λ p old new m. some (null, m);
  free_mem = λ p n m. some (tt, m);
  destroy = none;
  contains = none;
}

abbrev used : Memory
used = record { byte = λ p. 7; word = λ p. 0 }

one_block_ends :
    (n : ℕ) (m : Memory)
    → Returns {W = Memory} (λ p m'. (p ≢ null → p + n ≤ 2 ^ 64)) (one_block.alloc n m)
one_block_ends n m = elim (Bool-cases (leb n 1024)) [
  | inl t ↦ rw t (λ ne. omega (arith, leb→le n 1024 t))
  | inr t ↦ rw t (λ ne. absurd (ne refl))
]

calloc_too_large : allo_calloc one_block freestanding whole (2 ^ 63) 2 used ≡ some (null, used)
unfolding allo_calloc
calloc_too_large = refl

allo_calloc_lem_example :
    Returns (Calloced whole one_block used 4 8) (allo_calloc one_block freestanding whole 4 8 used)
allo_calloc_lem_example = allo_calloc_lem whole one_block freestanding one_block_ends 4 8 used
