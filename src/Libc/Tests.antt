-- ===== src/Libc/Tests.antt =====
-- A C library with room for one block of up to 1024 bytes, at 4096.
use liballo.Base.{
  ℕ, ◌≡◌, refl, ◌⊎◌, inl, inr, ◌≢◌, Option, none, some, List, [], ◌∷◌, leb, leb→le, Bool-cases,
  arith, if◌then◌else◌,
}
use liballo.Base.Cmd.{Returns}
use liballo.Mem.{Ptr, null}
use liballo.Blocks.{Block, block, Removed, here, there}
use liballo.Allo.{allo_realloc}
use liballo.Allo.Contract.{IsBlock}
use liballo.Libc.{LibcOps, c_alloc_fn, c_allocator}
use liballo.Libc.Heap.{IsHeap, Exchanged, c_realloc_lem}

-- The size of the block, when there is one.
abbrev Cell : Type 0
Cell = Option ℕ

abbrev place : ℕ → Cell → Option (Ptr × Cell)
place n w = if leb n 1024 then some (4096, some n) else some (null, w)

abbrev tiny : LibcOps Cell
tiny = record {
  malloc = λ n w. elim w [ none ↦ place n none | some k ↦ some (null, some k) ];
  realloc = λ p n w. place n w;
  free = λ p w. some (tt, none);
}

abbrev blocks : Cell → List Block
blocks none = []
blocks (some n) = block 4096 n ∷ []

abbrev Heap : List Block → Cell → Type 0
Heap bs w = bs ≡ blocks w

Removed-rest :
    {b : Block} {bs rest : List Block} → Removed b bs rest → (w : Cell) → Heap bs w → rest ≡ []
Removed-rest here none e = cc
Removed-rest here (some n) e = cc
Removed-rest (there r) none e = cc
Removed-rest (there here) (some n) e = cc
Removed-rest (there (there r)) (some n) e = cc

place_lem :
    (bs rest : List Block) (n : ℕ) (w : Cell)
    → Heap bs w
    → rest ≡ []
    → Returns
        (λ p w'. ((p ≡ null) × Heap bs w') ⊎ (IsBlock n p × Heap (block p n ∷ rest) w'))
        (place n w)
place_lem bs rest n w h e = elim (Bool-cases (leb n 1024)) [
  | inl room ↦ rw room (
      inr (
        record { ne_null = omega arith; aligned = refl; fits = omega (arith, leb→le n 1024 room) },
        rw e refl,
      ))
  | inr full ↦ rw full (inl (refl, h))
]

tiny-IsHeap : IsHeap tiny Heap
tiny-IsHeap = record {
  malloc_ends = malloc_ends;
  realloc_ends = λ {bs} {rest} p old n w h r ne. place_lem bs rest n w h (Removed-rest r w h);
  free_ends = λ {bs} {rest} p old w h r. Removed-rest r w h;
}
  where
    malloc_ends :
        (bs : List Block) (n : ℕ) (w : Cell)
        → Heap bs w
        → n ≢ 0
        → Returns
            (λ p w'. ((p ≡ null) × Heap bs w') ⊎ (IsBlock n p × Heap (block p n ∷ bs) w'))
            (tiny.malloc n w)
    malloc_ends bs n none h ne = place_lem bs bs n none h h
    malloc_ends bs n (some k) h ne = inl (refl, h)

first : c_alloc_fn tiny 100 none ≡ some (4096, some 100)
unfolding c_alloc_fn
first = refl

c_realloc_lem_example :
    Returns
      (Exchanged tiny Heap tiny-IsHeap (block 4096 100 ∷ []) [] 4096 100 500)
      (allo_realloc (c_allocator tiny) 4096 100 500 (some 100))
c_realloc_lem_example =
    c_realloc_lem tiny Heap tiny-IsHeap 4096 100 500 (some 100) refl here (omega arith)
