-- ===== src/Libc/Heap.antt =====
-- The blocks of the C library behind the interface.
use liballo.Base.{
  ℕ, ◌≡◌, ◌≢◌, ◌⊎◌, inl, inr, refl, sym, arith, Bool-cases, ◌==◌, ==_iff, false, List, ◌∷◌,
}
use liballo.Base.Cmd.{Returns, Returns-map, Returns-bind}
use liballo.Mem.{null}
use liballo.Blocks.{Block, block, Removed}
use liballo.Allo.{allo_realloc}
use liballo.Allo.Contract.{IsBlock}
use liballo.Libc.{LibcOps, c_free_fn, c_realloc_fn, c_allocator}

-- What the C standard says of the three functions, where `Heap bs` holds when exactly the blocks
-- `bs` are allocated: a request gives NULL and changes no block, or a new block; a block that is
-- released, or exchanged for one of another size, is no longer there.
pub record IsHeap {W : Type 0} (libc : LibcOps W) (Heap : List Block → W → Type 0) : Type 0 where
  pub malloc_ends :
      (bs : List Block) (n : ℕ) (w : W)
      → Heap bs w
      → n ≢ 0
      → Returns
          (λ p w'. ((p ≡ null) × Heap bs w') ⊎ (IsBlock n p × Heap (block p n ∷ bs) w'))
          (libc.malloc n w)
  pub realloc_ends :
      {bs rest : List Block} (p old n : ℕ) (w : W)
      → Heap bs w
      → Removed (block p old) bs rest
      → n ≢ 0
      → Returns
          (λ q w'. ((q ≡ null) × Heap bs w') ⊎ (IsBlock n q × Heap (block q n ∷ rest) w'))
          (libc.realloc p n w)
  pub free_ends :
      {bs rest : List Block} (p old : ℕ) (w : W)
      → Heap bs w
      → Removed (block p old) bs rest
      → Returns (λ _ w'. Heap rest w') (libc.free p w)

module _ {W : Type 0} (libc : LibcOps W) (Heap : List Block → W → Type 0)
    (is : IsHeap libc Heap) where
  -- What `allo_realloc` may answer for a block.
  pub data Exchanged (bs rest : List Block) (p old n q : ℕ) (w' : W) : Type 0 where
    released : n ≡ 0 → q ≡ null → Heap rest w' → Exchanged bs rest p old n q w'
    unchanged : n ≡ old → q ≡ p → Heap bs w' → Exchanged bs rest p old n q w'
    failed : q ≡ null → Heap bs w' → Exchanged bs rest p old n q w'
    exchanged : IsBlock n q → Heap (block q n ∷ rest) w' → Exchanged bs rest p old n q w'

  free_lem :
      {bs rest : List Block} (p old : ℕ) (w : W)
      → Heap bs w
      → Removed (block p old) bs rest
      → p ≢ null
      → Returns (λ _ w'. Heap rest w') (c_free_fn libc p old w)
  unfolding c_free_fn
  free_lem p old w h r ne =
      let given : (p == null) ≡ false = ground arith in rw given (is.free_ends p old w h r)

  -- Through `allo_realloc`, the C library's `realloc` is never asked for size 0, which the C
  -- standard leaves open: the block is released, kept, kept with the answer NULL, or exchanged for
  -- one of the new size.
  pub c_realloc_lem :
      {bs rest : List Block} (p old n : ℕ) (w : W)
      → Heap bs w
      → Removed (block p old) bs rest
      → p ≢ null
      → Returns (Exchanged bs rest p old n) (allo_realloc (c_allocator libc) p old n w)
  unfolding allo_realloc c_realloc_fn
  c_realloc_lem {rest} p old n w h r ne =
      let given : (p == null) ≡ false = ground arith in
      elim (Bool-cases (n == 0)) [
        | inl zero_size ↦ rw zero_size (
            Returns-bind (λ _ w'. Heap rest w') _ (c_free_fn libc p old) _ w
              (free_lem p old w h r ne) (λ a w' h'. released ((==_iff _ _).0 zero_size) refl h'))
        | inr some_size ↦ elim (Bool-cases (old == n)) [
          | inl same ↦ rw (some_size, given, same) (unchanged (sym ((==_iff _ _).0 same)) refl h)
          | inr changed ↦
              rw (some_size, given, changed)
                (Returns-map _ _ (libc.realloc p n w)
                  (is.realloc_ends p old n w h r (ground (arith, some_size)))
                  λ q w' a. elim a [ inl (e, h') ↦ failed e h' | inr (b, h') ↦ exchanged b h' ])
        ]
      ]
