-- ===== src/HeapArena/Rounds.antt =====
-- The loop of examples/heap-arena/main.c over any allocator that lends the arena its blocks.
use liballo.Base.{
  ℕ, zero, suc, ◌+◌, ◌≤◌, ◌<◌, ◌≡◌, refl, ◌≢◌, inl, inr, false, Option, none, some, List, [], ◌∷◌,
  arith, ◌==◌, ap, subst,
}
use liballo.Base.Cmd.{Slot, Returns, Returns-bind, Returns-map}
use liballo.Mem.{Ptr, null, MemOps}
use liballo.Blocks.{Block, block}
use liballo.Allo.{Error, ok, Allo, allo_destroy}
use liballo.Arena.{State, header, offset_of, make_arena_allocator, arena_alloc_fn, arena_allocator}
use liballo.Arena.Inv.{Lends, IsValid, round_up}
use liballo.Arena.Alloc.{Allocated, none_left, taken, fresh, arena_alloc_lem}
use liballo.Arena.Make.{Made, rejected, no_memory, made, make_arena_lem, arena_destroy-valid}
use liballo.HeapArena.{block_size, use_arena, run_rounds, main_with}

same_child : {W : Type 0} {a c : Allo W} → ◌≡◌ {A = Option (Allo W)} (some a) (some c) → a ≡ c
same_child {a = a} e = ap (λ o. elim o [ none ↦ a | some c ↦ c ]) e

module _ {W : Type 0} (Lent : List Block → W → Type 0) (self : Slot W State) (ops : MemOps)
    (steps : ℕ) (arena_at : Ptr) (backing : Allo W) (lends : Lends Lent self backing)
    (enough : 2 ≤ steps) (given : arena_at ≢ null)
    (room : (w : W)
      → Lent [] w
      → Returns (λ p w'. p ≢ null) (backing.alloc (header + block_size) w)) where
  -- The arena, with one block of the given size, and so much of it used.
  record Ready (used : ℕ) (live : List Block) (p : Ptr) (w : W) : Type 0 where
    valid : IsValid (self.get w) (block p (header + block_size) ∷ []) live
    lent : Lent (block p (header + block_size) ∷ []) w
    size : (self.get w).ctx.block_size ≡ block_size
    offset : offset_of (self.get w).mem (self.get w).ctx.current ≡ used

  -- A request that the block has room for.
  alloc_lem :
      (used n : ℕ) {live : List Block} {p : Ptr} (w : W)
      → Ready used live p w
      → 0 < n
      → round_up used + n ≤ block_size
      → Returns
          (λ q w'. (q ≢ null) × Ready (round_up used + n) (block q n ∷ live) p w')
          (arena_alloc_fn self backing n w)
  alloc_lem used n {live} {p} w r pos fits =
      let size = r.size in
      let offset = r.offset in
      Returns-map (Allocated Lent self backing w (block p (header + block_size) ∷ []) live n) _
        (arena_alloc_fn self backing n w)
        (arena_alloc_lem Lent self backing lends w n r.valid r.lent (omega arith))
        (λ q w' a. elim a [
          | none_left e v l (inl empty) bytes ↦ absurd (omega arith)
          | none_left e v l (inr (full, refuses)) bytes ↦ absurd (omega arith)
          | fresh bs' ne full v l bytes ↦ absurd (omega arith)
          | taken at same ne v l ↦ (
            ne,
            record {
              valid = v;
              lent = l;
              size = rw same size;
              offset = rw same (ground (arith, offset));
            },
          )
        ])

  used_twice :
      {p : Ptr} (w : W)
      → Ready 0 [] p w
      → Returns
          (λ _ w'. Lent [] w')
          (use_arena self ops steps arena_at (ok, some (arena_allocator self backing ops steps)) w)
  unfolding use_arena allo_destroy
  used_twice {p} w r =
      Returns-bind (λ q w'. (q ≢ null) × Ready 256 (block q 256 ∷ []) p w') _
        (arena_alloc_fn self backing 256) _ w (alloc_lem 0 256 w r (omega arith) (omega arith))
        (λ q w₁ (ne, r₁).
          let first_there : (q == null) ≡ false = ground arith in
          rw first_there (
            Returns-bind (λ q' w'. (q' ≢ null) × Ready 768 (block q' 512 ∷ block q 256 ∷ []) p w') _
              (arena_alloc_fn self backing 512) _ w₁
              (alloc_lem 256 512 w₁ r₁ (omega arith) (omega arith))
              (λ q' w₂ (ne', r₂).
                let second_there : (q' == null) ≡ false = ground arith in
                rw second_there (
                  arena_destroy-valid Lent self ops steps backing lends w₂ r₂.valid r₂.lent
                    (omega arith)))))

  Made-used :
      (w : W) {r : Error × Option (Allo W)} {w' : W}
      → Made Lent self ops steps (some backing) arena_at block_size w r w'
      → Returns (λ _ w₁. Lent [] w₁) (use_arena self ops steps arena_at r w')
  Made-used w (rejected (inl e)) = absurd (given e)
  Made-used w (rejected (inr (inl e))) = absurd (omega arith)
  Made-used w (rejected (inr (inr e))) = cc
  Made-used w (no_memory c w₁ ne some_size e l refuses l') = absurd (
      refuses (
        subst (λ (a : Allo W). Returns (λ p w₂. p ≢ null) (a.alloc (header + block_size) w₁))
          (same_child e) (room w₁ l)))
  Made-used w (made {w' = w'} c p ne some_size e v l size empty) =
      subst
        (λ a.
          Returns (λ _ w₁. Lent [] w₁)
            (use_arena self ops steps arena_at (ok, some (arena_allocator self a ops steps)) w'))
        (same_child e) (used_twice w' (record { valid = v; lent = l; size = size; offset = empty }))

  run_rounds_lem :
      (n : ℕ) (w : W)
      → Lent [] w
      → Returns (λ _ w'. Lent [] w') (run_rounds self ops steps arena_at backing n w)
  unfolding run_rounds
  run_rounds_lem zero w l = l
  run_rounds_lem (suc n) w l =
      Returns-bind (Made Lent self ops steps (some backing) arena_at block_size w) _
        (make_arena_allocator self ops steps arena_at (some backing) block_size) _ w
        (make_arena_lem Lent self ops steps (some backing) arena_at block_size w
          (λ c e. subst (Lends Lent self) (same_child e) lends) l (omega arith))
        (λ r w₁ m.
          Returns-bind (λ _ w'. Lent [] w') _ (use_arena self ops steps arena_at r) _ w₁
            (Made-used w m) (λ u w₂ l₂. run_rounds_lem n w₂ l₂))

  -- With a backing allocator that lends the arena its blocks, and that has a block of 1 MiB and a
  -- header whenever nothing is lent, the program neither aborts nor leaks once it has that allocator:
  -- all 1000 rounds end, with nothing lent when the backing allocator is destroyed, and the answer is 0.
  pub main_lem :
      (Q : W → Type 0)
      → ((w : W) → Lent [] w → Returns (λ _ w'. Q w') (allo_destroy backing w))
      → (w : W) → Lent [] w
      → Returns
          (λ code w'. (code ≡ 0) × Q w')
          (main_with self ops steps arena_at (ok, some backing) w)
  unfolding main_with
  main_lem Q destroys w l =
      Returns-bind (λ _ w'. Lent [] w') _ (run_rounds self ops steps arena_at backing 1000) _ w
        (run_rounds_lem 1000 w l)
        (λ u w₁ l₁.
          Returns-bind (λ _ w'. Q w') _ (allo_destroy backing) _ w₁ (destroys w₁ l₁)
            (λ u' w₂ q. (refl, q)))
