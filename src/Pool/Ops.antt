-- ===== src/Pool/Ops.antt =====
-- `pool_alloc_fn`, `pool_free_fn`, `pool_realloc_fn` and `pool_contains_fn` on a valid pool.
use liballo.Base.{
  count, ℕ, ◌+◌, ◌*◌, ◌≤◌, ◌<◌, ◌≡◌, refl, ap, ◌⊎◌, inl, inr, ◌↔◌, true, false, some, List, [], ◌∷◌,
  arith, ltb, leb, ◌==◌, if◌then◌else◌, Bool-cases, ==_iff, ==_refl, ltb→lt, ltb→le, add64, mul64,
}
use liballo.Base.Cmd.{Returns}
use liballo.Mem.{Ptr, null, Apart, InRange}
use liballo.Allo.{contains_yes}
use liballo.Pool.{State, in_buffer, pool_alloc_fn, pool_free_fn, pool_realloc_fn, pool_contains_fn}
use liballo.Pool.Inv.{slot, Chain, link, IsValid, slot-le, Chain-update, Chain-context, Chain-head}

-- What an allocation may answer.
pub data Allocated (s : State) (free live : List ℕ) (size : ℕ) (p : Ptr) (s' : State) : Type 0 where
  refused :
      p ≡ null
      → s' ≡ s
      → (size ≡ 0) ⊎ (s.ctx.block_size < size) ⊎ (free ≡ [])
      → Allocated s free live size p s'
  taken :
      (k : ℕ) {ks : List ℕ}
      → free ≡ k ∷ ks
      → p ≡ slot s.ctx k
      → 0 < size
      → size ≤ s.ctx.block_size
      → s' ≡ record s { ctx = record (s.ctx) { free_list = s.mem.word s.ctx.free_list } }
      → IsValid s' ks (k ∷ live)
      → Allocated s free live size p s'

-- The first occurrence of `k` taken out.
unfoldable pub remove : ℕ → List ℕ → List ℕ
remove k [] = []
remove k (j ∷ js) = if k == j then js else j ∷ remove k js

count-remove :
    (j k : ℕ) (ks : List ℕ)
    → 0 < count k ks
    → count j ks ≡ (if j == k then 1 else 0) + count j (remove k ks)
unfolding remove
count-remove j k [] h = absurd (omega arith)
count-remove j k (i ∷ is) h = ground (arith, count-remove j k is)

module _ {s : State} {free live : List ℕ} (v : IsValid s free live) where
  -- A block that is free or handed out is one of the pool's.
  in_pool : (k : ℕ) → 0 < count k free + count k live → k < s.ctx.total_blocks
  in_pool k h = ground (arith, v.once k)

  take-IsValid :
      (k : ℕ) {ks : List ℕ}
      → free ≡ k ∷ ks
      → Chain s.ctx s.mem.word (s.mem.word s.ctx.free_list) ks
      → IsValid
          (record s { ctx = record (s.ctx) { free_list = s.mem.word s.ctx.free_list } })
          ks
          (k ∷ live)
  take-IsValid k {ks} e rest = record {
    ne_null = v.ne_null;
    node_fits = v.node_fits;
    aligned = v.aligned;
    fits = v.fits;
    chain = Chain-context _ _ _ refl refl rest;
    once = λ j. omega (arith, v.once j, ap (count j) e);
  }

  in_buffer-slot : (k : ℕ) → k < s.ctx.total_blocks → in_buffer s.ctx (slot s.ctx k) ≡ true
  unfolding in_buffer
  in_buffer-slot k h =
      let total : add64 s.ctx.buffer (mul64 s.ctx.block_size s.ctx.total_blocks)
          ≡ s.ctx.buffer + s.ctx.total_blocks * s.ctx.block_size =
        omega (arith, v.fits) in
      rw total (ground (arith, slot-le s.ctx k h, v.node_fits))

  -- `pool_alloc_fn` returns NULL and changes nothing for size 0, for a size above the block size
  -- and when no block is free; otherwise it hands out the first block of the free list.
  pub pool_alloc_lem : (size : ℕ) → Returns (Allocated s free live size) (pool_alloc_fn size s)
  unfolding pool_alloc_fn
  pool_alloc_lem size = elim (Bool-cases (size == 0)) [
    | inl zero_size ↦ rw zero_size (refused refl refl (inl ((==_iff _ _).0 zero_size)))
    | inr some_size ↦ elim (Bool-cases (ltb s.ctx.block_size size)) [
      | inl large ↦ rw (some_size, large) (refused refl refl (inr (inl (ltb→lt _ _ large))))
      | inr fits ↦ elim (Chain-head v.chain) [
        | inl (at_end, none_free) ↦
            let e : (s.ctx.free_list == null) ≡ true = ground arith in
            rw (some_size, fits, e) (refused refl refl (inr (inr none_free)))
        | inr (k, ks, e, at, rest) ↦
            let ne : (s.ctx.free_list == null) ≡ false = ground (arith, v.ne_null) in
            rw (some_size, fits, ne)
              (taken k e at (ground (arith, some_size)) (ltb→le _ _ fits) refl
                (take-IsValid k e rest))
      ]
    ]
  ]

  -- `pool_free_fn` of a block that was handed out passes its assertion and puts the block at the
  -- head of the free list.
  pub pool_free_lem :
      (k size : ℕ)
      → 0 < count k live
      → Returns (λ _ s'. IsValid s' (k ∷ free) (remove k live)) (pool_free_fn (slot s.ctx k) size s)
  unfolding pool_free_fn
  pool_free_lem k size h =
      let ne : (slot s.ctx k == null) ≡ false = ground (arith, v.ne_null) in
      let inside = in_buffer-slot k (in_pool k (omega arith)) in
      let unused : count k free ≡ 0 = ground (arith, v.once k) in
      rw (ne, inside)
        (record {
          ne_null = v.ne_null;
          node_fits = v.node_fits;
          aligned = v.aligned;
          fits = v.fits;
          chain = link k refl (
              rw (==_refl (slot s.ctx k)) (
                Chain-context _ _ _ refl refl (
                  Chain-update s.ctx s.mem.word k s.ctx.free_list (omega (arith, v.node_fits))
                    v.chain unused)));
          once = λ j. omega (arith, v.once j, count-remove j k live h);
        })

  -- `pool_realloc_fn` of a block that was handed out passes its assertion, changes nothing, and
  -- returns the same block exactly when the new size fits a block, else NULL.
  pool_realloc_lem :
      (k old_size new_size : ℕ)
      → 0 < count k live
      → pool_realloc_fn (slot s.ctx k) old_size new_size s
        ≡ some ((if leb new_size s.ctx.block_size then slot s.ctx k else null), s)
  unfolding pool_realloc_fn
  pool_realloc_lem k old_size new_size h =
      let ne : (slot s.ctx k == null) ≡ false = ground (arith, v.ne_null) in
      rw (ne, in_buffer-slot k (in_pool k (omega arith))) (ground arith)

  -- `pool_contains_fn` is exact: yes for the addresses of the pool's buffer, no for all others.
  pool_contains_iff :
      (ptr : Ptr)
      → (pool_contains_fn ptr s ≡ some (contains_yes, s))
        ↔ InRange s.ctx.buffer (s.ctx.total_blocks * s.ctx.block_size) ptr
  unfolding pool_contains_fn in_buffer
  pool_contains_iff ptr =
      let total : add64 s.ctx.buffer (mul64 s.ctx.block_size s.ctx.total_blocks)
          ≡ s.ctx.buffer + s.ctx.total_blocks * s.ctx.block_size =
        omega (arith, v.fits) in
      rw total (λ h. ground arith, λ h. ground arith)

-- The block from `p` lies in the pool's buffer and shares no address with block `j`.
abbrev pub Fresh : State → (j : ℕ) → Ptr → Type 0
Fresh s j p =
    Apart p s.ctx.block_size (slot s.ctx j) s.ctx.block_size
    × (s.ctx.buffer ≤ p)
    × (p + s.ctx.block_size ≤ s.ctx.buffer + s.ctx.total_blocks * s.ctx.block_size)
