-- ===== src/Gen/Tiers.antt =====
-- The three tiers of the general allocator: allocation, release and reallocation agree on them.
use liballo.Base.{
  ℕ, ◌≤◌, ◌<◌, ◌≡◌, ◌≢◌, inl, inr, Bool, true, false, not, ◌&&◌, arith, ltb, leb, ◌==◌,
  if◌then◌else◌, Bool-cases, leb→le, get_or,
}
use liballo.Base.Cmd.{Cmd, pure, ◌>>=◌, ◌>>◌, Slot, zoom}
use liballo.Mem.{Ptr, null, Memory, MemOps, allo_memcpy}
use liballo.Allo.{Allo, allo_alloc, allo_free, allo_realloc}
use liballo.Gen.{
  small_obj_limit, medium_obj_limit, pool_sizes, get_pool_index, GenState, gen_alloc_fn,
  gen_free_fn, manual_move, gen_realloc_fn,
}
use liballo.Gen.Index.{get_pool_index_lem}

pub data Tier : Type 0 where
  pool : ℕ → Tier
  medium large : Tier

unfoldable pub tier : ℕ → Tier
tier size =
    if leb size small_obj_limit
    then pool (get_pool_index size)
    else if leb size medium_obj_limit
    then medium
    else large

unfoldable pub same_tier : Tier → Tier → Bool
same_tier (pool i) (pool j) = i == j
same_tier (pool i) medium = false
same_tier (pool i) large = false
same_tier medium (pool j) = false
same_tier medium medium = true
same_tier medium large = false
same_tier large (pool j) = false
same_tier large medium = false
same_tier large large = true

-- What an allocator is asked for: a pool, only for sizes that its blocks hold.
unfoldable pub Serves : Tier → ℕ → Type 0
Serves (pool i) size = (i < 8) × (size ≤ get_or pool_sizes i 0)
Serves medium size = (2048 < size) × (size ≤ 1048576)
Serves large size = 1048576 < size

-- How the four comparisons with the two limits come out together, and the tier.
record Tests (n : ℕ) (small medium : Bool) (t : Tier) : Type 0 where
  le_small : leb n small_obj_limit ≡ small
  gt_small : ltb small_obj_limit n ≡ not small
  le_medium : leb n medium_obj_limit ≡ medium
  gt_medium : ltb medium_obj_limit n ≡ not medium
  in_tier : tier n ≡ t

data SizeCase (n : ℕ) : Type 0 where
  is_small : Tests n true true (pool (get_pool_index n)) → SizeCase n
  is_medium : Tests n false true medium → SizeCase n
  is_large : Tests n false false large → SizeCase n

size_case : (n : ℕ) → SizeCase n
size_case n =
    unfold tier in
    elim (Bool-cases (leb n small_obj_limit)) [
      | inl a ↦ is_small (ground (arith, a))
      | inr a ↦ elim (Bool-cases (leb n medium_obj_limit)) [
        | inl b ↦ is_medium (ground (arith, a, b))
        | inr b ↦ is_large (ground (arith, a, b))
      ]
    ]

tier-Serves : (size : ℕ) → size ≢ 0 → Serves (tier size) size
unfolding Serves
tier-Serves size h = elim (size_case size) [
  | is_small a ↦
      rw a.in_tier (
        let fits = get_pool_index_lem size (omega arith) (leb→le _ _ a.le_small) in
        (fits.0, fits.1))
  | is_medium a ↦ rw a.in_tier (ground (arith, a))
  | is_large a ↦ rw a.in_tier (ground (arith, a))
]

-- The tests of `gen_realloc_fn`, when both sizes are known to their tier.
resolve :
    {A : Type 0} {m n : ℕ} {sm mm sn mn : Bool} {t u : Tier}
    → Tests m sm mm t
    → Tests n sn mn u
    → (in_pool in_buddy in_page move : A)
    → (if leb m small_obj_limit && leb n small_obj_limit
        then in_pool
        else if ltb small_obj_limit m
            && leb m medium_obj_limit
            && ltb small_obj_limit n
            && leb n medium_obj_limit
        then in_buddy
        else if ltb medium_obj_limit m && ltb medium_obj_limit n
        then in_page
        else move)
      ≡ (if sm && sn
          then in_pool
          else if not sm && mm && not sn && mn
          then in_buddy
          else if not mm && not mn
          then in_page
          else move)
resolve a b in_pool in_buddy in_page move = rw (
  a.le_small, a.gt_small, a.le_medium, a.gt_medium, b.le_small, b.gt_small, b.le_medium,
  b.gt_medium,
)

module _ {W : Type 0} (s : GenState W) where
  unfoldable pub allocator_of : Tier → Allo W
  allocator_of (pool i) = s.pools i
  allocator_of medium = s.buddy
  allocator_of large = s.page

  gen_alloc_tier :
      (size : ℕ) → size ≢ 0 → gen_alloc_fn s size ≡ allo_alloc (allocator_of (tier size)) size
  unfolding gen_alloc_fn tier allocator_of
  gen_alloc_tier size h =
      let ne : (size == 0) ≡ false = ground arith in
      elim (Bool-cases (leb size small_obj_limit)) [
        | inl a ↦ rw (ne, a)
        | inr a ↦ elim (Bool-cases (leb size medium_obj_limit)) [
          | inl b ↦ rw (ne, a, b)
          | inr b ↦ rw (ne, a, b)
        ]
      ]

  gen_free_tier :
      (ptr size : ℕ)
      → ptr ≢ null
      → gen_free_fn s ptr size ≡ allo_free (allocator_of (tier size)) ptr size
  unfolding gen_free_fn tier allocator_of
  gen_free_tier ptr size h =
      let ne : (ptr == null) ≡ false = ground arith in
      elim (Bool-cases (leb size small_obj_limit)) [
        | inl a ↦ rw (ne, a)
        | inr a ↦ elim (Bool-cases (leb size medium_obj_limit)) [
          | inl b ↦ rw (ne, a, b)
          | inr b ↦ rw (ne, a, b)
        ]
      ]

  -- The size decides which allocator serves a request, and a release with the size of the request
  -- goes to that same allocator, which is one that serves sizes like it: the blocks of a pool hold
  -- what the pool is asked for.
  pub gen_alloc-gen_free_tier :
      (ptr size : ℕ)
      → ptr ≢ null
      → size ≢ 0
      → (gen_alloc_fn s size ≡ allo_alloc (allocator_of (tier size)) size)
        × (gen_free_fn s ptr size ≡ allo_free (allocator_of (tier size)) ptr size)
        × Serves (tier size) size
  gen_alloc-gen_free_tier ptr size hp hs =
      (gen_alloc_tier size hs, gen_free_tier ptr size hp, tier-Serves size hs)

  module _ (ops : MemOps) (memory : Slot W Memory) where
    -- A move from one tier to another.
    unfoldable pub move_tier : Ptr → (old_size new_size : ℕ) → Cmd W Ptr
    move_tier ptr old_size new_size = do
      new_ptr ← allo_alloc (allocator_of (tier new_size)) new_size
      if new_ptr == null then pure null else (do
        zoom memory
            (allo_memcpy ops new_ptr ptr (if ltb old_size new_size then old_size else new_size))
        allo_free (allocator_of (tier old_size)) ptr old_size
        pure new_ptr)

    manual_move_tier :
        (ptr old_size new_size : ℕ)
        → ptr ≢ null
        → new_size ≢ 0
        → manual_move s ops memory ptr old_size new_size ≡ move_tier ptr old_size new_size
    unfolding manual_move move_tier
    manual_move_tier ptr old_size new_size hp hn =
        rw (gen_alloc_tier new_size hn, gen_free_tier ptr old_size hp)

    -- `gen_realloc_fn` of a block, to a size other than 0, stays with the allocator of the old size
    -- when the new size has the same one, and moves the bytes to the allocator of the new size
    -- otherwise: the nested tests of the code decide exactly whether the two tiers are the same.
    pub gen_realloc_tier :
        (ptr old_size new_size : ℕ)
        → ptr ≢ null
        → new_size ≢ 0
        → gen_realloc_fn s ops memory ptr old_size new_size ≡ (
            if same_tier (tier old_size) (tier new_size)
            then allo_realloc (allocator_of (tier old_size)) ptr old_size new_size
            else move_tier ptr old_size new_size)
    unfolding gen_realloc_fn same_tier allocator_of
    gen_realloc_tier ptr old_size new_size hp hn =
        let ne : (ptr == null) ≡ false = ground arith in
        let ne' : (new_size == 0) ≡ false = ground arith in
        let move = manual_move_tier ptr old_size new_size hp hn in
        rw (ne, ne')
          (elim (size_case old_size) [
            | is_small a ↦ elim (size_case new_size) [
              | is_small b ↦ rw (resolve a b, a.in_tier, b.in_tier) (rw move)
              | is_medium b ↦ rw (resolve a b, move, a.in_tier, b.in_tier)
              | is_large b ↦ rw (resolve a b, move, a.in_tier, b.in_tier)
            ]
            | is_medium a ↦ elim (size_case new_size) [
              | is_small b ↦ rw (resolve a b, move, a.in_tier, b.in_tier)
              | is_medium b ↦ rw (resolve a b, a.in_tier, b.in_tier)
              | is_large b ↦ rw (resolve a b, move, a.in_tier, b.in_tier)
            ]
            | is_large a ↦ elim (size_case new_size) [
              | is_small b ↦ rw (resolve a b, move, a.in_tier, b.in_tier)
              | is_medium b ↦ rw (resolve a b, move, a.in_tier, b.in_tier)
              | is_large b ↦ rw (resolve a b, a.in_tier, b.in_tier)
            ]
          ])
