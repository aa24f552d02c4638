-- ===== src/Gen.antt =====
-- src/allo_gen.c: requests go to eight pools, a buddy allocator or the page allocator, by size.
pub mod Index
pub mod Tiers
pub mod Make
mod Tests
use liballo.Base.{
  ℕ, zero, suc, ◌+◌, ◌-◌, ◌*◌, ◌/◌, ◌^◌, List, [], ◌∷◌, Bool, none, some, not, ◌&&◌, ltb, leb, ◌==◌,
  if◌then◌else◌, get_or,
}
use liballo.Base.Cmd.{Cmd, pure, ◌>>=◌, ◌>>◌, Slot, zoom}
use liballo.Mem.{Ptr, null, Memory, MemOps, allo_memcpy}
use liballo.Allo.{
  Contains, contains_no, contains_yes, contains_unknown, Allo, allo_alloc, allo_free, allo_realloc,
  allo_destroy, allo_contains,
}

abbrev pub pool_count : ℕ
pool_count = 8

abbrev pub small_obj_limit : ℕ
small_obj_limit = 2048

abbrev pub medium_obj_limit : ℕ
medium_obj_limit = 1024 * 1024

abbrev pub pool_sizes : List ℕ
pool_sizes = 16 ∷ 32 ∷ 64 ∷ 128 ∷ 256 ∷ 512 ∷ 1024 ∷ 2048 ∷ []

abbrev pub pool_blocks : List ℕ
pool_blocks = 4096 ∷ 2048 ∷ 1024 ∷ 512 ∷ 256 ∷ 128 ∷ 64 ∷ 32 ∷ []

-- The rows of the table, from the value and how often it stands there.
abbrev pub row : (value times : ℕ) → List ℕ → List ℕ
row value zero rest = rest
row value (suc n) rest = value ∷ row value n rest

pub pool_index_table : List ℕ
pool_index_table =
    row 0 1 (row 1 1 (row 2 2 (row 3 4 (row 4 8 (row 5 16 (row 6 32 (row 7 64 [])))))))

pub get_pool_index : ℕ → ℕ
get_pool_index size =
    if size == 0
    then 0
    else let idx = (size - 1) / 2 ^ 4 in if ltb 127 idx then 7 else get_or pool_index_table idx 0

-- `gen_state_t`
pub record GenState (W : Type 0) : Type 0 where
  pub page : Allo W
  pub buddy : Allo W
  pub pools : ℕ → Allo W

module _ {W : Type 0} (s : GenState W) where
  pub gen_alloc_fn : ℕ → Cmd W Ptr
  gen_alloc_fn size =
      if size == 0
      then pure null
      else if leb size small_obj_limit
      then allo_alloc (s.pools (get_pool_index size)) size
      else if leb size medium_obj_limit
      then allo_alloc s.buddy size
      else allo_alloc s.page size

  pub gen_free_fn : Ptr → ℕ → Cmd W (Unit {0})
  gen_free_fn ptr size =
      if ptr == null
      then pure tt
      else if leb size small_obj_limit
      then allo_free (s.pools (get_pool_index size)) ptr size
      else if leb size medium_obj_limit
      then allo_free s.buddy ptr size
      else allo_free s.page ptr size

  module _ (ops : MemOps) (memory : Slot W Memory) where
    -- Crossing tiers or moving between pools.
    pub manual_move : Ptr → (old_size new_size : ℕ) → Cmd W Ptr
    manual_move ptr old_size new_size = do
      new_ptr ← gen_alloc_fn new_size
      if new_ptr == null then pure null else (do
        zoom memory
            (allo_memcpy ops new_ptr ptr (if ltb old_size new_size then old_size else new_size))
        gen_free_fn ptr old_size
        pure new_ptr)

    pub gen_realloc_fn : Ptr → (old_size new_size : ℕ) → Cmd W Ptr
    gen_realloc_fn ptr old_size new_size =
        if ptr == null
        then gen_alloc_fn new_size
        else if new_size == 0
        then (do gen_free_fn ptr old_size; pure null)
        else if leb old_size small_obj_limit && leb new_size small_obj_limit
        then (if get_pool_index old_size == get_pool_index new_size
            then allo_realloc (s.pools (get_pool_index old_size)) ptr old_size new_size
            else manual_move ptr old_size new_size)
        else if ltb small_obj_limit old_size
            && leb old_size medium_obj_limit
            && ltb small_obj_limit new_size
            && leb new_size medium_obj_limit
        then allo_realloc s.buddy ptr old_size new_size
        else if ltb medium_obj_limit old_size && ltb medium_obj_limit new_size
        then allo_realloc s.page ptr old_size new_size
        else manual_move ptr old_size new_size

  -- The loop over `pools[i]`, with the rounds that are left.
  destroy_pools : (rounds i : ℕ) → Cmd W (Unit {0})
  destroy_pools zero i = pure tt
  destroy_pools (suc n) i = do allo_destroy (s.pools i); destroy_pools n (i + 1)

  pub gen_destroy_fn : Cmd W (Unit {0})
  unfolding destroy_pools
  gen_destroy_fn = do destroy_pools pool_count 0; allo_destroy s.buddy; allo_destroy s.page

  -- `if (allo_contains(…) == ALLO_CONTAINS_YES) return ALLO_CONTAINS_YES;`, else the rest.
  yes_or : Cmd W Contains → Cmd W Contains → Cmd W Contains
  yes_or test rest = do
    answer ← test
    elim answer [ contains_yes ↦ pure contains_yes | contains_no ↦ rest | contains_unknown ↦ rest ]

  contains_pools : (rounds i : ℕ) → Ptr → Cmd W Contains → Cmd W Contains
  unfolding yes_or
  contains_pools zero i ptr rest = rest
  contains_pools (suc n) i ptr rest =
      yes_or (allo_contains (s.pools i) ptr) (contains_pools n (i + 1) ptr rest)

  pub gen_contains_fn : Ptr → Cmd W Contains
  unfolding contains_pools
  gen_contains_fn ptr =
      contains_pools pool_count 0 ptr
        (yes_or (allo_contains s.buddy ptr) (yes_or (allo_contains s.page ptr) (pure contains_no)))
