-- ===== src/Gen/Index.antt =====
-- `get_pool_index` picks the smallest pool whose blocks hold the size.
use liballo.Base.{
  ℕ, zero, suc, ◌+◌, ◌-◌, ◌*◌, ◌/◌, ◌^◌, ◌≤◌, ◌<◌, ◌≡◌, refl, ◌⊎◌, inl, inr, Bool, true, ◌&&◌, ◌||◌,
  arith, ltb, leb, ◌==◌, get_or,
}
use liballo.Gen.{get_pool_index, pool_index_table, pool_sizes}

all_below : ℕ → (ℕ → Bool) → Bool
all_below zero p = true
all_below (suc n) p = p n && all_below n p

all_below_sound : (n : ℕ) (p : ℕ → Bool) (i : ℕ) → all_below n p ≡ true → i < n → p i ≡ true
unfolding all_below
all_below_sound zero p i h lt = absurd (omega arith)
all_below_sound (suc n) p i h lt = ground (arith, all_below_sound n p i)

-- Row `i` of the table, for the sizes from `16 * i + 1` to `16 * i + 16`.
row_fits : ℕ → Bool
row_fits i =
    let t = get_or pool_index_table i 0 in
    ltb t 8
    && leb (16 * i + 16) (get_or pool_sizes t 0)
    && ((t == 0) || leb (get_or pool_sizes (t - 1) 0) (16 * i))

table_fits : all_below 128 row_fits ≡ true
unfolding all_below row_fits pool_index_table
table_fits = refl

fits_lem :
    (t i own before : ℕ)
    → (ltb t 8 && leb (16 * i + 16) own && ((t == 0) || leb before (16 * i))) ≡ true
    → (t < 8) × (16 * i + 16 ≤ own) × ((t ≡ 0) ⊎ (before ≤ 16 * i))
fits_lem t i own before h = ground arith

index_of_row :
    (size : ℕ)
    → 0 < size
    → size ≤ 2048
    → get_pool_index size ≡ get_or pool_index_table ((size - 1) / 2 ^ 4) 0
unfolding get_pool_index
index_of_row size pos small = ground arith

-- For a size from 1 to 2048 the index names one of the eight pools, whose blocks hold the size,
-- while those of the pool before it do not.
pub get_pool_index_lem :
    (size : ℕ)
    → 0 < size
    → size ≤ 2048
    → (get_pool_index size < 8)
      × (size ≤ get_or pool_sizes (get_pool_index size) 0)
      × ((get_pool_index size ≡ 0) ⊎ (get_or pool_sizes (get_pool_index size - 1) 0 < size))
unfolding row_fits
get_pool_index_lem size pos small =
    let i : ℕ = (size - 1) / 2 ^ 4 in
    let t : ℕ = get_or pool_index_table i 0 in
    let (known, fits, least) =
      fits_lem t i (get_or pool_sizes t 0) (get_or pool_sizes (t - 1) 0)
        (all_below_sound 128 row_fits i table_fits (omega arith)) in
    rw (index_of_row size pos small)
      (known, omega (arith, fits), elim least [ inl e ↦ inl e | inr le ↦ inr (omega arith) ])
