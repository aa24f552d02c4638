-- ===== src/Gen/Tests.antt =====
-- The general allocator over three stand-ins, and its theorems at concrete sizes.
use liballo.Base.{ℕ, ◌+◌, ◌≡◌, refl, some, none, arith, if◌then◌else◌}
use liballo.Base.Cmd.{Slot}
use liballo.Mem.{Memory, null}
use liballo.Mem.Copy.{freestanding}
use liballo.Allo.{Allo, allo_alloc, allo_free, allo_realloc}
use liballo.Gen.{
  GenState, pool_index_table, get_pool_index, gen_alloc_fn, gen_free_fn, gen_realloc_fn,
}
use liballo.Gen.Tiers.{
  tier, Serves, allocator_of, same_tier, move_tier, gen_alloc-gen_free_tier, gen_realloc_tier,
}

abbrev whole : Slot Memory Memory
whole = record {
  get = λ m. m;
  put = λ m w. m;
  get-put = λ m w. refl;
  put-get = λ w. refl;
  put-put = λ m n w. refl;
}

-- An allocator that always answers with one address.
abbrev at : ℕ → Allo Memory
at p = record {
  alloc = λ n m. some (p, m);
  realloc = λ q old new m. some (null, m);
  free_mem = λ q n m. some (tt, m);
  destroy = none;
  contains = none;
}

abbrev tiers : GenState Memory
tiers = record { page = at 65536; buddy = at 32768; pools = λ i. at (4096 + i) }

abbrev blank : Memory
blank = record { byte = λ p. 0; word = λ p. 0 }

by_size :
    (gen_alloc_fn tiers 17 blank ≡ some (4097, blank))
    × (gen_alloc_fn tiers 2048 blank ≡ some (4103, blank))
    × (gen_alloc_fn tiers 2049 blank ≡ some (32768, blank))
    × (gen_alloc_fn tiers 2000000 blank ≡ some (65536, blank))
unfolding gen_alloc_fn get_pool_index pool_index_table
by_size = (refl, refl, refl, refl)

gen_alloc-gen_free_tier_example :
    (gen_alloc_fn tiers 100 ≡ allo_alloc (allocator_of tiers (tier 100)) 100)
    × (gen_free_fn tiers 4099 100 ≡ allo_free (allocator_of tiers (tier 100)) 4099 100)
    × Serves (tier 100) 100
gen_alloc-gen_free_tier_example = gen_alloc-gen_free_tier tiers 4099 100 (omega arith) (omega arith)

gen_realloc_tier_example : gen_realloc_fn tiers freestanding whole 4099 100 5000 ≡ (
    if same_tier (tier 100) (tier 5000)
    then allo_realloc (allocator_of tiers (tier 100)) 4099 100 5000
    else move_tier tiers freestanding whole 4099 100 5000)
gen_realloc_tier_example =
    gen_realloc_tier tiers freestanding whole 4099 100 5000 (omega arith) (omega arith)
