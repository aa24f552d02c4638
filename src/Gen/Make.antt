-- ===== src/Gen/Make.antt =====
-- The factory of src/allo_gen.c: the page allocator, the state in pages of it, the buddy allocator
-- over it, and eight pools over that one.
pub mod Failure
mod Tests
use liballo.Base.{
  ℕ, zero, suc, ◌+◌, ◌*◌, Bool, Option, none, some, ◌==◌, if◌then◌else◌, add64, get_or,
}
use liballo.Base.Cmd.{Cmd, pure, ◌>>=◌, ◌>>◌, gets, Slot}
use liballo.Mem.{Ptr, null, Memory, MemOps}
use liballo.Allo.{Error, ok, err_nomem, err_inval, Allo, allo_alloc, allo_free, allo_destroy}
use liballo.Page.{Os, PageContext, make_page_allocator}
use liballo.Pool.{make_pool_allocator}
use liballo.Pool
use liballo.Buddy
use liballo.Buddy.Make.{make_buddy_allocator}
use liballo.Gen.{
  GenState, pool_count, pool_sizes, pool_blocks, gen_alloc_fn, gen_realloc_fn, gen_free_fn,
  gen_destroy_fn, gen_contains_fn,
}

abbrev pub buddy_total_size : ℕ
buddy_total_size = 16 * 1024 * 1024

-- `sizeof(allo_t)`: five functions and 128 bytes of state. `gen_state_t` is ten of them.
abbrev pub sizeof_allo : ℕ
sizeof_allo = 168

abbrev pub sizeof_state : ℕ
sizeof_state = 10 * sizeof_allo

-- Where the contexts of the allocators are kept, the memory, and the system: `readable` says whether
-- the program may read at an address, which it may not where pages were unmapped.
pub record Parts (W : Type 0) : Type 0 where
  pub page_self : Slot W PageContext
  pub buddy_self : Slot W Buddy.State
  pub pool_self : ℕ → Slot W Pool.State
  pub memory : Slot W Memory
  pub ops : MemOps
  pub os : Os W
  pub readable : W → Ptr → Bool

abbrev set_pool : {W : Type 0} → (ℕ → Allo W) → ℕ → Allo W → ℕ → Allo W
set_pool pools i a j = if i == j then a else pools j

module _ {W : Type 0} (parts : Parts W) where
  open parts use {page_self, buddy_self, pool_self, memory, ops, os, readable}

  abbrev Made : Type 0
  Made = Error × Option (Allo W)

  abbrev pub gen_allocator : GenState W → Allo W
  gen_allocator s = record {
    alloc = gen_alloc_fn s;
    realloc = gen_realloc_fn s ops memory;
    free_mem = gen_free_fn s;
    destroy = some (gen_destroy_fn s);
    contains = some (gen_contains_fn s);
  }

  -- `if (err != ALLO_OK) { …; return err; }`, else the rest, with the allocator that was made.
  abbrev or_fail : Made → (Allo W → Cmd W Made) → Cmd W (Unit {0}) → Cmd W Made
  or_fail (err, some a) rest cleanup = rest a
  or_fail (err, none) rest cleanup = do cleanup; pure (err, none)

  -- The loop that destroys the pools made so far, with the rounds that are left.
  pub destroy_made : (ℕ → Allo W) → (rounds j : ℕ) → Cmd W (Unit {0})
  destroy_made pools zero j = pure tt
  destroy_made pools (suc n) j = do allo_destroy (pools j); destroy_made pools n (j + 1)

  -- The program is stopped by a signal.
  abbrev fault : {A : Type 0} → Cmd W A
  fault w = none

  -- The end of every failure once the state is there: `allo_free(&s->page, s, …)` and
  -- `allo_destroy(&s->page)`, which reads the page allocator out of the state, its first field.
  pub release_state : Allo W → Ptr → Cmd W (Unit {0})
  release_state page s = do
    allo_free page s sizeof_state
    still_there ← gets λ w. readable w s
    if still_there then allo_destroy page else fault

  -- The loop over the pools, from pool `i` on, with the rounds that are left.
  pub make_pools : (page buddy : Allo W) → Ptr → (ℕ → Allo W) → (rounds i : ℕ) → Cmd W Made
  unfolding destroy_made release_state
  make_pools page buddy s pools zero i =
      pure (ok, some (gen_allocator (record { page = page; buddy = buddy; pools = pools })))
  make_pools page buddy s pools (suc n) i = do
    result ←
        make_pool_allocator (pool_self i) (add64 s ((2 + i) * sizeof_allo)) (some buddy) null
          (get_or pool_sizes i 0) (get_or pool_blocks i 0)
    or_fail result (λ pool. make_pools page buddy s (set_pool pools i pool) n (i + 1))
        (do destroy_made pools i 0; allo_destroy buddy; release_state page s)

  -- `make_gen_allocator` from the page allocator on.
  pub make_tiers : (rounds : ℕ) → Allo W → Cmd W Made
  unfolding make_pools release_state
  make_tiers rounds page = do
    s ← allo_alloc page sizeof_state
    if s == null then (do allo_destroy page; pure (err_nomem, none)) else (do
      result ←
          make_buddy_allocator buddy_self ops rounds (add64 s sizeof_allo) (some page) null
            buddy_total_size
      or_fail result (λ buddy. make_pools page buddy s (λ i. buddy) pool_count 0)
          (release_state page s))

  -- `page_at` is the address of the local variable `page`, and `rounds` bounds the loop of the
  -- buddy allocator's factory.
  pub make_gen_allocator : (rounds : ℕ) → (page_at out : Ptr) → Cmd W Made
  unfolding make_tiers
  make_gen_allocator rounds page_at out = if out == null then pure (err_inval, none) else (do
    result ← make_page_allocator os page_self page_at
    or_fail result (make_tiers rounds) (pure tt))
