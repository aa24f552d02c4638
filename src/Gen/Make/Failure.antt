-- ===== src/Gen/Make/Failure.antt =====
-- The failures of the factory of src/allo_gen.c after its state is there.
use liballo.Base.{
  ℕ, suc, ◌+◌, ◌*◌, ◌≡◌, refl, ◌∙◌, ◌≢◌, inl, inr, false, none, some, arith, ◌==◌, add64, get_or,
  Option-cases,
}
use liballo.Base.Cmd.{Cmd, ◌>>=◌, ◌>>◌, bind_at}
use liballo.Mem.{Ptr, null}
use liballo.Allo.{Error, Allo, allo_alloc, allo_destroy}
use liballo.Pool.{make_pool_allocator}
use liballo.Buddy.Make.{make_buddy_allocator}
use liballo.Gen.{pool_sizes, pool_blocks}
use liballo.Gen.Make.{
  Parts, sizeof_allo, sizeof_state, buddy_total_size, release_state, destroy_made, make_pools,
  make_tiers,
}

-- What ends in any case ends.
bind_none :
    {W A B : Type 0} (m : Cmd W A) (k : A → Cmd W B) (w : W)
    → ((a : A) (w' : W) → k a w' ≡ none)
    → (m >>= k) w ≡ none
bind_none m k w h = elim (Option-cases (m w)) [
  | inl e ↦ rw (e, ◌>>=◌) refl
  | inr ((a, w'), e) ↦ bind_at m k e ∙ h a w'
]

module _ {W : Type 0} (parts : Parts W) (page : Allo W)
    (unmaps : (p n : ℕ) (w w' : W)
      → page.free_mem p n w ≡ some (tt, w')
      → parts.readable w' p ≡ false) where
  release_state_faults : (s : Ptr) (w : W) → release_state parts page s w ≡ none
  unfolding release_state
  release_state_faults s w = elim (Option-cases (page.free_mem s sizeof_state w)) [
    | inl e ↦ rw (e, ◌>>=◌) refl
    | inr ((u, w'), e) ↦ rw (e, ◌>>=◌) (rw (unmaps s sizeof_state w w' e) refl)
  ]

  -- Where the page allocator unmaps what it takes back: when the state is there and the buddy
  -- allocator cannot be made, the factory does not report it. It gives the state back, and then
  -- reads the page allocator out of it.
  pub make_tiers_faults :
      (rounds : ℕ) (s : Ptr) (err : Error) (w w₁ w₂ : W)
      → allo_alloc page sizeof_state w ≡ some (s, w₁)
      → s ≢ null
      → make_buddy_allocator parts.buddy_self parts.ops rounds
          (add64 s sizeof_allo)
          (some page)
          null
          buddy_total_size
          w₁
        ≡ some ((err, none), w₂)
      → make_tiers parts rounds page w ≡ none
  unfolding make_tiers
  make_tiers_faults rounds s err w w₁ w₂ got ne failed =
      let go_on : (s == null) ≡ false = ground arith in
      bind_at (allo_alloc page sizeof_state) _ got
      ∙ rw go_on (
          bind_at
            (make_buddy_allocator parts.buddy_self parts.ops rounds (add64 s sizeof_allo)
              (some page) null buddy_total_size)
            _ failed
          ∙ rw (release_state_faults s w₂, ◌>>=◌) refl)

  cleanup_faults :
      (buddy : Allo W) (s : Ptr) (pools : ℕ → Allo W) (i : ℕ) (w : W)
      → (destroy_made parts pools i 0 >> (allo_destroy buddy >> release_state parts page s)) w
        ≡ none
  cleanup_faults buddy s pools i w =
      bind_none (destroy_made parts pools i 0) _ w
        (λ u w₁. bind_none (allo_destroy buddy) _ w₁ (λ u' w₂. release_state_faults s w₂))

  -- Likewise when the next pool cannot be made.
  make_pools_faults :
      (buddy : Allo W) (s : Ptr) (pools : ℕ → Allo W) (n i : ℕ) (err : Error) (w w₁ : W)
      → make_pool_allocator
          (parts.pool_self i)
          (add64 s ((2 + i) * sizeof_allo))
          (some buddy)
          null
          (get_or pool_sizes i 0)
          (get_or pool_blocks i 0)
          w
        ≡ some ((err, none), w₁)
      → make_pools parts page buddy s pools (suc n) i w ≡ none
  unfolding make_pools
  make_pools_faults buddy s pools n i err w w₁ failed =
      bind_at
        (make_pool_allocator (parts.pool_self i) (add64 s ((2 + i) * sizeof_allo)) (some buddy) null
          (get_or pool_sizes i 0) (get_or pool_blocks i 0))
        _ failed
      ∙ rw (cleanup_faults buddy s pools i w₁, ◌>>=◌) refl
