-- ===== src/Buddy/Make/Lease.antt =====
-- What the allocator of src/allo_buddy.c has on loan from its child: all of it goes back, from the
-- factory when it fails and from the destruction.
use liballo.Base.{
  ℕ, ◌+◌, ◌^◌, ◌<◌, ◌≡◌, refl, ◌≢◌, ◌⊎◌, inl, inr, Bool, true, false, not, ◌&&◌, List, ◌∷◌, arith,
  ◌==◌, Bool-cases, if◌then◌else◌, subst, mul64,
}
use liballo.Base.Cmd.{Slot, Returns, Returns-bind}
use liballo.Mem.{null, MemOps}
use liballo.Blocks.{Block, block, Removed, here, there}
use liballo.Allo.{Allo}
use liballo.Buddy.{State, BuddyContext}
use liballo.Buddy.Make.{free_lists_count, bit_bytes, block_orders_len, free_if, buddy_destroy_fn}

-- What the allocator expects of a child that lends it blocks: `Lent bs` holds while `bs` are out. A
-- request ends with NULL or with one more block out, within the address space; a release of a block
-- that is out ends and takes it back. Neither touches the allocator's context, and the child does not
-- depend on the allocator's state.
pub record Lends {W : Type 0} (Lent : List Block → W → Type 0) (self : Slot W State)
    (child : Allo W) : Type 0 where
  pub alloc :
      (n : ℕ) (bs : List Block) (w : W)
      → n < 2 ^ 64
      → Lent bs w
      → Returns
          (λ p w'.
            ((self.get w').ctx ≡ (self.get w).ctx)
            × (((p ≡ null) × Lent bs w')
                ⊎ ((p ≢ null) × (p + n < 2 ^ 64) × Lent (block p n ∷ bs) w')))
          (child.alloc n w)
  pub release :
      (bs rest : List Block) (p n : ℕ) (w : W)
      → Lent bs w
      → Removed (block p n) bs rest
      → Returns (λ _ w'. Lent rest w') (child.free_mem p n w)
  pub apart : (s : State) (bs : List Block) (w : W) → Lent bs w → Lent bs (self.put s w)

-- The blocks on loan, from the last one to the first.
abbrev pub with_buffer : BuddyContext → List Block → List Block
with_buffer c bs = if c.own_buffer then block c.buffer c.total_size ∷ bs else bs

abbrev pub with_lists : BuddyContext → List Block → List Block
with_lists c bs = block c.free_lists (mul64 (free_lists_count c) 8) ∷ with_buffer c bs

abbrev pub with_bits : BuddyContext → List Block → List Block
with_bits c bs = block c.bitset (bit_bytes c) ∷ with_lists c bs

abbrev pub on_loan : BuddyContext → List Block → List Block
on_loan c bs = block c.block_orders (block_orders_len c) ∷ with_bits c bs

pub record AllThere (c : BuddyContext) : Type 0 where
  pub buffer : c.buffer ≢ null
  pub free_lists : c.free_lists ≢ null
  pub bitset : c.bitset ≢ null
  pub block_orders : c.block_orders ≢ null

module _ {W : Type 0} (Lent : List Block → W → Type 0) (self : Slot W State) (ops : MemOps)
    (child : Allo W) (lends : Lends Lent self child) where
  pub free_if_lem :
      (test : Bool) (p n : ℕ) (bs rest : List Block) (w : W)
      → Lent bs w
      → (test ≡ true → Removed (block p n) bs rest)
      → (test ≡ false → bs ≡ rest)
      → Returns (λ _ w'. Lent rest w') (free_if self ops child test p n w)
  unfolding free_if
  free_if_lem true p n bs rest w l taken kept = lends.release bs rest p n w l (taken refl)
  free_if_lem false p n bs rest w l taken kept = subst (λ xs. Lent xs w) (kept refl) l

  -- `if (own_buffer && buffer)`, with the buffer the last but `xs` of the blocks on loan.
  release_buffer :
      (c : BuddyContext) (a b d : Block) (bs : List Block) (w : W)
      → c.buffer ≢ null
      → Lent (a ∷ b ∷ d ∷ with_buffer c bs) w
      → Returns
          (λ _ w'. Lent (a ∷ b ∷ d ∷ bs) w')
          (free_if self ops child (c.own_buffer && not (c.buffer == null)) c.buffer c.total_size w)
  release_buffer c a b d bs w ne l = elim (Bool-cases c.own_buffer) [
    | inl own ↦ rw own (
        free_if_lem _ c.buffer c.total_size _ (a ∷ b ∷ d ∷ bs) w (rw own at l)
          (λ t. there (there (there here))) (λ f. ground (arith, f)))
    | inr not_own ↦ rw not_own (
        free_if_lem false c.buffer c.total_size _ (a ∷ b ∷ d ∷ bs) w (rw not_own at l)
          (λ t. absurd (ground (arith, t))) (λ f. refl))
  ]

  -- The destruction of an allocator that has all its memory ends, and everything that it had on loan
  -- from its child is given back, once and with the sizes that were asked for.
  pub buddy_destroy_lem :
      (bs : List Block) (w : W)
      → AllThere (self.get w).ctx
      → Lent (on_loan (self.get w).ctx bs) w
      → Returns (λ _ w'. Lent bs w') (buddy_destroy_fn self ops child w)
  unfolding buddy_destroy_fn
  buddy_destroy_lem bs w all l =
      let c = (self.get w).ctx in
      let orders = block c.block_orders (block_orders_len c) in
      let bits = block c.bitset (bit_bytes c) in
      let lists = block c.free_lists (mul64 (free_lists_count c) 8) in
      let some_lists : not (c.free_lists == null) ≡ true = ground (arith, all.free_lists) in
      let some_bits : not (c.bitset == null) ≡ true = ground (arith, all.bitset) in
      let some_orders : not (c.block_orders == null) ≡ true = ground (arith, all.block_orders) in
      Returns-bind (λ _ w'. Lent (orders ∷ bits ∷ lists ∷ bs) w') _
        (free_if self ops child (c.own_buffer && not (c.buffer == null)) c.buffer c.total_size) _ w
        (release_buffer c orders bits lists bs w all.buffer l)
        (λ _ w₁ l₁.
          Returns-bind (λ _ w'. Lent (orders ∷ bits ∷ bs) w') _
            (free_if self ops child (not (c.free_lists == null)) c.free_lists
              (mul64 (free_lists_count c) 8))
            _ w₁
            (free_if_lem _ c.free_lists _ _ (orders ∷ bits ∷ bs) w₁ l₁ (λ t. there (there here))
              (λ f. ground (arith, some_lists, f)))
            (λ _ w₂ l₂.
              Returns-bind (λ _ w'. Lent (orders ∷ bs) w') _
                (free_if self ops child (not (c.bitset == null)) c.bitset (bit_bytes c)) _ w₂
                (free_if_lem _ c.bitset _ _ (orders ∷ bs) w₂ l₂ (λ t. there here)
                  (λ f. ground (arith, some_bits, f)))
                (λ _ w₃ l₃.
                  free_if_lem (not (c.block_orders == null)) c.block_orders (block_orders_len c) _
                    bs w₃ l₃ (λ t. here) (λ f. ground (arith, some_orders, f)))))
