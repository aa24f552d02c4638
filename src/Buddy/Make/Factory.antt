-- ===== src/Buddy/Make/Factory.antt =====
-- `make_buddy_allocator` step by step, over a child that lends it blocks.
use liballo.Base.{
  ℕ, ◌+◌, ◌^◌, ◌<◌, ◌≡◌, refl, sym, ap, ◌∙◌, ◌≢◌, inl, inr, Bool, true, false, List, arith, ◌==◌,
  Bool-cases, subst, mul64,
}
use liballo.Base.Cmd.{Slot, Returns, Returns-bind}
use liballo.Mem.{Ptr, null, MemOps}
use liballo.Blocks.{Block, here}
use liballo.Allo.{Allo, allo_free}
use liballo.Buddy.{State, BuddyContext}
use liballo.Buddy.Make.{
  free_lists_count, bit_bytes, block_orders_len, calloc, make_block_orders, make_bitset,
  make_free_lists, make_buffer, prepare,
}
use liballo.Buddy.Make.Lease.{Lends, with_buffer, with_lists, with_bits, on_loan, AllThere}
use liballo.Buddy.Make.Undo.{Asking, Answer, calloc_lem, undo_buffer, undo_lists, finish_lem}

module _ {W : Type 0} (Lent : List Block → W → Type 0) (self : Slot W State) (ops : MemOps)
    (child : Allo W) (lends : Lends Lent self child) where
  -- The world after the factory writes to its context.
  abbrev after : (BuddyContext → BuddyContext) → W → W
  after g w = self.put (record (self.get w) { ctx = g (self.get w).ctx }) w

  ctx_after :
      (g : BuddyContext → BuddyContext) (c : BuddyContext) (w : W)
      → (self.get w).ctx ≡ c
      → (self.get (after g w)).ctx ≡ g c
  ctx_after g c w e = ap (λ s. s.ctx) (self.get-put _ w) ∙ ap g e

  -- The three arrays, from the last one to the first.
  block_orders_step :
      (size : ℕ) (bs : List Block) (w : W)
      → Asking size (self.get w).ctx
      → (self.get w).ctx.free_lists ≢ null
      → (self.get w).ctx.bitset ≢ null
      → Lent (with_bits (self.get w).ctx bs) w
      → Returns (Answer Lent self ops child lends size bs) (make_block_orders self ops child w)
  unfolding make_block_orders block_orders_len bit_bytes free_lists_count
  block_orders_step size bs w a ne_lists ne_bits l =
      let c = (self.get w).ctx in
      let one : mul64 (block_orders_len c) 1 ≡ block_orders_len c =
        omega (arith, a.min, a.fits, a.total_size) in
      Returns-bind _ _ (calloc self ops child (block_orders_len c) 1) _ w
        (calloc_lem Lent self ops child lends (block_orders_len c) 1 (with_bits c bs) w l)
        (λ p w₁ (same, r). elim r [
          | inl (e, l') ↦ rw e (
              Returns-bind (λ _ w'. Lent (with_lists c bs) w') _
                (allo_free child c.bitset (bit_bytes c)) _ _
                (lends.release _ (with_lists c bs) c.bitset _ _ (lends.apart _ _ w₁ l') here)
                (λ _ w' l''. undo_lists Lent self ops child lends size c bs w' l''))
          | inr (ne, l') ↦
              let some_p : (p == null) ≡ false = ground (arith, ne) in
              let g : BuddyContext → BuddyContext =
                λ c. record c { block_orders = p; orders = λ i. 0 } in
              let now = ctx_after g c w₁ same in
              rw some_p (
                finish_lem Lent self ops child lends size bs (after g w₁)
                  (subst (Asking size) (sym now) (record {
                    ne_null = a.ne_null;
                    total_size = a.total_size;
                    max_order = a.max_order;
                    min = a.min;
                    fits = a.fits;
                    heads = a.heads;
                    bits = a.bits;
                  }))
                  (subst AllThere (sym now) (record {
                    buffer = a.ne_null;
                    free_lists = ne_lists;
                    bitset = ne_bits;
                    block_orders = ne;
                  }))
                  (subst (λ x. Lent (on_loan x bs) (after g w₁)) (sym now)
                    (lends.apart _ _ w₁ (rw one at l'))))
        ])

  bitset_step :
      (size : ℕ) (bs : List Block) (w : W)
      → Asking size (self.get w).ctx
      → (self.get w).ctx.free_lists ≢ null
      → Lent (with_lists (self.get w).ctx bs) w
      → Returns (Answer Lent self ops child lends size bs) (make_bitset self ops child w)
  unfolding make_bitset bit_bytes free_lists_count
  bitset_step size bs w a ne_lists l =
      let c = (self.get w).ctx in
      let one : mul64 (bit_bytes c) 1 ≡ bit_bytes c = omega arith in
      Returns-bind _ _ (calloc self ops child (bit_bytes c) 1) _ w
        (calloc_lem Lent self ops child lends (bit_bytes c) 1 (with_lists c bs) w l)
        (λ p w₁ (same, r). elim r [
          | inl (e, l') ↦
              rw e (undo_lists Lent self ops child lends size c bs _ (lends.apart _ _ w₁ l'))
          | inr (ne, l') ↦
              let some_p : (p == null) ≡ false = ground (arith, ne) in
              let g : BuddyContext → BuddyContext = λ c. record c { bitset = p; bits = λ i. 0 } in
              let now = ctx_after g c w₁ same in
              rw some_p (
                block_orders_step size bs (after g w₁)
                  (subst (Asking size) (sym now) (record {
                    ne_null = a.ne_null;
                    total_size = a.total_size;
                    max_order = a.max_order;
                    min = a.min;
                    fits = a.fits;
                    heads = a.heads;
                    bits = λ i. refl;
                  }))
                  (subst (λ x. x.free_lists ≢ null) (sym now) ne_lists)
                  (subst (λ x. x.bitset ≢ null) (sym now) ne)
                  (subst (λ x. Lent (with_bits x bs) (after g w₁)) (sym now)
                    (lends.apart _ _ w₁ (rw one at l'))))
        ])

  free_lists_step :
      (size : ℕ) (bs : List Block) (w : W)
      → Asking size (self.get w).ctx
      → Lent (with_buffer (self.get w).ctx bs) w
      → Returns (Answer Lent self ops child lends size bs) (make_free_lists self ops child w)
  unfolding make_free_lists free_lists_count
  free_lists_step size bs w a l =
      let c = (self.get w).ctx in
      Returns-bind _ _ (calloc self ops child (free_lists_count c) 8) _ w
        (calloc_lem Lent self ops child lends (free_lists_count c) 8 (with_buffer c bs) w l)
        (λ p w₁ (same, r). elim r [
          | inl (e, l') ↦
              rw e (undo_buffer Lent self ops child lends size c bs _ (lends.apart _ _ w₁ l'))
          | inr (ne, l') ↦
              let some_p : (p == null) ≡ false = ground (arith, ne) in
              let g : BuddyContext → BuddyContext =
                λ c. record c { free_lists = p; heads = λ level. null } in
              let now = ctx_after g c w₁ same in
              rw some_p (
                bitset_step size bs (after g w₁)
                  (subst (Asking size) (sym now) (record {
                    ne_null = a.ne_null;
                    total_size = a.total_size;
                    max_order = a.max_order;
                    min = a.min;
                    fits = a.fits;
                    heads = λ level. refl;
                    bits = a.bits;
                  }))
                  (subst (λ x. x.free_lists ≢ null) (sym now) ne)
                  (subst (λ x. Lent (with_lists x bs) (after g w₁)) (sym now)
                    (lends.apart _ _ w₁ l')))
        ])

  -- The buffer, and what follows it.
  with_start :
      (size : ℕ) (bs : List Block) (own : Bool) (p : Ptr) (w : W)
      → (self.get w).ctx ≡ prepare size own
      → p ≢ null
      → p + size < 2 ^ 64
      → Lent (with_buffer (record (prepare size own) { buffer = p }) bs) w
      → Returns
          (Answer Lent self ops child lends size bs)
          (make_free_lists self ops child (after (λ c. record c { buffer = p }) w))
  unfolding prepare
  with_start size bs own p w same ne fits l =
      let g : BuddyContext → BuddyContext = λ c. record c { buffer = p } in
      let now = ctx_after g (prepare size own) w same in
      free_lists_step size bs (after g w)
        (subst (Asking size) (sym now) (record {
          ne_null = ne;
          total_size = refl;
          max_order = refl;
          min = refl;
          fits = fits;
          heads = λ level. refl;
          bits = λ i. refl;
        }))
        (subst (λ x. Lent (with_buffer x bs) (after g w)) (sym now) (lends.apart _ _ w l))

  pub buffer_step :
      (size : ℕ) (bs : List Block) (buffer : Ptr) (w : W)
      → Lent bs w
      → size < 2 ^ 64
      → (buffer ≢ null → buffer + size < 2 ^ 64)
      → Returns
          (Answer Lent self ops child lends size bs)
          (make_buffer self ops child buffer size w)
  unfolding make_buffer prepare
  buffer_step size bs buffer w l small fits =
      let w₀ = after (λ c. prepare size (buffer == null)) w in
      let l₀ : Lent bs w₀ = lends.apart _ _ w l in
      let now : (self.get w₀).ctx ≡ prepare size (buffer == null) =
        ap (λ s. s.ctx) (self.get-put _ w) in
      elim (Bool-cases (buffer == null)) [
        | inl own ↦ rw own (
            Returns-bind _ _ (child.alloc size) _ _ (lends.alloc size bs _ small (rw own at l₀))
              (λ p w₁ (same, r). elim r [
                | inl (e, l') ↦ rw e (inl (refl, lends.apart _ _ w₁ l'))
                | inr (ne, h, l') ↦
                    let some_p : (p == null) ≡ false = ground (arith, ne) in
                    rw some_p (with_start size bs true p w₁ (same ∙ rw own at now) ne h l')
              ]))
        | inr given ↦
            rw (given, given)
              (with_start size bs false buffer _ (rw given at now) (ground (arith, given))
                (fits (ground (arith, given))) (rw given at l₀))
      ]
