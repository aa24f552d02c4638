-- ===== src/Buddy/Make/Undo.antt =====
-- The parts of `make_buddy_allocator`: a request for an array, the cleanup paths, and the last step.
use liballo.Base.{
  ℕ, ◌+◌, ◌-◌, ◌/◌, ◌^◌, ◌<◌, ◌≡◌, refl, sym, ap, ◌∙◌, ◌≢◌, ◌⊎◌, inl, inr, true, false, ◌&&◌, ltb,
  List, [], ◌∷◌, Option, some, none, arith, ◌==◌, Bool-cases, mul64,
}
use liballo.Base.Cmd.{pure, ◌>>=◌, ◌>>◌, Slot, zoom, Returns, Returns-bind}
use liballo.Mem.{null, MemOps}
use liballo.Blocks.{Block, block, here}
use liballo.Allo.{Error, ok, err_nomem, Allo, allo_calloc, allo_free}
use liballo.Mem.Copy.{allo_memset_run}
use liballo.Buddy.{State, BuddyContext, get_order_portable, mark_free, list_push}
use liballo.Buddy.Steps.{with_list, list_push_lem}
use liballo.Buddy.Inv.{IsValid}
use liballo.Buddy.Whole.{nothing}
use liballo.Buddy.Make.{
  free_lists_count, bit_bytes, block_orders_len, free_if, calloc, finish, buddy_allocator,
}
use liballo.Buddy.Make.Start.{IsReady, first_block_lem}
use liballo.Buddy.Make.Lease.{Lends, with_buffer, with_lists, on_loan, AllThere, free_if_lem}

-- The context while the factory asks for memory.
pub record Asking (size : ℕ) (c : BuddyContext) : Type 0 where
  pub ne_null : c.buffer ≢ null
  pub total_size : c.total_size ≡ size
  pub max_order : c.max_order ≡ get_order_portable c.total_size
  pub min : c.min_block_size ≡ 32
  pub fits : c.buffer + size < 2 ^ 64
  pub heads : (l : ℕ) → c.heads l ≡ null
  pub bits : (i : ℕ) → c.bits i ≡ 0

module _ {W : Type 0} (Lent : List Block → W → Type 0) (self : Slot W State) (ops : MemOps)
    (child : Allo W) (lends : Lends Lent self child) where
  pub calloc_lem :
      (nmemb size : ℕ) (bs : List Block) (w : W)
      → Lent bs w
      → Returns
          (λ p w'.
            ((self.get w').ctx ≡ (self.get w).ctx)
            × (((p ≡ null) × Lent bs w')
                ⊎ ((p ≢ null) × Lent (block p (mul64 nmemb size) ∷ bs) w')))
          (calloc self ops child nmemb size w)
  unfolding calloc allo_calloc
  calloc_lem nmemb size bs w l = elim (Bool-cases (ltb 0 size && ltb ((2 ^ 64 - 1) / size) nmemb)) [
    | inl overflow ↦ rw overflow (refl, inl (refl, l))
    | inr small ↦ rw small (
        Returns-bind _ _ (child.alloc (mul64 nmemb size)) _ w
          (lends.alloc (mul64 nmemb size) bs w (omega arith) l)
          (λ p w₁ (same, r). elim r [
            | inl (e, l') ↦ rw e (same, inl (refl, l'))
            | inr (ne, fits, l') ↦
                let some_p : (p == null) ≡ false = ground (arith, ne) in
                rw
                  (
                    some_p,
                    ◌>>=◌,
                    ◌>>◌,
                    zoom,
                    allo_memset_run ops p 0 (mul64 nmemb size) (self.get w₁).mem ne,
                  )
                  (ap (λ s. s.ctx) (self.get-put _ w₁) ∙ same, inr (ne, lends.apart _ _ w₁ l'))
          ]))
  ]

  -- What the factory answers, and what is on loan then, beside the blocks `bs` that were before.
  abbrev pub Answer : ℕ → List Block → Error × Option (Allo W) → W → Type 0
  Answer size bs r w' =
      ((r ≡ (err_nomem, none)) × Lent bs w')
      ⊎ ((r ≡ (ok, some (buddy_allocator self ops child)))
          × ((self.get w').ctx.total_size ≡ size)
          × AllThere (self.get w').ctx
          × Lent (on_loan (self.get w').ctx bs) w'
          × ((depth : ℕ)
              → (self.get w').ctx.total_size ≡ 2 ^ (depth + 5)
              → depth + 5 < 64
              → IsValid (self.get w') depth (with_list (λ l. []) 0 (0 ∷ [])) nothing))

  pub undo_buffer :
      (size : ℕ) (c : BuddyContext) (bs : List Block) (w : W)
      → Lent (with_buffer c bs) w
      → Returns (Answer size bs) (
          (free_if self ops child c.own_buffer c.buffer c.total_size >>= λ _.
          pure (err_nomem, none))
            w)
  undo_buffer size c bs w l =
      Returns-bind (λ _ w'. Lent bs w') _
        (free_if self ops child c.own_buffer c.buffer c.total_size) _ w released
        (λ _ w' l'. inl (refl, l'))
    where
      released :
          Returns (λ _ w'. Lent bs w') (free_if self ops child c.own_buffer c.buffer c.total_size w)
      released = elim (Bool-cases c.own_buffer) [
        | inl own ↦ rw own (
            free_if_lem Lent self ops child lends true c.buffer c.total_size _ bs w (rw own at l)
              (λ t. here) (λ f. ground (arith, f)))
        | inr not_own ↦ rw not_own (
            free_if_lem Lent self ops child lends false c.buffer c.total_size _ bs w
              (rw not_own at l) (λ t. absurd (ground (arith, t))) (λ f. refl))
      ]

  pub undo_lists :
      (size : ℕ) (c : BuddyContext) (bs : List Block) (w : W)
      → Lent (with_lists c bs) w
      → Returns (Answer size bs) (
          (allo_free child c.free_lists (mul64 (free_lists_count c) 8) >>= λ _.
          free_if self ops child c.own_buffer c.buffer c.total_size >>= λ _. pure (err_nomem, none))
            w)
  undo_lists size c bs w l =
      Returns-bind (λ _ w'. Lent (with_buffer c bs) w') _
        (allo_free child c.free_lists (mul64 (free_lists_count c) 8)) _ w
        (lends.release _ (with_buffer c bs) c.free_lists _ w l here)
        (λ _ w' l'. undo_buffer size c bs w' l')

  -- Once all memory is there.
  pub finish_lem :
      (size : ℕ) (bs : List Block) (w : W)
      → Asking size (self.get w).ctx
      → AllThere (self.get w).ctx
      → Lent (on_loan (self.get w).ctx bs) w
      → Returns (Answer size bs) (finish self ops child w)
  unfolding finish mark_free block_orders_len bit_bytes free_lists_count
  finish_lem size bs w a all l =
      let s = self.get w in
      let c = s.ctx in
      rw (self.get-put (mark_free 0 0 (list_push 0 c.buffer s)) w) (
        inr (
          refl,
          rw (list_push_lem 0 c.buffer s) a.total_size,
          rw (list_push_lem 0 c.buffer s) (record {
            buffer = all.buffer;
            free_lists = all.free_lists;
            bitset = all.bitset;
            block_orders = all.block_orders;
          }),
          rw (list_push_lem 0 c.buffer s) (lends.apart _ _ w l),
          λ depth e small. first_block_lem s depth (
              ready depth (ap (λ t. t.ctx.total_size) (sym (list_push_lem 0 c.buffer s)) ∙ e)
                small),
        ))
    where
      ready :
          (depth : ℕ)
          → (self.get w).ctx.total_size ≡ 2 ^ (depth + 5)
          → depth + 5 < 64
          → IsReady (self.get w) depth
      ready depth e small = record {
        ne_null = a.ne_null;
        total_size = e;
        max_order = a.max_order;
        min = a.min;
        small = small;
        fits = omega (arith, a.fits, a.total_size, e);
        heads = a.heads;
        bits = a.bits;
      }
