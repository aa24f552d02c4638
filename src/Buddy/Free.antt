-- ===== src/Buddy/Free.antt =====
-- `buddy_free_fn` as a whole, alone and after `buddy_alloc_fn`.
use liballo.Base.{
  ℕ, ◌+◌, ◌-◌, ◌^◌, ◌≤◌, ◌<◌, ◌≡◌, refl, sym, ap, ◌∙◌, inl, inr, true, false, List, arith, ltb, leb,
  ◌==◌, ==_refl, add64,
}
use native.Mathlib.Nat.{one-le-pow}
use liballo.Base.Cmd.{◌>>=◌, Returns, Returns-bind, Returns-map}
use liballo.Mem.{Ptr, null}
use liballo.Buddy.{BuddyContext, State, order_of, in_buffer, buddy_alloc_fn, buddy_free_fn}
use liballo.Buddy.Inv.{addr, node_end, in_use, IsValid}
use liballo.Buddy.Steps.{plus, minus}
use liballo.Buddy.Halve.{IsValid-used}
use liballo.Buddy.Alloc.{Fits, Outcome, buddy_alloc_lem}
use liballo.Buddy.TakeFrom.{index_lem}
use liballo.Buddy.Level.{block_lem, order_of_lem}
use liballo.Buddy.Merge.{merge_loop_lem, merge_loop-byte}

order_lem :
    (c : BuddyContext) (depth size l : ℕ)
    → c.min_block_size ≡ 32
    → size < 2 ^ 64
    → l ≤ depth
    → Fits depth size l
    → order_of c size ≡ (depth - l) + 5
order_lem c depth size l e h hl f =
    let (five, holds, least) = order_of_lem c size e h in
    let above = least ((depth - l) + 5) (omega arith) (rw (← block_lem depth l) f.holds) in
    let m = depth + 5 - order_of c size in
    let e' : (depth - m) + 5 ≡ order_of c size = omega arith in
    let below = f.tight m (omega arith) (rw (block_lem depth m, e') holds) in omega arith

pub in_buffer_lem :
    (s : State) (depth l i : ℕ) (free : ℕ → List ℕ) (used : ℕ → ℕ → ℕ)
    → IsValid s depth free used
    → 0 < in_use free used l i
    → in_buffer s.ctx (addr s.ctx.buffer depth l i) ≡ true
unfolding in_buffer
in_buffer_lem s depth l i free used v p =
    let bound = node_end s.ctx.buffer depth (in_use free used) v.tiles v.ne_null v.fits l i p in
    let low : leb s.ctx.buffer (addr s.ctx.buffer depth l i) ≡ true = ground arith in
    let high : ltb (addr s.ctx.buffer depth l i) (add64 s.ctx.buffer s.ctx.total_size) ≡ true =
      rw v.total_size (ground (arith, bound, v.fits, one-le-pow (depth - l) 2)) in
    rw (low, high) refl

-- To free a block that is handed out, with a size that belongs to its level, returns. The block is
-- handed out no longer, and the state is valid again, with all other blocks that were handed out.
pub buddy_free_lem :
    (s : State) (depth l i size : ℕ) (free : ℕ → List ℕ) (used : ℕ → ℕ → ℕ)
    → IsValid s depth free used
    → 0 < used l i
    → size < 2 ^ 64
    → Fits depth size l
    → Returns
        (λ _ s'.
          (free' : ℕ → List ℕ) × IsValid s' depth free' (minus used l i)
          × (s'.mem.byte ≡ s.mem.byte))
        (buddy_free_fn (addr s.ctx.buffer depth l i) size s)
unfolding buddy_free_fn
buddy_free_lem s depth l i size free used v out h f =
    let p : 0 < in_use free used l i = omega arith in
    let (hl, lt) = v.tiles.inside l i p in
    let order = order_lem s.ctx depth size l v.min h hl f in
    let some_ptr : (addr s.ctx.buffer depth l i == null) ≡ false = ground (arith, v.ne_null) in
    let inside = in_buffer_lem s depth l i free used v p in
    let freed = merge_loop_lem depth l i s free used v out in
    let le : leb (order_of s.ctx size) s.ctx.max_order ≡ true =
      ground (arith, order, v.max_order) in
    let level : s.ctx.max_order - order_of s.ctx size ≡ l = omega (arith, order, v.max_order) in
    rw (some_ptr, inside, le, level, index_lem s depth l i free used v p)
      (freed.0, freed.1, merge_loop-byte l i s)

-- What is allocated can be freed with the same size: both calls return, and unless the first one had
-- no block, the state is valid with the blocks handed out that were before.
pub buddy_alloc-free :
    (s : State) (depth size : ℕ) (free : ℕ → List ℕ) (used : ℕ → ℕ → ℕ)
    → IsValid s depth free used
    → size < 2 ^ 64
    → Returns
        (λ _ s'. (free' : ℕ → List ℕ) × IsValid s' depth free' used × (s'.mem.byte ≡ s.mem.byte))
        ((buddy_alloc_fn size >>= λ ptr. buddy_free_fn ptr size) s)
unfolding buddy_free_fn
buddy_alloc-free s depth size free used v h =
    Returns-bind (Outcome s depth free used size) _ (buddy_alloc_fn size)
      (λ ptr. buddy_free_fn ptr size) s (buddy_alloc_lem s depth size free used v h) freed
  where
    freed :
        (ptr : Ptr) (s' : State)
        → Outcome s depth free used size ptr s'
        → Returns
            (λ _ s''.
              (free' : ℕ → List ℕ) × IsValid s'' depth free' used × (s''.mem.byte ≡ s.mem.byte))
            (buddy_free_fn ptr size s')
    freed ptr s' (inl (e, same, _)) = rw (e, same) (free, v, refl)
    freed ptr s' (inr (handed, _)) =
        let l = handed.level in
        let i = handed.index in
        let at : ptr ≡ addr s'.ctx.buffer depth l i =
          handed.at ∙ ap (λ b. addr b depth l i) (sym handed.same_buffer) in
        let back =
          buddy_free_lem s' depth l i size handed.free (plus used l i) handed.keeps
            (ground (arith, ==_refl l, ==_refl i)) h handed.fits in
        rw at (
          Returns-map _ _ (buddy_free_fn (addr s'.ctx.buffer depth l i) size s') back
            (λ _ s'' (free', w, bytes).
              (free', IsValid-used _ _ (λ m k. omega arith) w, bytes ∙ handed.same_bytes)))
