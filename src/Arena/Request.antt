-- ===== src/Arena/Request.antt =====
-- A new block for an arena of src/allo_arena.c, from its child.
use liballo.Base.{
  ℕ, ◌+◌, ◌%◌, ◌^◌, ◌≤◌, ◌<◌, ◌≡◌, refl, ◌≢◌, inl, inr, false, List, arith, ◌==◌, Option-cases,
  subst, add64,
}
use liballo.Base.Cmd.{Slot, Returns, ◌>>=◌}
use liballo.Mem.{Ptr, null, Memory, InRange, align_up}
use liballo.Mem.Align.{align_up_eight}
use liballo.Blocks.{Block, block, All, All-map, ApartFrom, Removed}
use liballo.Allo.{Allo}
use liballo.Arena.{State, header, offset_of, new_arena_block}
use liballo.Arena.Inv.{Loan, Lends, IsValid, StartsAt-IsArenaBlock, round_up}
use liballo.Arena.Frame.{IsValid-kept}
use liballo.Arena.Insert.{fresh_block}

-- The bytes in a block are what they were.
abbrev pub SameBytes : Memory → Memory → Block → Type 0
SameBytes m m' b = (q : Ptr) → InRange b.start b.size q → m'.byte q ≡ m.byte q

-- The rounded offset of the current block, which does not wrap.
pub rounded :
    {s : State} {bs live : List Block}
    → IsValid s bs live
    → (align_up (offset_of s.mem s.ctx.current) 8 ≡ round_up (offset_of s.mem s.ctx.current))
      × (offset_of s.mem s.ctx.current ≤ s.ctx.block_size)
      × (s.ctx.current + (header + s.ctx.block_size) < 2 ^ 64)
rounded {s} v =
    let i = StartsAt-IsArenaBlock v.current v.chain v.blocks in
    let filled = i.filled in
    let fits = i.fits in
    let e = v.current_size in
    let low : offset_of s.mem s.ctx.current ≤ s.ctx.block_size = omega arith in
    let small = v.small in
    (omega (arith, align_up_eight (offset_of s.mem s.ctx.current) (omega arith)), low, omega arith)

module _ {W : Type 0} (Lent : List Block → W → Type 0) (self : Slot W State) (child : Allo W) where
  -- What `new_arena_block` may answer; the fields of the block are written last.
  pub data NewBlock (w : W) (bs live : List Block) (size : ℕ) (p : Ptr) (w' : W) : Type 0 where
    no_block :
        p ≡ null
        → IsValid (self.get w') bs live
        → Lent bs w'
        → ¬ Returns (λ q w₂. q ≢ null) (child.alloc (header + size) w)
        → All (SameBytes (self.get w).mem (self.get w').mem) bs
        → NewBlock w bs live size p w'
    new_block :
        (w₁ : W)
        → w' ≡ self.put (fresh_block p size (self.get w₁)) w₁
        → p ≢ null
        → p % 8 ≡ 0
        → p + (header + size) < 2 ^ 64
        → All (ApartFrom p (header + size)) bs
        → (self.get w₁).ctx ≡ (self.get w).ctx
        → IsValid (self.get w₁) bs live
        → ((bs' : List Block) → Removed (block p (header + size)) bs' bs → Lent bs' w₁)
        → All (SameBytes (self.get w).mem (self.get w₁).mem) bs
        → NewBlock w bs live size p w'

module _ {W : Type 0} (Lent : List Block → W → Type 0) (self : Slot W State) (child : Allo W)
    (lends : Lends Lent self child) where
  pub new_arena_block_lem :
      (w : W) {bs live : List Block} (size : ℕ)
      → IsValid (self.get w) bs live
      → Lent bs w
      → header + size < 2 ^ 64
      → Returns (NewBlock Lent self child w bs live size) (new_arena_block self child size w)
  unfolding new_arena_block
  new_arena_block_lem w {bs} {live} size v l small =
      let sum : add64 header size ≡ header + size = omega arith in
      let loan = lends.alloc (header + size) bs w small l in
      elim (Option-cases (child.alloc (header + size) w)) [
        | inl e ↦ absurd (subst (Returns (Loan Lent self (header + size) bs w)) e loan)
        | inr ((p, w₁), e) ↦
            let (same, kept, out) = subst (Returns (Loan Lent self (header + size) bs w)) e loan in
            let v₁ = IsValid-kept same (All-map bs (λ b k. k.word) kept) v in
            elim out [
              | inl (null_p, l₁) ↦
                  rw (sum, e, null_p, ◌>>=◌)
                    (no_block refl v₁ l₁ (λ h. subst (Returns (λ q w₂. q ≢ null)) e h null_p)
                      (All-map bs (λ b k. k.byte) kept))
              | inr (ne, aligned, fits, away, l₁) ↦
                  let go_on : (p == null) ≡ false = ground arith in
                  rw (sum, e, ◌>>=◌)
                    (rw go_on (
                      new_block w₁ refl ne aligned fits away same v₁ l₁
                        (All-map bs (λ b k. k.byte) kept)))
            ]
      ]
