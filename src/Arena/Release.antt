-- ===== src/Arena/Release.antt =====
-- `arena_destroy_fn` gives every block of the chain back to the child, once.
use liballo.Base.{ℕ, zero, suc, ◌<◌, ◌≡◌, false, List, [], ◌∷◌, arith, length, ◌==◌, add64}
use liballo.Base.Cmd.{Slot, Returns, Returns-bind}
use liballo.Mem.{Ptr, null, Memory, InRange}
use liballo.Blocks.{block, Block, All, ApartFrom, Disjoint, Removed, here}
use liballo.Allo.{Allo}
use liballo.Arena.{next_of, State, header, size_of, destroy_loop, arena_destroy_fn}
use liballo.Arena.Chain.{Chain, end, link}

-- Words change at most inside a range.
abbrev pub OnlyIn : Ptr → ℕ → Memory → Memory → Type 0
OnlyIn p n m m' = (q : Ptr) → ¬ InRange p n q → m'.word q ≡ m.word q

-- A chain does not depend on a range that none of its blocks meets.
Chain-frame :
    (m m' : Memory) (p n : ℕ) {curr : Ptr} {bs : List Block}
    → OnlyIn p n m m'
    → Chain m curr bs
    → All (ApartFrom p n) bs
    → Chain m' curr bs
Chain-frame m m' p n only end apart = end
Chain-frame m m' p n only (link {b} {bs} ne fits size c) (a, apart) =
    let next : m'.word b.start ≡ m.word b.start = only b.start (λ i. omega arith) in
    let same : m'.word (add64 b.start 8) ≡ m.word (add64 b.start 8) =
      only (add64 b.start 8) (λ i. omega arith) in
    link ne fits (rw same size) (rw next (Chain-frame m m' p n only c apart))

module _ {W : Type 0} (self : Slot W State) (child : Allo W) where
  -- What the arena asks of a child that lends it blocks: `Lent bs` holds while the blocks `bs` are
  -- out. A release of one of them ends, takes it off, and writes words only into it.
  unfoldable pub TakesBack : (List Block → W → Type 0) → Type 0
  TakesBack Lent =
      (bs rest : List Block) (p n : ℕ) (w : W)
      → Lent bs w
      → Removed (block p n) bs rest
      → Returns (λ _ w'. Lent rest w' × OnlyIn p n (self.get w).mem (self.get w').mem)
          (child.free_mem p n w)

  destroy_loop_lem :
      (Lent : List Block → W → Type 0)
      → TakesBack Lent
      → (steps : ℕ) {curr : Ptr} {bs : List Block} (w : W) → Lent bs w
      → Chain (self.get w).mem curr bs
      → Disjoint bs
      → length bs < steps
      → Returns (λ _ w'. Lent [] w') (destroy_loop self child steps curr w)
  unfolding destroy_loop TakesBack
  destroy_loop_lem Lent t zero w l c d h = absurd (omega arith)
  destroy_loop_lem Lent t (suc n) w l end d h = l
  destroy_loop_lem Lent t (suc n) w l (link {b} {bs} ne fits size c) (apart, d) h =
      let go_on : (b.start == null) ≡ false = ground arith in
      let m = (self.get w).mem in
      let sum : add64 header (size_of m b.start) ≡ b.size = omega arith in
      rw go_on (
        rw sum (
          Returns-bind (λ a w'. Lent bs w' × OnlyIn b.start b.size m (self.get w').mem) _
            (child.free_mem b.start b.size) (λ a. destroy_loop self child n (next_of m b.start)) w
            (t (b ∷ bs) bs b.start b.size w l here)
            (λ a w' (l', only).
              destroy_loop_lem Lent t n w' l' (Chain-frame m _ b.start b.size only c apart) d
                (omega arith))))

  -- With more steps than the chain has blocks, and the blocks of the chain lent by a child that
  -- takes them back, `arena_destroy_fn` ends and leaves none of them out: each is released once,
  -- with the size that was asked for, though the chain runs through the blocks themselves.
  pub arena_destroy_lem :
      (Lent : List Block → W → Type 0)
      → TakesBack Lent
      → (steps : ℕ) {bs : List Block} (w : W) → Lent bs w
      → Chain (self.get w).mem (self.get w).ctx.first bs
      → Disjoint bs
      → length bs < steps
      → Returns (λ _ w'. Lent [] w') (arena_destroy_fn self child steps w)
  unfolding arena_destroy_fn
  arena_destroy_lem Lent t steps w l c d h = destroy_loop_lem Lent t steps w l c d h
