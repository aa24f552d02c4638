-- ===== src/Arena/Insert.antt =====
-- A new block in the chain of src/allo_arena.c, behind the current one.
use liballo.Base.{ℕ, ◌+◌, ◌%◌, ◌^◌, ◌<◌, ◌≡◌, refl, ◌≢◌, inl, inr, List, arith, sym, ap, ◌∙◌}
use liballo.Mem.{Ptr, null, Memory, Apart}
use liballo.Blocks.{Block, block, All, All-map, All-and, ApartFrom, Disjoint}
use liballo.Arena.{
  State, header, next_of, size_of, offset_of, set_offset, set_size, set_next, set_current,
  insert_after,
}
use liballo.Arena.Chain.{Chain, end, link, StartsAt, first, later}
use liballo.Arena.Inv.{
  IsArenaBlock, IsUsed, here, there, IsValid, StartsAt-IsArenaBlock, StartsAt-ApartFrom, AtOrApart,
  each_block, Apart-swap,
}
use liballo.Arena.Inserted.{
  inserted, inserted-All, StartsAt-inserted, IsUsed-inserted, inserted-Disjoint,
}
use liballo.Arena.Offset.{StartsAt-all}

-- The state when `new_arena_block` has set the fields of the block, and it stands in the chain.
abbrev pub fresh_block : Ptr → ℕ → State → State
fresh_block p size s = set_offset p 0 (set_size p size (set_next p null s))

abbrev pub with_block : Ptr → ℕ → State → State
with_block p size s = insert_after s.ctx.current p (fresh_block p size s)

module _ (s : State) (p size : ℕ) (fits : p + (header + size) < 2 ^ 64) where
  abbrev c : Ptr
  c = s.ctx.current

  abbrev m : Memory
  m = s.mem

  abbrev m' : Memory
  m' = (with_block p size s).mem

  abbrev Away : Block → Type 0
  Away b = ApartFrom p (header + size) b

  size_same :
      (b : Block)
      → IsArenaBlock m b
      → AtOrApart m c b
      → Away b
      → size_of m' b.start ≡ size_of m b.start
  size_same b i at a = let f = i.fits in let g = i.filled in ground arith

  offset_same :
      (b : Block)
      → IsArenaBlock m b
      → AtOrApart m c b
      → Away b
      → offset_of m' b.start ≡ offset_of m b.start
  offset_same b i at a = let f = i.fits in let g = i.filled in ground arith

  next_same :
      (b : Block)
      → IsArenaBlock m b
      → Apart c (header + size_of m c) b.start b.size
      → Away b
      → next_of m' b.start ≡ next_of m b.start
  next_same b i at a = let f = i.fits in let g = i.filled in ground arith

  next_of-current : (b : Block) → b.start ≡ c → next_of m' b.start ≡ p
  next_of-current b e = ground arith

  -- Behind the current block the chain is what it was.
  Chain-behind :
      {q : Ptr} {bs : List Block}
      → Chain m q bs
      → All (IsArenaBlock m) bs
      → All (ApartFrom c (header + size_of m c)) bs
      → All Away bs
      → Chain m' q bs
  Chain-behind end i a w = end
  Chain-behind (link {b} ne room sum k) i a w =
      link ne room (rw (size_same b i.0 (inr a.0) w.0) sum)
        (rw (next_same b i.0 a.0 w.0) (Chain-behind k i.1 a.1 w.1))

  -- The fields of the new block.
  module _ (inside : c + header < 2 ^ 64) (apart : Apart p (header + size) c header)
      (ne_null : p ≢ null) where
    next_of-new : next_of m' p ≡ next_of m c
    next_of-new = ground arith

    size_of-new : size_of m' p ≡ size
    size_of-new = ground arith

    offset_of-new : offset_of m' p ≡ 0
    offset_of-new = ground arith

    Chain-inserted :
        {q : Ptr} {bs : List Block}
        → Chain m q bs
        → (at : StartsAt c bs) → All (IsArenaBlock m) bs
        → Disjoint bs
        → All Away bs
        → Chain m' q (inserted at (block p (header + size)))
    unfolding inserted
    Chain-inserted end at i d w = elim at [ ]
    Chain-inserted (link {b} {bs} ne room sum k) (first e) i d w =
        link ne room (rw (size_same b i.0 (inl e) w.0) sum) (
          rw (next_of-current b e) (
            link ne_null (omega arith) (rw size_of-new refl) (
              rw (next_of-new ∙ ap (next_of m) (sym e))
                (Chain-behind k i.1 (All-map bs (λ x a. rw (← e) (rw sum a)) d.0) w.1))))
    Chain-inserted (link {b} {bs} ne room sum k) (later s) i d w =
        let away = Apart-swap _ _ _ _ (StartsAt-ApartFrom _ _ s k d.0) in
        link ne room (rw (size_same b i.0 (inr away) w.0) sum)
          (rw (next_same b i.0 away w.0) (Chain-inserted k s i.1 d.1 w.1))

  IsArenaBlock-kept : (b : Block) → IsArenaBlock m b → AtOrApart m c b → Away b → IsArenaBlock m' b
  IsArenaBlock-kept b i a w = record {
    aligned = i.aligned;
    filled = rw (offset_same b i a w) i.filled;
    fits = i.fits;
  }

  IsUsed-kept :
      (a : Block) {bs : List Block}
      → IsUsed m a bs
      → All (IsArenaBlock m) bs
      → All (AtOrApart m c) bs
      → All Away bs
      → IsUsed m' a bs
  IsUsed-kept a (here {b} u) i x w = here (record {
    above = u.above;
    below = rw (offset_same b i.0 x.0 w.0) u.below;
    aligned = u.aligned;
    nonempty = u.nonempty;
  })
  IsUsed-kept a (there u) i x w = there (IsUsed-kept a u i.1 x.1 w.1)

-- A block that the child has just lent, behind the current one.
pub IsValid-insert :
    {s : State} {bs live : List Block} (p size : ℕ) (v : IsValid s bs live)
    → p ≢ null
    → p % 8 ≡ 0
    → p + (header + size) < 2 ^ 64
    → All (ApartFrom p (header + size)) bs
    → IsValid (with_block p size s) (inserted v.current (block p (header + size))) live
IsValid-insert {s} {bs} {live} p size v ne aligned fits away =
    let n = block p (header + size) in
    let c = s.ctx.current in
    let c_fits = (StartsAt-IsArenaBlock v.current v.chain v.blocks).fits in
    let apart = StartsAt-ApartFrom _ _ v.current v.chain away in
    let inside : c + header < 2 ^ 64 = omega arith in
    let head : Apart p (header + size) c header = ground (arith, apart) in
    let each = each_block v.current v.chain v.disjoint in
    let facts = All-and _ _ bs v.blocks (All-and _ _ bs each away) in
    record {
      chain =
          Chain-inserted s p size fits inside head ne v.chain v.current v.blocks v.disjoint away;
      current = StartsAt-inserted v.current n v.current;
      current_size =
          StartsAt-all (λ q. size_of (with_block p size s).mem q ≡ size_of s.mem q) v.current
            (All-map bs (λ b f. size_same s p size fits b f.0 f.1.0 f.1.1) facts)
          ∙ v.current_size;
      small = v.small;
      blocks =
          inserted-All _ v.current n
            (record {
              aligned = aligned;
              filled = rw (offset_of-new s p size fits inside head ne) (omega arith);
              fits = fits;
            })
            (All-map bs (λ b f. IsArenaBlock-kept s p size fits b f.0 f.1.0 f.1.1) facts);
      disjoint = inserted-Disjoint v.current n away v.disjoint;
      used =
          All-map live
            (λ a u. IsUsed-inserted v.current n (IsUsed-kept s p size fits a u v.blocks each away))
            v.used;
      apart = v.apart;
    }

-- The new block is empty, and it has its size.
pub with_block-fields :
    {s : State} {bs live : List Block} (p size : ℕ) (v : IsValid s bs live)
    → p ≢ null
    → p + (header + size) < 2 ^ 64
    → All (ApartFrom p (header + size)) bs
    → (offset_of (with_block p size s).mem p ≡ 0) × (size_of (with_block p size s).mem p ≡ size)
with_block-fields {s} p size v ne fits away =
    let c_fits = (StartsAt-IsArenaBlock v.current v.chain v.blocks).fits in
    let apart = StartsAt-ApartFrom _ _ v.current v.chain away in
    let inside : s.ctx.current + header < 2 ^ 64 = omega arith in
    let head : Apart p (header + size) s.ctx.current header = ground (arith, apart) in
    (offset_of-new s p size fits inside head ne, size_of-new s p size fits inside head ne)

-- The new block may become the current one.
pub IsValid-current :
    {s : State} {bs live : List Block} (p : Ptr)
    → IsValid s bs live
    → StartsAt p bs
    → size_of s.mem p ≡ s.ctx.block_size
    → IsValid (set_current p s) bs live
IsValid-current p v at e = record {
  chain = v.chain;
  current = at;
  current_size = e;
  small = v.small;
  blocks = v.blocks;
  disjoint = v.disjoint;
  used = v.used;
  apart = v.apart;
}
