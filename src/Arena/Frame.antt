-- ===== src/Arena/Frame.antt =====
-- A valid state of src/allo_arena.c does not depend on the memory outside the blocks of its chain.
use liballo.Base.{ℕ, ◌<◌, ◌≡◌, List, arith, add64, ◌∙◌}
use liballo.Mem.{Ptr, Memory, InRange}
use liballo.Blocks.{Block, All, All-map, All-and}
use liballo.Arena.{State, header, next_of, size_of}
use liballo.Arena.Chain.{Chain, end, link}
use liballo.Arena.Inv.{IsArenaBlock, IsUsed, here, there, IsValid}
use liballo.Arena.Offset.{StartsAt-all}

-- The words in a block are what they were.
abbrev pub SameWords : Memory → Memory → Block → Type 0
SameWords m m' b = (q : Ptr) → InRange b.start b.size q → m'.word q ≡ m.word q

-- A state in which all that stands in the blocks is what it was.
module _ (m m' : Memory) where
  word_kept :
      (b : Block) (k : ℕ)
      → k < header
      → IsArenaBlock m b
      → SameWords m m' b
      → m'.word (add64 b.start k) ≡ m.word (add64 b.start k)
  word_kept b k h i kept =
      let g = i.filled in let f = i.fits in kept (add64 b.start k) (omega arith, omega arith)

  next_kept :
      (b : Block) → IsArenaBlock m b → SameWords m m' b → next_of m' b.start ≡ next_of m b.start
  next_kept b i kept = let g = i.filled in kept b.start (omega arith, omega arith)

  Chain-kept :
      {p : Ptr} {bs : List Block}
      → Chain m p bs
      → All (IsArenaBlock m) bs
      → All (SameWords m m') bs
      → Chain m' p bs
  Chain-kept end i kept = end
  Chain-kept (link {b} ne fits size k) i kept =
      link ne fits (rw (word_kept b 8 (omega arith) i.0 kept.0) size)
        (rw (next_kept b i.0 kept.0) (Chain-kept k i.1 kept.1))

  IsArenaBlock-kept : (b : Block) → IsArenaBlock m b → SameWords m m' b → IsArenaBlock m' b
  IsArenaBlock-kept b i kept = record {
    aligned = i.aligned;
    filled = rw (word_kept b 16 (omega arith) i kept) i.filled;
    fits = i.fits;
  }

  IsUsed-kept :
      (a : Block) {bs : List Block}
      → IsUsed m a bs
      → All (IsArenaBlock m) bs
      → All (SameWords m m') bs
      → IsUsed m' a bs
  IsUsed-kept a (here {b} u) i kept = here (record {
    above = u.above;
    below = rw (word_kept b 16 (omega arith) i.0 kept.0) u.below;
    aligned = u.aligned;
    nonempty = u.nonempty;
  })
  IsUsed-kept a (there u) i kept = there (IsUsed-kept a u i.1 kept.1)

pub IsValid-kept :
    {s s' : State} {bs live : List Block}
    → s'.ctx ≡ s.ctx
    → All (SameWords s.mem s'.mem) bs
    → IsValid s bs live
    → IsValid s' bs live
IsValid-kept {s} {s'} {bs} {live} e kept v =
    let m = s.mem in
    let m' = s'.mem in
    record {
      chain = rw e (Chain-kept m m' v.chain v.blocks kept);
      current = rw e v.current;
      current_size = rw e (
          StartsAt-all (λ q. size_of m' q ≡ size_of m q) v.current
            (All-map bs (λ b f. word_kept m m' b 8 (omega arith) f.0 f.1)
              (All-and _ _ bs v.blocks kept))
          ∙ v.current_size);
      small = rw e v.small;
      blocks = All-map bs (λ b f. IsArenaBlock-kept m m' b f.0 f.1) (All-and _ _ bs v.blocks kept);
      disjoint = v.disjoint;
      used = All-map live (λ a u. IsUsed-kept m m' a u v.blocks kept) v.used;
      apart = v.apart;
    }
