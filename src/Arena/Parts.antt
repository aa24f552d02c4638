-- ===== src/Arena/Parts.antt =====
-- What is handed out of an arena of src/allo_arena.c: where it lies, and giving some of it up.
use liballo.Base.{ℕ, ◌+◌, ◌^◌, ◌≤◌, ◌<◌, List, ◌∷◌, arith}
use liballo.Mem.{Memory}
use liballo.Blocks.{Block, block, All, All-map, Disjoint, Removed, Removed-All, Removed-Disjoint}
use liballo.Arena.{State, header}
use liballo.Arena.Inv.{IsArenaBlock, IsUsed, here, there, IsValid}
use liballo.Arena.Request.{SameBytes}

-- What was handed out lies in a block: it is not at NULL, it ends within the address space, and its
-- bytes are kept with those of the block.
pub IsUsed-fits :
    {m : Memory} {a : Block} {bs : List Block}
    → IsUsed m a bs
    → All (IsArenaBlock m) bs
    → (header ≤ a.start) × (a.start + a.size < 2 ^ 64) × (0 < a.size)
IsUsed-fits (here u) (i, rest) =
    let g = i.filled in
    let f = i.fits in let a = u.above in let b = u.below in (omega arith, omega arith, u.nonempty)
IsUsed-fits (there u) (i, rest) = IsUsed-fits u rest

pub IsUsed-SameBytes :
    (m₀ m' : Memory) {m : Memory} {a : Block} {bs : List Block}
    → IsUsed m a bs
    → All (IsArenaBlock m) bs
    → All (SameBytes m₀ m') bs
    → SameBytes m₀ m' a
IsUsed-SameBytes m₀ m' (here u) (i, rest) (same, others) q h =
    let g = i.filled in let a = u.above in let b = u.below in same q (omega arith, omega arith)
IsUsed-SameBytes m₀ m' (there u) (i, rest) (same, others) q h =
    IsUsed-SameBytes m₀ m' u rest others q h

-- The client may keep less of what it has.
IsUsed-shrink :
    {m : Memory} {p n k : ℕ} {bs : List Block}
    → 0 < k
    → k ≤ n
    → IsUsed m (block p n) bs
    → IsUsed m (block p k) bs
IsUsed-shrink pos h (here u) =
    let b = u.below in
    here (record { above = u.above; below = omega arith; aligned = u.aligned; nonempty = pos })
IsUsed-shrink pos h (there u) = there (IsUsed-shrink pos h u)

with_live :
    {s : State} {bs live : List Block} (live' : List Block)
    → IsValid s bs live
    → All (λ a. IsUsed s.mem a bs) live'
    → Disjoint live'
    → IsValid s bs live'
with_live live' v used apart = record {
  chain = v.chain;
  current = v.current;
  current_size = v.current_size;
  small = v.small;
  blocks = v.blocks;
  disjoint = v.disjoint;
  used = used;
  apart = apart;
}

pub IsValid-shrink :
    {s : State} {bs live rest : List Block} {p n : ℕ} (k : ℕ)
    → IsValid s bs live
    → Removed (block p n) live rest
    → 0 < k
    → k ≤ n
    → IsValid s bs (block p k ∷ rest)
IsValid-shrink {rest = rest} {p} {n} k v r pos h =
    let (mine, others) = Removed-All _ r v.used in
    let (apart, d) = Removed-Disjoint r v.apart in
    with_live (block p k ∷ rest) v (IsUsed-shrink pos h mine, others)
      (All-map rest (λ b a. ground (arith, a)) apart, d)

pub IsValid-drop :
    {s : State} {bs live rest : List Block} {a b : Block}
    → IsValid s bs (b ∷ live)
    → Removed a live rest
    → IsValid s bs (b ∷ rest)
IsValid-drop {rest = rest} {b = b} v r =
    with_live (b ∷ rest) v (v.used.0, (Removed-All _ r v.used.1).1)
      ((Removed-All _ r v.apart.0).1, (Removed-Disjoint r v.apart.1).1)
