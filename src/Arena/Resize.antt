-- ===== src/Arena/Resize.antt =====
-- The last part of the current block of src/allo_arena.c, resized in place.
use liballo.Base.{ℕ, ◌+◌, ◌-◌, ◌≤◌, ◌<◌, ◌≡◌, refl, inl, inr, List, ◌∷◌, arith}
use liballo.Mem.{Memory}
use liballo.Blocks.{Block, block, All-map, All-and, Removed, Removed-All, Removed-Disjoint}
use liballo.Arena.{State, header, offset_of, set_offset}
use liballo.Arena.Inv.{
  IsPart, IsUsed, here, there, IsValid, StartsAt-IsArenaBlock, each_block, current_or_apart,
}
use liballo.Arena.Offset.{offset_at_self, IsUsed-offset, IsUsed-current, fits_in, IsValid-offset}

IsUsed-nonempty : {m : Memory} {a : Block} {bs : List Block} → IsUsed m a bs → 0 < a.size
IsUsed-nonempty (here u) = u.nonempty
IsUsed-nonempty (there u) = IsUsed-nonempty u

-- What ends where the used part of the current block ends lies in that block.
IsPart-of :
    {s : State} {bs live : List Block} {a : Block}
    → IsValid s bs live
    → s.ctx.current + header ≤ a.start
    → a.start + a.size ≡ s.ctx.current + header + offset_of s.mem s.ctx.current
    → IsUsed s.mem a bs
    → IsPart s.mem s.ctx.current a
IsPart-of {s} {a = a} v above at_end u =
    elim (current_or_apart v.current v.chain v.blocks v.disjoint u) [
      | inl p ↦ p
      | inr outside ↦
          let filled = (StartsAt-IsArenaBlock v.current v.chain v.blocks).filled in
          let part = IsUsed-nonempty u in absurd (ground (arith, outside))
    ]

-- The last part of the current block may end elsewhere.
pub IsValid-resize :
    {s : State} {bs live rest : List Block} (p old_size new_size : ℕ)
    → IsValid s bs live
    → Removed (block p old_size) live rest
    → s.ctx.current + header ≤ p
    → p + old_size ≡ s.ctx.current + header + offset_of s.mem s.ctx.current
    → 0 < new_size
    → (p + new_size) ≤ s.ctx.current + header + s.ctx.block_size
    → IsValid
        (set_offset s.ctx.current (p + new_size - (s.ctx.current + header)) s)
        bs
        (block p new_size ∷ rest)
IsValid-resize {s} {bs} {live} {rest} p old_size new_size v r above at_end pos room =
    let c = s.ctx.current in
    let fits = fits_in v v.current in
    let o = p + new_size - (c + header) in
    let (mine, others) = Removed-All _ r v.used in
    let (mine_apart, apart) = Removed-Disjoint r v.apart in
    let each = each_block v.current v.chain v.disjoint in
    let parts = All-and _ _ rest others mine_apart in
    let old = IsPart-of v above at_end mine in
    IsValid-offset o (block p new_size ∷ rest) v v.current (let e = v.current_size in omega arith)
      (
        IsUsed-current s.mem c o fits (block p new_size) v.current (record {
          above = above;
          below = rw (offset_at_self s.mem c o fits c refl) (omega arith);
          aligned = old.aligned;
          nonempty = pos;
        }),
        All-map rest
            (λ b u.
              IsUsed-offset s.mem c o fits b u.0
                (λ q.
                  let below = q.below in
                  let part = q.nonempty in let w = old.nonempty in ground (arith, u.1))
                v.blocks each)
            parts,
      )
      (
        All-map rest
            (λ b u. elim (current_or_apart v.current v.chain v.blocks v.disjoint u.0) [
              | inl q ↦
                  let below = q.below in
                  let part = q.nonempty in let w = old.nonempty in ground (arith, u.1)
              | inr outside ↦ let e = v.current_size in ground (arith, outside)
            ])
            parts,
        apart,
      )
