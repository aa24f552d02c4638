-- ===== src/Arena/Offset.antt =====
-- A write of `offset` in the current block of src/allo_arena.c.
use liballo.Base.{ℕ, ◌+◌, ◌^◌, ◌≤◌, ◌<◌, ◌≡◌, refl, inl, inr, List, ◌∷◌, arith, add64, ◌∙◌, subst}
use liballo.Mem.{Ptr, Memory, Apart, update}
use liballo.Blocks.{Block, block, All, All-map, All-and, Disjoint}
use liballo.Arena.{State, header, next_of, size_of, offset_of, set_offset}
use liballo.Arena.Chain.{Chain, end, link, StartsAt, first, later}
use liballo.Arena.Inv.{
  IsArenaBlock, IsPart, IsUsed, here, there, IsValid, StartsAt-IsArenaBlock, AtOrApart, each_block,
  current_or_apart, round_up,
}

abbrev offset_set : Memory → Ptr → ℕ → Memory
offset_set m c o = record m { word = update m.word (add64 c 16) o }

module _ (m : Memory) (c : Ptr) (o : ℕ) (fits : c + (header + size_of m c) < 2 ^ 64) where
  pub offset_at_self : (p : Ptr) → p ≡ c → offset_of (offset_set m c o) p ≡ o
  offset_at_self p e = ground arith

  offset_elsewhere :
      (b : Block)
      → IsArenaBlock m b
      → Apart c (header + size_of m c) b.start b.size
      → offset_of (offset_set m c o) b.start ≡ offset_of m b.start
  offset_elsewhere b i a = let f = i.fits in let g = i.filled in ground arith

  next_kept :
      (b : Block)
      → IsArenaBlock m b
      → AtOrApart m c b
      → next_of (offset_set m c o) b.start ≡ next_of m b.start
  next_kept b i a = let f = i.fits in let g = i.filled in ground arith

  size_kept :
      (b : Block)
      → IsArenaBlock m b
      → AtOrApart m c b
      → size_of (offset_set m c o) b.start ≡ size_of m b.start
  size_kept b i a = let f = i.fits in let g = i.filled in ground arith

  Chain-offset :
      {p : Ptr} {bs : List Block}
      → Chain m p bs
      → All (IsArenaBlock m) bs
      → All (AtOrApart m c) bs
      → Chain (offset_set m c o) p bs
  Chain-offset end i a = end
  Chain-offset (link {b} ne room size k) i a =
      link ne room (rw (size_kept b i.0 a.0) size)
        (rw (next_kept b i.0 a.0) (Chain-offset k i.1 a.1))

  IsArenaBlock-offset :
      (b : Block)
      → o ≤ size_of m c
      → header + size_of m b.start ≡ b.size
      → IsArenaBlock m b
      → AtOrApart m c b
      → IsArenaBlock (offset_set m c o) b
  IsArenaBlock-offset b h size i (inl e) = record {
    aligned = i.aligned;
    filled = rw (offset_at_self b.start e) (let h' : o ≤ size_of m b.start = rw e h in omega arith);
    fits = i.fits;
  }
  IsArenaBlock-offset b h size i (inr a) = record {
    aligned = i.aligned;
    filled = rw (offset_elsewhere b i a) i.filled;
    fits = i.fits;
  }

  -- What lies below the new offset stays in use.
  pub IsUsed-offset :
      (a : Block) {bs : List Block}
      → IsUsed m a bs
      → (IsPart m c a → a.start + a.size ≤ c + header + o)
      → All (IsArenaBlock m) bs
      → All (AtOrApart m c) bs
      → IsUsed (offset_set m c o) a bs
  IsUsed-offset a (here {b} u) below is (inl e, rest) = here (record {
    above = u.above;
    below = rw (offset_at_self b.start e) (rw e (below (rw (← e) u)));
    aligned = u.aligned;
    nonempty = u.nonempty;
  })
  IsUsed-offset a (here {b} u) below is (inr apart, rest) = here (record {
    above = u.above;
    below = rw (offset_elsewhere b is.0 apart) u.below;
    aligned = u.aligned;
    nonempty = u.nonempty;
  })
  IsUsed-offset a (there u) below is (x, rest) = there (IsUsed-offset a u below is.1 rest)

  IsArenaBlock-all :
      {p : Ptr} {bs : List Block}
      → o ≤ size_of m c
      → Chain m p bs
      → All (IsArenaBlock m) bs
      → All (AtOrApart m c) bs
      → All (IsArenaBlock (offset_set m c o)) bs
  IsArenaBlock-all h end i a = tt
  IsArenaBlock-all h (link {b} ne room size k) i a =
      (IsArenaBlock-offset b h size i.0 a.0, IsArenaBlock-all h k i.1 a.1)

  -- The used part of the current block, up to the new offset.
  pub IsUsed-current :
      (a : Block) {bs : List Block}
      → StartsAt c bs
      → IsPart (offset_set m c o) c a
      → IsUsed (offset_set m c o) a bs
  IsUsed-current a (first e) u = here (rw e u)
  IsUsed-current a (later s) u = there (IsUsed-current a s u)

-- What holds of all blocks, for the one at an address.
pub StartsAt-all :
    (P : Ptr → Type 0) {c : Ptr} {bs : List Block} → StartsAt c bs → All (λ b. P b.start) bs → P c
StartsAt-all P (first e) (h, rest) = subst P e h
StartsAt-all P (later s) (h, rest) = StartsAt-all P s rest

pub fits_in :
    {s : State} {bs live : List Block} {c : Ptr}
    → IsValid s bs live
    → StartsAt c bs
    → c + (header + size_of s.mem c) < 2 ^ 64
fits_in v at = (StartsAt-IsArenaBlock at v.chain v.blocks).fits

-- A new offset of one of the blocks, with what is handed out then.
pub IsValid-offset :
    {s : State} {bs live : List Block} {c : Ptr} (o : ℕ) (live' : List Block)
    → IsValid s bs live
    → StartsAt c bs
    → o ≤ size_of s.mem c
    → All (λ a. IsUsed (set_offset c o s).mem a bs) live'
    → Disjoint live'
    → IsValid (set_offset c o s) bs live'
IsValid-offset {s} {c = c} o live' v at h used apart =
    let fits = fits_in v at in
    let m = s.mem in
    let each = each_block at v.chain v.disjoint in
    record {
      chain = Chain-offset m c o fits v.chain v.blocks each;
      current = v.current;
      current_size =
          StartsAt-all (λ q. size_of (set_offset c o s).mem q ≡ size_of m q) v.current
            (All-map _ (λ b x. size_kept m c o fits b x.0 x.1) (All-and _ _ _ v.blocks each))
          ∙ v.current_size;
      small = v.small;
      blocks = IsArenaBlock-all m c o fits h v.chain v.blocks each;
      disjoint = v.disjoint;
      used = used;
      apart = apart;
    }

-- What is handed out next in a block.
abbrev pub next_part : Memory → Ptr → Ptr
next_part m c = c + header + round_up (offset_of m c)

pub IsValid-take :
    {s : State} {bs live : List Block} {c : Ptr} (size : ℕ)
    → IsValid s bs live
    → StartsAt c bs
    → 0 < size
    → round_up (offset_of s.mem c) + size ≤ size_of s.mem c
    → IsValid
        (set_offset c (round_up (offset_of s.mem c) + size) s)
        bs
        (block (next_part s.mem c) size ∷ live)
IsValid-take {s} {bs} {live} {c} size v at pos room =
    let fits = fits_in v at in
    let off = offset_of s.mem c in
    let o = round_up off + size in
    let a = block (next_part s.mem c) size in
    let whole = (StartsAt-IsArenaBlock at v.chain v.blocks).aligned in
    let each = each_block at v.chain v.disjoint in
    IsValid-offset o (a ∷ live) v at room
      (
        IsUsed-current s.mem c o fits a at (record {
          above = omega arith;
          below = rw (offset_at_self s.mem c o fits c refl) (omega arith);
          aligned = omega (arith, whole);
          nonempty = pos;
        }),
        All-map {P = λ b. IsUsed s.mem b bs} live
            (λ b u.
              IsUsed-offset s.mem c o fits b u (λ p. let q = p.below in omega arith) v.blocks each)
            v.used,
      )
      (
        All-map {P = λ b. IsUsed s.mem b bs} live
            (λ b u. elim (current_or_apart at v.chain v.blocks v.disjoint u) [
              | inl p ↦ let q = p.below in inr (omega arith)
              | inr outside ↦ ground (arith, outside)
            ])
            v.used,
        v.apart,
      )

-- The same, with the numbers as they were computed.
pub IsValid-take_at :
    {s : State} {bs live : List Block} {c : Ptr} (size off o a : ℕ)
    → IsValid s bs live
    → StartsAt c bs
    → 0 < size
    → offset_of s.mem c ≡ off
    → o ≡ round_up off + size
    → a ≡ c + header + round_up off
    → o ≤ size_of s.mem c
    → IsValid (set_offset c o s) bs (block a size ∷ live)
IsValid-take_at size off o a v at pos e e' e'' h =
    rw (e', e'', ← e) (IsValid-take size v at pos (rw (e', ← e) at h))
