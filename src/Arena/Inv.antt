-- ===== src/Arena/Inv.antt =====
-- When a state of src/allo_arena.c is valid: the chain of blocks, and what was handed out of it.
use liballo.Base.{ℕ, ◌+◌, ◌/◌, ◌*◌, ◌%◌, ◌^◌, ◌≤◌, ◌<◌, ◌≡◌, ◌≢◌, ◌⊎◌, inl, inr, List, ◌∷◌, arith}
use liballo.Base.Cmd.{Slot, Returns}
use liballo.Mem.{Ptr, null, Memory, InRange, Apart}
use liballo.Blocks.{Block, block, All, All-map, ApartFrom, Disjoint, Removed}
use liballo.Allo.{Allo}
use liballo.Arena.{State, header, size_of, offset_of}
use liballo.Arena.Chain.{Chain, link, StartsAt, first, later}
use liballo.Arena.Release.{OnlyIn}

-- The memory inside a block is what it was.
pub record Kept (m m' : Memory) (b : Block) : Type 0 where
  pub word : (q : Ptr) → InRange b.start b.size q → m'.word q ≡ m.word q
  pub byte : (q : Ptr) → InRange b.start b.size q → m'.byte q ≡ m.byte q

-- The answer to a request for `n` bytes: NULL, or one more block out, aligned, within the address
-- space and apart from the others. The arena's context and the blocks that are out stay as they were.
abbrev pub Loan :
    {W : Type 0} → (List Block → W → Type 0) → Slot W State → ℕ → List Block → W → Ptr → W → Type 0
Loan Lent self n bs w p w' =
    ((self.get w').ctx ≡ (self.get w).ctx)
    × All (Kept (self.get w).mem (self.get w').mem) bs
    × (((p ≡ null) × Lent bs w')
        ⊎ ((p ≢ null)
            × (p % 8 ≡ 0)
            × (p + n < 2 ^ 64)
            × All (ApartFrom p n) bs
            × ((bs' : List Block) → Removed (block p n) bs' bs → Lent bs' w')))

-- What the arena expects of its child: `Lent bs` holds while the blocks `bs` are out. A request ends
-- with such an answer, and a release of a block that is out ends, takes it back, and writes words
-- only into it. The child does not depend on the arena's state.
pub record Lends {W : Type 0} (Lent : List Block → W → Type 0) (self : Slot W State)
    (child : Allo W) : Type 0 where
  pub alloc :
      (n : ℕ) (bs : List Block) (w : W)
      → n < 2 ^ 64
      → Lent bs w
      → Returns (Loan Lent self n bs w) (child.alloc n w)
  pub release :
      (bs rest : List Block) (p n : ℕ) (w : W)
      → Lent bs w
      → Removed (block p n) bs rest
      → Returns
          (λ _ w'. Lent rest w' × OnlyIn p n (self.get w).mem (self.get w').mem)
          (child.free_mem p n w)
  pub apart : (s : State) (bs : List Block) (w : W) → Lent bs w → Lent bs (self.put s w)

-- A block of the chain: aligned, with room for its header and the used part.
pub record IsArenaBlock (m : Memory) (b : Block) : Type 0 where
  pub aligned : b.start % 8 ≡ 0
  pub filled : header + offset_of m b.start ≤ b.size
  pub fits : b.start + b.size < 2 ^ 64

-- What was handed out lies in the used part of a block.
pub record IsPart (m : Memory) (b : Ptr) (a : Block) : Type 0 where
  pub above : b + header ≤ a.start
  pub below : a.start + a.size ≤ b + header + offset_of m b
  pub aligned : a.start % 8 ≡ 0
  pub nonempty : 0 < a.size

pub data IsUsed (m : Memory) (a : Block) : List Block → Type 0 where
  here : {b : Block} {bs : List Block} → IsPart m b.start a → IsUsed m a (b ∷ bs)
  there : {b : Block} {bs : List Block} → IsUsed m a bs → IsUsed m a (b ∷ bs)

-- The state, with the blocks of the chain and those that were handed out.
pub record IsValid (s : State) (bs live : List Block) : Type 0 where
  pub chain : Chain s.mem s.ctx.first bs
  pub current : StartsAt s.ctx.current bs
  pub current_size : size_of s.mem s.ctx.current ≡ s.ctx.block_size
  pub small : s.ctx.block_size < 2 ^ 63
  pub blocks : All (IsArenaBlock s.mem) bs
  pub disjoint : Disjoint bs
  pub used : All (λ a. IsUsed s.mem a bs) live
  pub apart : Disjoint live

-- The next multiple of 8.
abbrev pub round_up : ℕ → ℕ
round_up n = (n + 7) / 8 * 8

-- The block that begins at an address of the chain, with what is known of it.
pub StartsAt-IsArenaBlock :
    {m : Memory} {c : Ptr} {p : Ptr} {bs : List Block}
    → StartsAt c bs
    → Chain m p bs
    → All (IsArenaBlock m) bs
    → IsArenaBlock m (block c (header + size_of m c))
StartsAt-IsArenaBlock (first e) (link ne fits size k) (b, bs) = rw (← e) (rw size b)
StartsAt-IsArenaBlock (later s) (link ne fits size k) (b, bs) = StartsAt-IsArenaBlock s k bs

-- What is apart from all blocks is apart from the one at an address.
pub StartsAt-ApartFrom :
    {m : Memory} {c : Ptr} {p : Ptr} {bs : List Block} (q n : ℕ)
    → StartsAt c bs
    → Chain m p bs
    → All (ApartFrom q n) bs
    → Apart q n c (header + size_of m c)
StartsAt-ApartFrom q n (first e) (link ne fits size k) (a, rest) = rw (← e) (rw size a)
StartsAt-ApartFrom q n (later s) (link ne fits size k) (a, rest) = StartsAt-ApartFrom q n s k rest

-- What is apart from a block is apart from its parts, and so from all that lies in the blocks.
pub IsUsed-ApartFrom :
    {m : Memory} {a : Block} {bs : List Block} (q n : ℕ)
    → IsUsed m a bs
    → All (IsArenaBlock m) bs
    → All (ApartFrom q n) bs
    → ApartFrom q n a
IsUsed-ApartFrom q n (here u) (b, bs) (a, rest) = ground arith
IsUsed-ApartFrom q n (there u) (b, bs) (a, rest) = IsUsed-ApartFrom q n u bs rest

-- What was handed out lies in the used part of the current block, or apart from that block.
pub current_or_apart :
    {m : Memory} {a : Block} {c p : Ptr} {bs : List Block}
    → StartsAt c bs
    → Chain m p bs
    → All (IsArenaBlock m) bs
    → Disjoint bs
    → IsUsed m a bs
    → IsPart m c a ⊎ Apart c (header + size_of m c) a.start a.size
current_or_apart (first e) (link ne fits size k) bs d (here u) = inl (rw (← e) u)
current_or_apart (first e) (link ne fits size k) bs d (there u) =
    rw (← e) (rw size (inr (IsUsed-ApartFrom _ _ u bs.1 d.0)))
current_or_apart (later s) (link ne fits size k) bs d (here u) =
    let outside = StartsAt-ApartFrom _ _ s k d.0 in
    let b = bs.0 in inr (ground (arith, outside, b.filled, u.above, u.below))
current_or_apart (later s) (link ne fits size k) bs d (there u) = current_or_apart s k bs.1 d.1 u

-- A block of the chain is the current one, or apart from it.
abbrev pub AtOrApart : Memory → Ptr → Block → Type 0
AtOrApart m c b = (b.start ≡ c) ⊎ Apart c (header + size_of m c) b.start b.size

pub Apart-swap : (p n q k : ℕ) → Apart p n q k → Apart q k p n
Apart-swap p n q k h = ground arith

pub each_block :
    {m : Memory} {c p : Ptr} {bs : List Block}
    → StartsAt c bs
    → Chain m p bs
    → Disjoint bs
    → All (AtOrApart m c) bs
each_block (first e) (link {bs = bs} ne fits size k) d =
    (inl e, All-map bs (λ b h. inr (rw (← e) (rw size h))) d.0)
each_block (later s) (link ne fits size k) d =
    (inr (Apart-swap _ _ _ _ (StartsAt-ApartFrom _ _ s k d.0)), each_block s k d.1)
