-- ===== src/Blocks.antt =====
-- The blocks that an allocator has handed out, as a list that only the proofs know.
use liballo.Base.{ℕ, List, [], ◌∷◌, arith}
use liballo.Mem.{Ptr, Apart}

-- The addresses from `start` to `start + size`.
pub record Block : Type 0 where
  pub start : Ptr
  pub size : ℕ

abbrev pub block : Ptr → ℕ → Block
block p n = record { start = p; size = n }

abbrev pub All : (Block → Type 0) → List Block → Type 0
All P [] = Unit
All P (b ∷ bs) = P b × All P bs

abbrev pub ApartFrom : Ptr → ℕ → Block → Type 0
ApartFrom p n b = Apart p n b.start b.size

-- No two blocks share an address.
abbrev pub Disjoint : List Block → Type 0
Disjoint [] = Unit
Disjoint (b ∷ bs) = All (ApartFrom b.start b.size) bs × Disjoint bs

-- The second list is the first without one occurrence of the block.
pub data Removed (b : Block) : List Block → List Block → Type 0 where
  here : {bs : List Block} → Removed b (b ∷ bs) bs
  there : {c : Block} {bs cs : List Block} → Removed b bs cs → Removed b (c ∷ bs) (c ∷ cs)

pub All-map :
    {P Q : Block → Type 0} (bs : List Block) → ((b : Block) → P b → Q b) → All P bs → All Q bs
All-map [] f h = tt
All-map (b ∷ bs) f h = (f b h.0, All-map bs f h.1)

pub All-of : {P : Block → Type 0} (bs : List Block) → ((b : Block) → P b) → All P bs
All-of [] f = tt
All-of (b ∷ bs) f = (f b, All-of bs f)

pub All-and :
    (P Q : Block → Type 0) (bs : List Block) → All P bs → All Q bs → All (λ b. P b × Q b) bs
All-and P Q [] h k = tt
All-and P Q (b ∷ bs) h k = ((h.0, k.0), All-and P Q bs h.1 k.1)

pub Removed-All :
    (P : Block → Type 0) {b : Block} {bs cs : List Block}
    → Removed b bs cs
    → All P bs
    → P b × All P cs
Removed-All P here h = h
Removed-All P (there r) h = let (p, q) = Removed-All P r h.1 in (p, (h.0, q))

Apart-sym : (b c : Block) → ApartFrom c.start c.size b → ApartFrom b.start b.size c
Apart-sym b c h = ground arith

-- What is left is disjoint, and from the block taken out too.
pub Removed-Disjoint :
    {b : Block} {bs cs : List Block}
    → Removed b bs cs
    → Disjoint bs
    → All (ApartFrom b.start b.size) cs × Disjoint cs
Removed-Disjoint here h = h
Removed-Disjoint {b} (there {c} r) h =
    let (p, q) = Removed-All _ r h.0 in
    let (p', q') = Removed-Disjoint r h.1 in ((Apart-sym b c p, p'), (q, q'))
