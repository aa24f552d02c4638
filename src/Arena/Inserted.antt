-- ===== src/Arena/Inserted.antt =====
-- A list of blocks with a new one behind the current block.
use liballo.Base.{refl, List, ◌∷◌, arith}
use liballo.Mem.{Ptr, Memory}
use liballo.Blocks.{Block, All, ApartFrom, Disjoint, Removed}
use liballo.Arena.Chain.{StartsAt, first, later}
use liballo.Arena.Inv.{IsUsed, here, there}

-- The blocks with a new one behind that at an address.
unfoldable pub inserted : {c : Ptr} {bs : List Block} → StartsAt c bs → Block → List Block
inserted (first {b} {bs} e) n = b ∷ n ∷ bs
inserted (later {b} s) n = b ∷ inserted s n

pub inserted-Removed :
    {c : Ptr} {bs : List Block} (s : StartsAt c bs) (n : Block) → Removed n (inserted s n) bs
unfolding inserted
inserted-Removed (first e) n = Removed.there Removed.here
inserted-Removed (later s) n = Removed.there (inserted-Removed s n)

pub inserted-All :
    (P : Block → Type 0) {c : Ptr} {bs : List Block} (s : StartsAt c bs) (n : Block)
    → P n
    → All P bs
    → All P (inserted s n)
unfolding inserted
inserted-All P (first e) n p (h, rest) = (h, (p, rest))
inserted-All P (later s) n p (h, rest) = (h, inserted-All P s n p rest)

pub inserted-StartsAt :
    {c : Ptr} {bs : List Block} (s : StartsAt c bs) (n : Block) → StartsAt n.start (inserted s n)
unfolding inserted
inserted-StartsAt (first e) n = later (first refl)
inserted-StartsAt (later s) n = later (inserted-StartsAt s n)

pub StartsAt-inserted :
    {c d : Ptr} {bs : List Block} (s : StartsAt c bs) (n : Block)
    → StartsAt d bs
    → StartsAt d (inserted s n)
unfolding inserted
StartsAt-inserted (first e) n (first e') = first e'
StartsAt-inserted (first e) n (later t) = later (later t)
StartsAt-inserted (later s) n (first e') = first e'
StartsAt-inserted (later s) n (later t) = later (StartsAt-inserted s n t)

pub IsUsed-inserted :
    {m : Memory} {a : Block} {c : Ptr} {bs : List Block} (s : StartsAt c bs) (n : Block)
    → IsUsed m a bs
    → IsUsed m a (inserted s n)
unfolding inserted
IsUsed-inserted (first e) n (here u) = here u
IsUsed-inserted (first e) n (there u) = there (there u)
IsUsed-inserted (later s) n (here u) = here u
IsUsed-inserted (later s) n (there u) = there (IsUsed-inserted s n u)

pub inserted-Disjoint :
    {c : Ptr} {bs : List Block} (s : StartsAt c bs) (n : Block)
    → All (ApartFrom n.start n.size) bs
    → Disjoint bs
    → Disjoint (inserted s n)
unfolding inserted
inserted-Disjoint (first {b} e) n (a, rest) (d, ds) = ((ground (arith, a), d), (rest, ds))
inserted-Disjoint (later {b} s) n (a, rest) (d, ds) = (
  inserted-All (ApartFrom b.start b.size) s n (ground (arith, a)) d,
  inserted-Disjoint s n rest ds,
)
