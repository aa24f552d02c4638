-- ===== src/Buddy/Separate.antt =====
-- The blocks that `buddy_alloc_fn` hands out share no address with one another.
use liballo.Base.{ℕ, ◌+◌, ◌-◌, ◌*◌, ◌^◌, ◌≤◌}
use liballo.Mem.{Ptr, Apart}
use liballo.Buddy.Inv.{addr}

-- `size` bytes from `p` lie in the buffer and share no address with a block of the tree.
abbrev pub Outside : (base : Ptr) → (depth l i : ℕ) → (p size : ℕ) → Type 0
Outside base depth l i p size =
    Apart p size (addr base depth l i) (32 * 2 ^ (depth - l))
    × (base ≤ p)
    × (p + size ≤ base + 2 ^ (depth + 5))
