-- ===== src/Arena/Alloc.antt =====
-- `arena_alloc_fn` of src/allo_arena.c: from the current block, from a new one, or in one of its own.
use liballo.Base.{
  ℕ, ◌+◌, ◌^◌, ◌≤◌, ◌<◌, ◌≡◌, refl, ◌≢◌, ◌⊎◌, inl, inr, true, false, List, ◌∷◌, arith, ltb, ltb→lt,
  ltb→le, ◌==◌, if◌then◌else◌, ==_iff, Bool-cases, add64, sym, ◌∙◌, ap,
}
use liballo.Base.Cmd.{Slot, Returns, Returns-bind}
use liballo.Mem.{Ptr, null, align_up}
use liballo.Blocks.{Block, block, All, All-of}
use liballo.Allo.{Allo}
use liballo.Arena.{
  State, header, size_of, offset_of, set_offset, set_current, new_arena_block, arena_alloc_fn,
}
use liballo.Arena.Inv.{Lends, IsValid, round_up}
use liballo.Arena.Request.{SameBytes, rounded, NewBlock, no_block, new_block, new_arena_block_lem}
use liballo.Arena.Offset.{IsValid-take_at, next_part}
use liballo.Arena.Inserted.{inserted, inserted-Removed, inserted-StartsAt}
use liballo.Arena.Insert.{
  fresh_block, with_block, with_block-fields, IsValid-insert, IsValid-current,
}

module _ {W : Type 0} (Lent : List Block → W → Type 0) (self : Slot W State) (child : Allo W) where
  -- What an allocation may answer: NULL, for size 0 or when the current block is too full and the
  -- child refuses a new one; the next part of the current block; or, when that is too full, a part of
  -- a block that the child has given.
  pub data Allocated (w : W) (bs live : List Block) (size : ℕ) (p : Ptr) (w' : W) : Type 0 where
    none_left :
        p ≡ null
        → IsValid (self.get w') bs live
        → Lent bs w'
        → (size ≡ 0)
          ⊎ (((self.get w).ctx.block_size
                < round_up (offset_of (self.get w).mem (self.get w).ctx.current) + size)
              × ¬ Returns
                  (λ q w₂. q ≢ null)
                  (child.alloc
                    (header
                      + (if ltb (self.get w).ctx.block_size size
                          then size
                          else (self.get w).ctx.block_size))
                    w))
        → All (SameBytes (self.get w).mem (self.get w').mem) bs
        → Allocated w bs live size p w'
    taken :
        p ≡ next_part (self.get w).mem (self.get w).ctx.current
        → self.get w'
          ≡ set_offset
              (self.get w).ctx.current
              (round_up (offset_of (self.get w).mem (self.get w).ctx.current) + size)
              (self.get w)
        → p ≢ null
        → IsValid (self.get w') bs (block p size ∷ live)
        → Lent bs w'
        → Allocated w bs live size p w'
    fresh :
        (bs' : List Block)
        → p ≢ null
        → (self.get w).ctx.block_size
          < round_up (offset_of (self.get w).mem (self.get w).ctx.current) + size
        → IsValid (self.get w') bs' (block p size ∷ live)
        → Lent bs' w'
        → All (SameBytes (self.get w).mem (self.get w').mem) bs
        → Allocated w bs live size p w'

module _ {W : Type 0} (Lent : List Block → W → Type 0) (self : Slot W State) (child : Allo W)
    (lends : Lends Lent self child) where
  -- An answer out of a state that is written back.
  fresh_in :
      (w w₁ : W) (s : State) {bs live : List Block} (bs' : List Block) (size : ℕ) {p : Ptr}
      → p ≢ null
      → (self.get w).ctx.block_size
        < round_up (offset_of (self.get w).mem (self.get w).ctx.current) + size
      → IsValid s bs' (block p size ∷ live)
      → Lent bs' w₁
      → All (SameBytes (self.get w).mem s.mem) bs
      → Allocated Lent self child w bs live size p (self.put s w₁)
  fresh_in w w₁ s bs' size ne full v l bytes =
      fresh bs' ne full (rw (self.get-put s w₁) v) (lends.apart s bs' w₁ l)
        (rw (self.get-put s w₁) bytes)

  -- A request that is larger than a block gets a block of its own.
  alloc_large :
      (w : W) {bs live : List Block} (size : ℕ)
      → IsValid (self.get w) bs live
      → Lent bs w
      → header + size < 2 ^ 64
      → (size == 0) ≡ false
      → ltb (self.get w).ctx.block_size size ≡ true
      → Returns (Allocated Lent self child w bs live size) (arena_alloc_fn self child size w)
  unfolding arena_alloc_fn
  alloc_large w {bs} {live} size v l small some_size large =
      rw (some_size, large)
        (Returns-bind (NewBlock Lent self child w bs live size) _ (new_arena_block self child size)
          _ w (new_arena_block_lem Lent self child lends w size v l small)
          (λ p w' r. elim r [
            | no_block e v' l' refuses bytes ↦ rw e (
                none_left refl v' l' (inr (omega (arith, ltb→lt _ _ large), rw large refuses))
                  bytes)
            | new_block w₁ e ne aligned fits away same v₁ l₁ bytes ↦
                let go_on : (p == null) ≡ false = ground arith in
                let s₁ = self.get w₁ in
                let n = block p (header + size) in
                let (off, room) = with_block-fields p size v₁ ne fits away in
                rw (go_on, e, self.get-put (fresh_block p size s₁) w₁)
                  (rw (self.put-put _ (fresh_block p size s₁) w₁) (
                    fresh_in w w₁ (set_offset p size (with_block p size s₁)) (inserted v₁.current n)
                      size (omega arith) (omega (arith, ltb→lt _ _ large))
                      (IsValid-take_at size 0 size (add64 p header)
                        (IsValid-insert p size v₁ ne aligned fits away)
                        (inserted-StartsAt v₁.current n) (ground (arith, some_size)) off
                        (omega arith) (omega arith) (rw room (omega arith)))
                      (l₁ _ (inserted-Removed v₁.current n)) bytes))
          ]))

  -- Otherwise it is served from the current block if it has room.
  alloc_here :
      (w : W) {bs live : List Block} (size : ℕ)
      → IsValid (self.get w) bs live
      → Lent bs w
      → (size == 0) ≡ false
      → ltb (self.get w).ctx.block_size size ≡ false
      → ltb
          (size_of (self.get w).mem (self.get w).ctx.current)
          (add64 (align_up (offset_of (self.get w).mem (self.get w).ctx.current) 8) size)
        ≡ false
      → Returns (Allocated Lent self child w bs live size) (arena_alloc_fn self child size w)
  unfolding arena_alloc_fn
  alloc_here w {bs} {live} size v l some_size not_large room =
      let s = self.get w in
      let c = s.ctx.current in
      let off = offset_of s.mem c in
      let o = add64 (align_up off 8) size in
      let (al, low, fits) = rounded v in
      let small = v.small in
      let bound : o ≤ size_of s.mem c = ground (arith, room) in
      let positive : 0 < size = ground (arith, some_size) in
      let at_most : size ≤ s.ctx.block_size = ground (arith, not_large) in
      let total : o ≡ round_up off + size = rw al (omega arith) in
      let e = v.current_size in
      let start : add64 (add64 c header) (align_up off 8) ≡ c + header + round_up off =
        rw al (omega (arith, bound, total)) in
      let ne : add64 (add64 c header) (align_up off 8) ≢ null = omega (arith, start) in
      rw (some_size, not_large, room)
        (taken start (self.get-put _ w ∙ ap (λ x. set_offset c x s) total) ne
          (rw (self.get-put (set_offset c o s) w) (
            IsValid-take_at size off o (add64 (add64 c header) (align_up off 8)) v v.current
              positive refl total start bound))
          (lends.apart (set_offset c o s) bs w l))

  alloc_next :
      (w : W) {bs live : List Block} (size : ℕ)
      → IsValid (self.get w) bs live
      → Lent bs w
      → (size == 0) ≡ false
      → ltb (self.get w).ctx.block_size size ≡ false
      → ltb
          (size_of (self.get w).mem (self.get w).ctx.current)
          (add64 (align_up (offset_of (self.get w).mem (self.get w).ctx.current) 8) size)
        ≡ true
      → Returns (Allocated Lent self child w bs live size) (arena_alloc_fn self child size w)
  unfolding arena_alloc_fn
  alloc_next w {bs} {live} size v l some_size not_large full =
      let s = self.get w in
      let off = offset_of s.mem s.ctx.current in
      let (al, low, room) = rounded v in
      let small = v.small in
      let e = v.current_size in
      let at_most : size ≤ s.ctx.block_size = ltb→le _ _ not_large in
      let past : s.ctx.block_size < round_up off + size = omega (arith, ltb→lt _ _ full, al) in
      rw (some_size, not_large, full)
        (Returns-bind (NewBlock Lent self child w bs live s.ctx.block_size) _
          (new_arena_block self child s.ctx.block_size) _ w
          (new_arena_block_lem Lent self child lends w s.ctx.block_size v l (omega arith))
          (λ p w' r. elim r [
            | no_block e v' l' refuses bytes ↦
                rw e (none_left refl v' l' (inr (past, rw not_large refuses)) bytes)
            | new_block w₁ e ne aligned fits away same v₁ l₁ bytes ↦
                let go_on : (p == null) ≡ false = ground arith in
                let s₁ = self.get w₁ in
                let n = block p (header + s.ctx.block_size) in
                let next = set_current p (with_block p s.ctx.block_size s₁) in
                let (empty, whole) = with_block-fields p s.ctx.block_size v₁ ne fits away in
                rw (go_on, e, self.get-put (fresh_block p s.ctx.block_size s₁) w₁)
                  (rw (self.put-put _ (fresh_block p s.ctx.block_size s₁) w₁, self.get-put next w₁)
                    (rw (self.put-put _ next w₁) (
                      fresh_in w w₁ (set_offset p (add64 0 size) next) (inserted v₁.current n) size
                        (omega arith) past
                        (IsValid-take_at size 0 (add64 0 size) (add64 (add64 p header) 0)
                          (IsValid-current p
                            (IsValid-insert p s.ctx.block_size v₁ ne aligned fits away)
                            (inserted-StartsAt v₁.current n)
                            (whole ∙ sym (ap (λ x. x.block_size) same)))
                          (inserted-StartsAt v₁.current n) (ground (arith, some_size)) empty
                          (omega arith) (omega arith) (rw whole (omega arith)))
                        (l₁ _ (inserted-Removed v₁.current n)) bytes)))
          ]))

  -- From a valid state, and for a size that the header does not push past the end of `size_t`,
  -- `arena_alloc_fn` ends and keeps the state valid. It returns NULL only for size 0 or where the
  -- current block has no room (for a larger request than a block it never has) and the child does not
  -- give a new one, and else an aligned part of a block of the chain that shares no address with what
  -- was handed out before: the next one of the current block, if that has room. The blocks that the
  -- child has lent are those of the chain, and their bytes are kept.
  pub arena_alloc_lem :
      (w : W) {bs live : List Block} (size : ℕ)
      → IsValid (self.get w) bs live
      → Lent bs w
      → header + size < 2 ^ 64
      → Returns (Allocated Lent self child w bs live size) (arena_alloc_fn self child size w)
  unfolding arena_alloc_fn
  arena_alloc_lem w {bs} {live} size v l small = elim (Bool-cases (size == 0)) [
    | inl empty ↦
        rw empty (none_left refl v l (inl ((==_iff _ _).0 empty)) (All-of bs (λ b q h. refl)))
    | inr positive ↦ elim (Bool-cases (ltb (self.get w).ctx.block_size size)) [
      | inl large ↦ alloc_large w size v l small positive large
      | inr normal ↦
          elim (Bool-cases (
            ltb (size_of (self.get w).mem (self.get w).ctx.current)
              (add64 (align_up (offset_of (self.get w).mem (self.get w).ctx.current) 8) size))) [
                | inl full ↦ alloc_next w size v l positive normal full
                | inr room ↦ alloc_here w size v l positive normal room
              ]
    ]
  ]
