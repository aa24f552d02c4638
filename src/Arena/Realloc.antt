-- ===== src/Arena/Realloc.antt =====
-- `arena_realloc_fn` of src/allo_arena.c: the last part in place, all others by a copy.
use liballo.Base.{
  ℕ, ◌+◌, ◌-◌, ◌^◌, ◌≤◌, ◌<◌, ◌≡◌, refl, ◌≢◌, ◌⊎◌, inl, inr, true, false, List, ◌∷◌, arith, some,
  leb, leb→le, leb→lt, ◌==◌, ==_iff, if◌then◌else◌, Bool-cases, add64, sub64, ◌∙◌, ap,
}
use liballo.Base.Cmd.{Slot, Returns, Returns-bind, Returns-map, zoom, bind_at, pure, ◌>>◌}
use liballo.Mem.{Ptr, null, MemOps, Copied, Apart, allo_memcpy}
use liballo.Mem.Copy.{allo_memcpy_run}
use liballo.Blocks.{Block, block, All, All-map, All-and, All-of, Removed, Removed-All}
use liballo.Allo.{Allo}
use liballo.Arena.{
  State, header, size_of, offset_of, set_offset, arena_alloc_fn, realloc_moved, arena_realloc_fn,
  memory,
}
use liballo.Arena.Inv.{Lends, IsUsed, IsValid}
use liballo.Arena.Frame.{IsValid-kept}
use liballo.Arena.Parts.{IsUsed-fits, IsUsed-SameBytes, IsValid-shrink, IsValid-drop}
use liballo.Arena.Resize.{IsValid-resize}
use liballo.Arena.Request.{SameBytes, rounded}
use liballo.Arena.Alloc.{Allocated, none_left, taken, fresh, arena_alloc_lem}

module _ {W : Type 0} (Lent : List Block → W → Type 0) (self : Slot W State) where
  -- What a reallocation may answer: NULL, with the old block as it was, or a block of the new size
  -- that has the bytes of the old one and takes its place among those handed out.
  pub data Reallocated (w : W) (bs live rest : List Block) (ptr old_size new_size : ℕ) (p : Ptr)
      (w' : W) : Type 0 where
    refused :
        p ≡ null
        → old_size < new_size
        → IsValid (self.get w') bs live
        → Lent bs w'
        → All (SameBytes (self.get w).mem (self.get w').mem) live
        → Reallocated w bs live rest ptr old_size new_size p w'
    resized :
        (bs' : List Block)
        → p ≢ null
        → IsValid (self.get w') bs' (block p new_size ∷ rest)
        → Lent bs' w'
        → ((i : ℕ)
            → i < old_size
            → i < new_size
            → (self.get w').mem.byte (p + i) ≡ (self.get w).mem.byte (ptr + i))
        → All (SameBytes (self.get w).mem (self.get w').mem) rest
        → Reallocated w bs live rest ptr old_size new_size p w'

-- The block is the last part of the current block, which has room for the new size in its place.
abbrev pub InPlace : State → Ptr → (old_size new_size : ℕ) → Type 0
InPlace s ptr old_size new_size =
    (ptr + old_size ≡ s.ctx.current + header + offset_of s.mem s.ctx.current)
    × (s.ctx.current + header ≤ ptr)
    × (ptr + new_size ≤ s.ctx.current + header + s.ctx.block_size)

-- The block stays where it is, and only the offset of the current block changes.
abbrev pub Extended : Ptr → ℕ → State → Ptr → State → Type 0
Extended ptr new_size s p s' =
    (p ≡ ptr) × (s' ≡ set_offset s.ctx.current (ptr + new_size - (s.ctx.current + header)) s)

module _ {W : Type 0} (Lent : List Block → W → Type 0) (self : Slot W State) (child : Allo W)
    (lends : Lends Lent self child) (ops : MemOps) where
  -- An answer out of a state that is written back.
  resized_in :
      (w w₁ : W) (s : State) (bs' live : List Block) {bs rest : List Block}
      (ptr old_size new_size : ℕ) {p : Ptr}
      → p ≢ null
      → IsValid s bs' (block p new_size ∷ rest)
      → Lent bs' w₁
      → ((i : ℕ)
          → i < old_size
          → i < new_size
          → s.mem.byte (p + i) ≡ (self.get w).mem.byte (ptr + i))
      → All (SameBytes (self.get w).mem s.mem) rest
      → Reallocated Lent self w bs live rest ptr old_size new_size p (self.put s w₁)
  resized_in w w₁ s bs' live ptr old_size new_size ne v l bytes others =
      let e = self.get-put s w₁ in
      resized bs' ne (rw e v) (lends.apart s bs' w₁ l) (rw e bytes) (rw e others)

  in_place :
      (w : W) {bs live rest : List Block} (ptr old_size new_size : ℕ)
      → IsValid (self.get w) bs live
      → Lent bs w
      → Removed (block ptr old_size) live rest
      → 0 < new_size
      → new_size < 2 ^ 63
      → (add64 ptr old_size
          == add64
              (add64 (self.get w).ctx.current header)
              (offset_of (self.get w).mem (self.get w).ctx.current))
        ≡ true
      → leb (add64 (self.get w).ctx.current header) ptr ≡ true
      → leb
          (add64 (sub64 ptr (add64 (self.get w).ctx.current header)) new_size)
          (size_of (self.get w).mem (self.get w).ctx.current)
        ≡ true
      → Returns
          (λ p w'.
            Reallocated Lent self w bs live rest ptr old_size new_size p w'
            × Extended ptr new_size (self.get w) p (self.get w'))
          (arena_realloc_fn self child ops ptr old_size new_size w)
  unfolding arena_realloc_fn
  in_place w {bs} {live} {rest} ptr old_size new_size v l r pos small last here_in room =
      let s = self.get w in
      let c = s.ctx.current in
      let (al, low, fits) = rounded v in
      let limit = v.small in
      let size = v.current_size in
      let (above, below, some_old) = IsUsed-fits (Removed-All _ r v.used).0 v.blocks in
      let at_end : ptr + old_size ≡ c + header + offset_of s.mem c =
        omega (arith, (==_iff _ _).0 last) in
      let from : c + header ≤ ptr = omega (arith, leb→le _ _ here_in) in
      let o : add64 (sub64 ptr (add64 c header)) new_size ≡ ptr + new_size - (c + header) =
        omega arith in
      let bound : ptr + new_size ≤ c + header + s.ctx.block_size =
        omega (arith, leb→le _ _ room, o) in
      rw (last, here_in, room, o)
        (
          resized_in w w (set_offset c (ptr + new_size - (c + header)) s) bs live ptr old_size
              new_size (omega arith)
              (IsValid-resize ptr old_size new_size v r from at_end pos bound) l (λ i h h'. refl)
              (All-of rest (λ b q h. refl)),
          (refl, self.get-put _ w),
        )

  copy_run :
      (w : W) (p ptr n : ℕ)
      → p ≢ null
      → ptr ≢ null
      → p + n < 2 ^ 64
      → ptr + n < 2 ^ 64
      → Apart p n ptr n
      → zoom self (zoom memory (allo_memcpy ops p ptr n)) w
        ≡ some (tt, self.put (record (self.get w) { mem = ops.memcpy p ptr n (self.get w).mem }) w)
  copy_run w p ptr n ne ne' fits fits' apart =
      rw (zoom, allo_memcpy_run ops p ptr n (self.get w).mem ne ne' fits fits' apart) refl

  -- The bytes in the new block, and the old one given up.
  moved :
      (w w₁ : W) {bs live rest : List Block} (bs' : List Block) (ptr old_size new_size p : ℕ)
      → IsValid (self.get w) bs live
      → Removed (block ptr old_size) live rest
      → p ≢ null
      → IsValid (self.get w₁) bs' (block p new_size ∷ live)
      → Lent bs' w₁
      → All (SameBytes (self.get w).mem (self.get w₁).mem) bs
      → old_size < new_size
      → Reallocated Lent self w bs live rest ptr old_size new_size p
          (self.put (record (self.get w₁) { mem = ops.memcpy p ptr old_size (self.get w₁).mem }) w₁)
  moved w w₁ {bs} {live} {rest} bs' ptr old_size new_size p v r ne v₁ l₁ bytes grows =
      let m = (self.get w).mem in
      let m₁ = (self.get w₁).mem in
      let m' = ops.memcpy p ptr old_size m₁ in
      let (mine, others) = Removed-All _ r v.used in
      let (apart, away) = Removed-All _ r v₁.apart.0 in
      let new_fits = IsUsed-fits v₁.used.0 v₁.blocks in
      let old_fits = IsUsed-fits mine v.blocks in
      let copy : Copied p ptr old_size m₁ m' =
        ops.memcpy_lem p ptr old_size m₁ (omega arith) (omega arith) (ground (arith, apart)) in
      let kept : (a : Block) → IsUsed m a bs → SameBytes m m₁ a =
        λ a u. IsUsed-SameBytes m m₁ u v.blocks bytes in
      resized_in w w₁ (record (self.get w₁) { mem = m' }) bs' live ptr old_size new_size ne
        (IsValid-drop
          (IsValid-kept {s' = record (self.get w₁) { mem = m' }} refl
            (All-of bs' (λ b q h. ap (λ f. f q) copy.word)) v₁)
          r)
        l₁
        (λ i h h'.
          copy.copied i h ∙ kept (block ptr old_size) mine (ptr + i) (omega arith, omega arith))
        (All-map rest (λ b x q h. copy.same q (λ h'. let a = x.1 in ground arith) ∙ kept b x.0 q h)
          (All-and _ _ rest others away))

  -- The end of `arena_realloc_fn`, where the new block is there.
  copied_to :
      (w w₁ : W) {bs live rest : List Block} (bs' : List Block) (ptr old_size new_size p : ℕ)
      → IsValid (self.get w) bs live
      → Removed (block ptr old_size) live rest
      → p ≢ null
      → IsValid (self.get w₁) bs' (block p new_size ∷ live)
      → Lent bs' w₁
      → All (SameBytes (self.get w).mem (self.get w₁).mem) bs
      → old_size < new_size
      → Returns (Reallocated Lent self w bs live rest ptr old_size new_size) (
          (if p == null
              then pure null
              else (zoom self (zoom memory (allo_memcpy ops p ptr old_size)) >> pure p))
            w₁)
  copied_to w w₁ bs' ptr old_size new_size p v r ne v₁ l₁ bytes grows =
      let go_on : (p == null) ≡ false = ground arith in
      let apart = (Removed-All _ r v₁.apart.0).0 in
      let new_fits = IsUsed-fits v₁.used.0 v₁.blocks in
      let old_fits = IsUsed-fits (Removed-All _ r v₁.used.1).0 v₁.blocks in
      rw go_on (
        rw
          (bind_at (zoom self (zoom memory (allo_memcpy ops p ptr old_size))) _ (
            copy_run w₁ p ptr old_size (omega arith) (omega arith) (omega arith) (omega arith)
              (ground (arith, apart))))
          (moved w w₁ bs' ptr old_size new_size p v r ne v₁ l₁ bytes grows))

  copied :
      (w : W) {bs live rest : List Block} (ptr old_size new_size : ℕ)
      → IsValid (self.get w) bs live
      → Lent bs w
      → Removed (block ptr old_size) live rest
      → 0 < new_size
      → new_size < 2 ^ 63
      → Returns
          (Reallocated Lent self w bs live rest ptr old_size new_size)
          (realloc_moved self child ops ptr old_size new_size w)
  unfolding realloc_moved
  copied w {bs} {live} {rest} ptr old_size new_size v l r pos small =
      elim (Bool-cases (leb new_size old_size)) [
        | inl shrinks ↦ rw shrinks (
            resized bs (let f = IsUsed-fits (Removed-All _ r v.used).0 v.blocks in omega arith)
              (IsValid-shrink new_size v r pos (leb→le _ _ shrinks)) l (λ i h h'. refl)
              (All-of rest (λ b q h. refl)))
        | inr grows ↦ rw grows (
            Returns-bind (Allocated Lent self child w bs live new_size) _
              (arena_alloc_fn self child new_size) _ w
              (arena_alloc_lem Lent self child lends w new_size v l (omega arith))
              (λ p w₁ a. elim a [
                | none_left e v₁ l₁ full bytes ↦ rw e (
                    refused refl (leb→lt _ _ grows) v₁ l₁ (
                      All-map live
                        (λ b u.
                          IsUsed-SameBytes (self.get w).mem (self.get w₁).mem u v.blocks bytes)
                        v.used))
                | taken at e ne v₁ l₁ ↦
                    copied_to w w₁ bs ptr old_size new_size p v r ne v₁ l₁
                      (All-of bs (λ b q h. rw e refl)) (leb→lt _ _ grows)
                | fresh bs' ne full v₁ l₁ bytes ↦
                    copied_to w w₁ bs' ptr old_size new_size p v r ne v₁ l₁ bytes (leb→lt _ _ grows)
              ]))
      ]

  -- All that is not changed in place.
  elsewhere :
      (w : W) {bs live rest : List Block} (ptr old_size new_size : ℕ)
      → IsValid (self.get w) bs live
      → Lent bs w
      → Removed (block ptr old_size) live rest
      → 0 < new_size
      → new_size < 2 ^ 63
      → ¬ InPlace (self.get w) ptr old_size new_size
      → Returns
          (λ p w'.
            Reallocated Lent self w bs live rest ptr old_size new_size p w'
            × (Extended ptr new_size (self.get w) p (self.get w')
                ⊎ ¬ InPlace (self.get w) ptr old_size new_size))
          (realloc_moved self child ops ptr old_size new_size w)
  elsewhere w ptr old_size new_size v l r pos small not_there =
      Returns-map _ _ (realloc_moved self child ops ptr old_size new_size w)
        (copied w ptr old_size new_size v l r pos small) (λ p w' a. (a, inr not_there))

  -- From a valid state with the block among those handed out, and for a new size from 1 to below
  -- 2 ^ 63, `arena_realloc_fn` ends without a failed assertion: it returns NULL, only for a larger
  -- size, and the block stays as it was, with its bytes; or a block of the new size that takes the
  -- place of the old one, with the bytes that both sizes have, and all other blocks with theirs.
  -- If the block is the last part of the current block and the new size fits there, it stays where
  -- it is and only the offset of the current block changes.
  pub arena_realloc_lem :
      (w : W) {bs live rest : List Block} (ptr old_size new_size : ℕ)
      → IsValid (self.get w) bs live
      → Lent bs w
      → Removed (block ptr old_size) live rest
      → 0 < new_size
      → new_size < 2 ^ 63
      → Returns
          (λ p w'.
            Reallocated Lent self w bs live rest ptr old_size new_size p w'
            × (Extended ptr new_size (self.get w) p (self.get w')
                ⊎ ¬ InPlace (self.get w) ptr old_size new_size))
          (arena_realloc_fn self child ops ptr old_size new_size w)
  unfolding arena_realloc_fn
  arena_realloc_lem w ptr old_size new_size v l r pos small =
      let s = self.get w in
      let block_start = add64 s.ctx.current header in
      let (al, low, fits) = rounded v in
      let limit = v.small in
      let size = v.current_size in
      let (above, below, some_old) = IsUsed-fits (Removed-All _ r v.used).0 v.blocks in
      elim (Bool-cases (add64 ptr old_size == add64 block_start (offset_of s.mem s.ctx.current))) [
        | inr not_last ↦
            rw not_last (elsewhere w ptr old_size new_size v l r pos small (λ h. ground arith))
        | inl last ↦ elim (Bool-cases (leb block_start ptr)) [
          | inr before ↦
              rw (last, before)
                (elsewhere w ptr old_size new_size v l r pos small (λ h. ground arith))
          | inl behind ↦
              elim (Bool-cases
                (leb (add64 (sub64 ptr block_start) new_size) (size_of s.mem s.ctx.current))) [
                  | inr full ↦
                      rw (last, behind, full)
                        (elsewhere w ptr old_size new_size v l r pos small (λ h. ground arith))
                  | inl room ↦
                      Returns-map _ _ (arena_realloc_fn self child ops ptr old_size new_size w)
                        (in_place w ptr old_size new_size v l r pos small last behind room)
                        (λ p w' a. (a.0, inl (a.1)))
                ]
        ]
      ]
