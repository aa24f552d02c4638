-- ===== src/Buddy/Realloc.antt =====
-- `buddy_realloc_fn`: the new block gets the bytes of the old one.
use liballo.Base.{
  ℕ, ◌+◌, ◌-◌, ◌*◌, ◌^◌, ◌≤◌, ◌<◌, ◌≡◌, refl, sym, ap, ◌∙◌, ◌≢◌, ◌⊎◌, inl, inr, true, false, List,
  some, arith, ltb, ◌==◌, ==_refl, if◌then◌else◌, subst,
}
use liballo.Base.Cmd.{pure, ◌>>=◌, Returns, Returns-bind, zoom}
use liballo.Mem.Copy.{allo_memcpy_run}
use liballo.Mem.{Ptr, null, Memory, MemOps, Copied, InRange, Apart, allo_memcpy}
use liballo.Buddy.{State, memory, in_buffer, buddy_alloc_fn, buddy_free_fn, buddy_realloc_fn}
use liballo.Buddy.Links.{Linked}
use liballo.Buddy.Inv.{addr, addrs, in_use, IsValid}
use liballo.Buddy.Steps.{plus, minus}
use liballo.Buddy.Alloc.{TooLarge, Fits, Outcome, buddy_alloc_lem}
use liballo.Buddy.Free.{buddy_free_lem, in_buffer_lem}
use liballo.Buddy.Apart.{blocks_apart_lem}

-- The invariant reads the words of the memory only.
IsValid-bytes :
    {s : State} {depth : ℕ} {free : ℕ → List ℕ} {used : ℕ → ℕ → ℕ} (m : Memory)
    → m.word ≡ s.mem.word
    → IsValid s depth free used
    → IsValid (record s { mem = m }) depth free used
IsValid-bytes {s} {depth} {free} m e v = record {
  ne_null = v.ne_null;
  max_order = v.max_order;
  small = v.small;
  total_size = v.total_size;
  min = v.min;
  fits = v.fits;
  lists = λ l h.
      subst (λ w. Linked w (s.ctx.heads l) (addrs s.ctx.buffer depth l (free l))) (sym e)
        (v.lists l h);
  marks = v.marks;
  bytes = v.bytes;
  tiles = v.tiles;
  merged = v.merged;
}

-- The second half of a reallocation, from the state with both blocks.
module _ (ops : MemOps) (s : State) (depth : ℕ) (free : ℕ → List ℕ) (used : ℕ → ℕ → ℕ)
    (v : IsValid s depth free used) (l i m k old_size n : ℕ) (out : 0 < used l i)
    (there : 0 < used m k) (other : m ≡ l → k ≢ i) (small : old_size < 2 ^ 64)
    (f : Fits depth old_size l) (le : n ≤ old_size) (le' : n ≤ 32 * 2 ^ (depth - m)) (base : Ptr)
    (b : s.ctx.buffer ≡ base) where
  abbrev ptr : Ptr
  ptr = addr base depth l i

  abbrev new_ptr : Ptr
  new_ptr = addr base depth m k

  abbrev copied_mem : Memory
  copied_mem = ops.memcpy new_ptr ptr n s.mem

  ranges :
      Apart new_ptr n ptr n
      × (new_ptr + n ≤ s.ctx.buffer + 2 ^ (depth + 5))
      × (ptr + n ≤ s.ctx.buffer + 2 ^ (depth + 5))
  ranges =
      let both = blocks_apart_lem s depth m k l i free used v (omega arith) (omega arith) other in
      let old =
        blocks_apart_lem s depth l i m k free used v (omega arith) (omega arith)
          (λ e e'. other (sym e) (sym e')) in
      (ground (arith, both, f.holds, b), omega (arith, both, b), omega (arith, old, f.holds, b))

  memcpy-Copied : Copied new_ptr ptr n s.mem copied_mem
  memcpy-Copied =
      ops.memcpy_lem new_ptr ptr n s.mem (omega (arith, ranges, v.fits))
        (omega (arith, ranges, v.fits)) ranges.0

  copy_run :
      zoom memory (allo_memcpy ops new_ptr ptr n) s ≡ some (tt, record s { mem = copied_mem })
  copy_run =
      rw
        (
          zoom,
          allo_memcpy_run ops new_ptr ptr n s.mem (omega (arith, v.ne_null, b))
              (omega (arith, v.ne_null, b)) (omega (arith, ranges, v.fits))
              (omega (arith, ranges, v.fits)) ranges.0,
        )
        refl

  free_run :
      Returns
        (λ _ s'.
          (free' : ℕ → List ℕ) × IsValid s' depth free' (minus used l i)
          × (s'.mem.byte ≡ copied_mem.byte))
        (buddy_free_fn ptr old_size (record s { mem = copied_mem }))
  free_run =
      subst
        (λ x.
          Returns
            (λ _ s'.
              (free' : ℕ → List ℕ) × IsValid s' depth free' (minus used l i)
              × (s'.mem.byte ≡ copied_mem.byte))
            (buddy_free_fn (addr x depth l i) old_size (record s { mem = copied_mem })))
        b
        (buddy_free_lem (record s { mem = copied_mem }) depth l i old_size free used
          (IsValid-bytes copied_mem memcpy-Copied.word v) out small f)

-- The block that a reallocation moves to, with the bytes that both sizes have.
record Resized (s : State) (depth : ℕ) (used : ℕ → ℕ → ℕ) (l i old_size new_size : ℕ) (q : Ptr)
    (s' : State) : Type 0 where
  pub level : ℕ
  pub index : ℕ
  pub free : ℕ → List ℕ
  pub at : q ≡ addr s.ctx.buffer depth level index
  pub fresh : used level index ≡ 0
  pub fits : Fits depth new_size level
  pub keeps : IsValid s' depth free (minus (plus used level index) l i)
  pub kept :
      (j : ℕ)
      → j < old_size
      → j < new_size
      → s'.mem.byte (q + j) ≡ s.mem.byte (addr s.ctx.buffer depth l i + j)
  pub others : (p : Ptr) → ¬ InRange q (32 * 2 ^ (depth - level)) p → s'.mem.byte p ≡ s.mem.byte p

least_size :
    (a b : ℕ)
    → ((if ltb a b then a else b) ≤ a)
      × ((if ltb a b then a else b) ≤ b)
      × ((j : ℕ) → j < a → j < b → j < (if ltb a b then a else b))
least_size a b = (ground arith, ground arith, λ j h h'. ground arith)

fresh_other : (used : ℕ → ℕ → ℕ) (m k l i : ℕ) → used m k ≡ 0 → 0 < used l i → m ≡ l → k ≢ i
fresh_other used m k l i fresh out e e' = omega (arith, ap (λ x. used x k) e, ap (used l) e')

realloc_run :
    (ops : MemOps) (s : State) (ptr : Ptr) (old_size new_size : ℕ)
    → ptr ≢ null
    → 0 < new_size
    → in_buffer s.ctx ptr ≡ true
    → buddy_realloc_fn ops ptr old_size new_size s
      ≡ (buddy_alloc_fn new_size >>= λ q.
            if q == null
            then pure null
            else (zoom memory
                  (allo_memcpy ops q ptr (if ltb old_size new_size then old_size else new_size))
                >>= λ _. buddy_free_fn ptr old_size >>= λ _. pure q))
          s
unfolding buddy_realloc_fn
realloc_run ops s ptr old_size new_size ne pos inside =
    let some_ptr : (ptr == null) ≡ false = ground arith in
    let some_size : (new_size == 0) ≡ false = ground arith in rw (some_ptr, inside, some_size) refl

-- To move a block that is handed out to another size above 0 returns. The result is NULL with nothing
-- changed if no free block holds the new size, and only then. Otherwise the result is a block that was
-- not handed out before, of the new size's level, with the first bytes of the old block, as many as
-- both sizes have; the old block is handed out no longer, no byte outside the new block changes but for
-- the links, which this memory keeps apart from the bytes, and the state is valid.
buddy_realloc_lem :
    (ops : MemOps) (s : State) (depth l i old_size new_size : ℕ) (free : ℕ → List ℕ)
    (used : ℕ → ℕ → ℕ)
    → IsValid s depth free used
    → 0 < used l i
    → old_size < 2 ^ 64
    → Fits depth old_size l
    → 0 < new_size
    → new_size < 2 ^ 64
    → Returns
        (λ q s'.
          ((q ≡ null) × (s' ≡ s) × TooLarge depth free new_size)
          ⊎ (Resized s depth used l i old_size new_size q s' × ¬ TooLarge depth free new_size))
        (buddy_realloc_fn ops (addr s.ctx.buffer depth l i) old_size new_size s)
buddy_realloc_lem ops s depth l i old_size new_size free used v out h f pos h' =
    let ptr = addr s.ctx.buffer depth l i in
    let p : 0 < in_use free used l i = omega arith in
    rw
      (realloc_run ops s ptr old_size new_size (omega (arith, v.ne_null)) pos
        (in_buffer_lem s depth l i free used v p))
      (Returns-bind (Outcome s depth free used new_size) _ (buddy_alloc_fn new_size) _ s
        (buddy_alloc_lem s depth new_size free used v h')
        (λ q s' r. elim r [
          | inl (e, same, large) ↦ rw (e, same) (inl (refl, refl, large))
          | inr (hd, enough) ↦
              let new_ptr : (q == null) ≡ false = ground (arith, hd.ne_null) in
              let m = hd.level in
              let k = hd.index in
              let n = if ltb old_size new_size then old_size else new_size in
              let (le, le', least) = least_size old_size new_size in
              let used' = plus used m k in
              let there : 0 < used' m k = ground (arith, ==_refl m, ==_refl k) in
              let other : m ≡ l → k ≢ i = λ e e'. fresh_other used m k l i hd.fresh out e e' in
              let out' : 0 < used' l i = omega arith in
              let small_n : n ≤ 32 * 2 ^ (depth - m) = omega (arith, hd.fits.holds) in
              let copy =
                memcpy-Copied ops s' depth hd.free used' hd.keeps l i m k old_size n out' there
                  other h f le small_n s.ctx.buffer hd.same_buffer in
              let run =
                copy_run ops s' depth hd.free used' hd.keeps l i m k old_size n out' there other h f
                  le small_n s.ctx.buffer hd.same_buffer in
              let freed =
                free_run ops s' depth hd.free used' hd.keeps l i m k old_size n out' there other h f
                  le small_n s.ctx.buffer hd.same_buffer in
              let copied = record s' {
                mem = ops.memcpy (addr s.ctx.buffer depth m k) ptr n s'.mem;
              } in
              rw (new_ptr, hd.at)
                (Returns-bind (λ _ x. x ≡ copied) _
                  (zoom memory (allo_memcpy ops (addr s.ctx.buffer depth m k) ptr n)) _ s'
                  (rw run refl)
                  (λ _ x e. rw e (
                    Returns-bind _ _ (buddy_free_fn ptr old_size) _ copied freed
                      (λ _ s'' (free', w, bytes). inr (
                        record {
                          level = m;
                          index = k;
                          free = free';
                          at = refl;
                          fresh = hd.fresh;
                          fits = hd.fits;
                          keeps = w;
                          kept = λ j lt lt'.
                              ap (λ f. f (addr s.ctx.buffer depth m k + j)) bytes
                              ∙ copy.copied j (least j lt lt')
                              ∙ ap (λ f. f (addr s.ctx.buffer depth l i + j)) hd.same_bytes;
                          others = λ x far.
                              ap (λ f. f x) bytes
                              ∙ copy.same x (λ near. far (omega arith))
                              ∙ ap (λ f. f x) hd.same_bytes;
                        },
                        enough,
                      )))))
        ]))
