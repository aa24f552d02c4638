-- ===== src/Arena/Make.antt =====
-- The life of an arena of src/allo_arena.c: its factory, and its destruction in any valid state.
use liballo.Base.{
  ℕ, ◌+◌, ◌%◌, ◌^◌, ◌<◌, ◌≡◌, refl, ap, subst, ◌∙◌, ◌≢◌, ◌⊎◌, inl, inr, false, Option, none, some,
  List, [], ◌∷◌, arith, length, ◌==◌, ==_iff, Bool-cases, Option-cases, add64,
}
use liballo.Base.Cmd.{Slot, Returns, Returns-bind, ◌>>=◌}
use liballo.Mem.{Ptr, null, MemOps}
use liballo.Blocks.{Block, block, here}
use liballo.Allo.{Error, ok, err_nomem, err_inval, Allo}
use liballo.Arena.{
  State, header, size_of, offset_of, new_arena_block, make_with_child, make_arena_allocator,
  arena_allocator, arena_destroy_fn,
}
use liballo.Arena.Chain.{end, link, first}
use liballo.Arena.Release.{TakesBack, arena_destroy_lem}
use liballo.Arena.Inv.{Loan, Lends, IsValid}
use liballo.Arena.Insert.{fresh_block}

-- A state with a single block that nothing was taken from.
abbrev pub one_block : Ptr → ℕ → State → State
one_block p size s = record (fresh_block p size s) {
  ctx = record { first = p; current = p; block_size = size };
}

pub IsValid-one :
    (s : State) (p size : ℕ)
    → p ≢ null
    → p % 8 ≡ 0
    → p + (header + size) < 2 ^ 64
    → size < 2 ^ 63
    → IsValid (one_block p size s) (block p (header + size) ∷ []) []
IsValid-one s p size ne aligned fits small =
    let m = (fresh_block p size s).mem in
    let next : m.word p ≡ null = ground arith in
    let whole : size_of m p ≡ size = ground arith in
    let empty : offset_of m p ≡ 0 = ground arith in
    record {
      chain = link ne (omega arith) (rw whole refl) (rw next end);
      current = first refl;
      current_size = whole;
      small = small;
      blocks = (record { aligned = aligned; filled = rw empty (omega arith); fits = fits }, tt);
      disjoint = (tt, tt);
      used = tt;
      apart = tt;
    }

module _ {W : Type 0} (Lent : List Block → W → Type 0) (self : Slot W State) (ops : MemOps)
    (steps : ℕ) where
  -- What the factory may answer.
  pub data Made (child : Option (Allo W)) (out block_size : ℕ) (w : W)
      : Error × Option (Allo W) → W → Type 0 where
    rejected :
        (out ≡ null) ⊎ ((block_size ≡ 0) ⊎ (child ≡ none))
        → Made child out block_size w (err_inval, none) w
    no_memory :
        {w' : W} (c : Allo W) (w₁ : W)
        → out ≢ null
        → block_size ≢ 0
        → child ≡ some c
        → Lent [] w₁
        → ¬ Returns (λ p w₂. p ≢ null) (c.alloc (header + block_size) w₁)
        → Lent [] w'
        → Made child out block_size w (err_nomem, none) w'
    made :
        {w' : W} (c : Allo W) (p : Ptr)
        → out ≢ null
        → block_size ≢ 0
        → child ≡ some c
        → IsValid (self.get w') (block p (header + block_size) ∷ []) []
        → Lent (block p (header + block_size) ∷ []) w'
        → (self.get w').ctx.block_size ≡ block_size
        → offset_of (self.get w').mem (self.get w').ctx.current ≡ 0
        → Made child out block_size w (ok, some (arena_allocator self c ops steps)) w'

  made_in :
      (w₀ w₁ : W) {s : State} (child : Allo W) (out p block_size : ℕ)
      → out ≢ null
      → block_size ≢ 0
      → IsValid s (block p (header + block_size) ∷ []) []
      → ((s : State) (bs : List Block) (w : W) → Lent bs w → Lent bs (self.put s w))
      → Lent (block p (header + block_size) ∷ []) w₁
      → s.ctx.block_size ≡ block_size
      → offset_of s.mem s.ctx.current ≡ 0
      → Made
          (some child)
          out
          block_size
          w₀
          (ok, some (arena_allocator self child ops steps))
          (self.put s w₁)
  made_in w₀ w₁ {s} child out p block_size given some_size v apart l whole empty =
      let e = self.get-put s w₁ in
      made child p given some_size refl (rw e v) (apart s _ w₁ l) (rw e whole) (rw e empty)

  module _ (child : Allo W) (lends : Lends Lent self child) where
    -- What `new_arena_block` may answer when nothing is lent.
    data FirstBlock (size : ℕ) (w : W) (p : Ptr) (w' : W) : Type 0 where
      no_block :
          p ≡ null
          → Lent [] w'
          → ¬ Returns (λ q w₂. q ≢ null) (child.alloc (header + size) w)
          → FirstBlock size w p w'
      new_block :
          (w₁ : W)
          → w' ≡ self.put (fresh_block p size (self.get w₁)) w₁
          → (self.get w₁).ctx ≡ (self.get w).ctx
          → p ≢ null
          → p % 8 ≡ 0
          → p + (header + size) < 2 ^ 64
          → Lent (block p (header + size) ∷ []) w₁
          → FirstBlock size w p w'

    first_block :
        (size : ℕ) (w : W)
        → Lent [] w
        → size < 2 ^ 63
        → Returns (FirstBlock size w) (new_arena_block self child size w)
    unfolding new_arena_block
    first_block size w l small =
        let sum : add64 header size ≡ header + size = omega arith in
        elim (Option-cases (child.alloc (header + size) w)) [
          | inl e ↦ absurd (
              subst (Returns (Loan Lent self (header + size) [] w)) e
                (lends.alloc _ [] w (omega arith) l))
          | inr ((p, w₁), e) ↦
              let (same, kept, out) =
                subst (Returns (Loan Lent self (header + size) [] w)) e
                  (lends.alloc _ [] w (omega arith) l) in
              elim out [
                | inl (null_p, l₁) ↦
                    rw (sum, e, null_p, ◌>>=◌)
                      (no_block refl l₁ (λ h. subst (Returns (λ q w₂. q ≢ null)) e h null_p))
                | inr (ne, aligned, fits, away, l₁) ↦
                    let go_on : (p == null) ≡ false = ground arith in
                    rw (sum, e, ◌>>=◌)
                      (rw go_on (new_block w₁ refl same ne aligned fits (l₁ _ here)))
              ]
        ]

    with_child :
        (out block_size : ℕ) (w₀ w : W)
        → out ≢ null
        → block_size ≢ 0
        → Lent [] w
        → block_size < 2 ^ 63
        → Returns
            (Made (some child) out block_size w₀)
            (make_with_child self child ops steps block_size w)
    unfolding make_with_child
    with_child out block_size w₀ w given some_size l small =
        let s₀ : State = record (self.get w) {
          ctx = record { first = null; current = null; block_size = block_size };
        } in
        let w₂ = self.put s₀ w in
        Returns-bind (FirstBlock block_size w₂) _ (new_arena_block self child block_size) _ w₂
          (first_block block_size w₂ (lends.apart s₀ [] w l) small)
          (λ p w' r. elim r [
            | no_block e l' refuses ↦ rw e (
                no_memory child w₂ given some_size refl (lends.apart s₀ [] w l) refuses
                  (lends.apart _ [] w' l'))
            | new_block w₁ e same ne aligned fits l₁ ↦
                let go_on : (p == null) ≡ false = ground arith in
                let s₁ = self.get w₁ in
                let f = fresh_block p block_size s₁ in
                let g : State = record f { ctx = record (f.ctx) { first = p } } in
                let whole : s₁.ctx.block_size ≡ block_size =
                  ap (λ c. c.block_size) (same ∙ ap (λ s. s.ctx) (self.get-put s₀ w)) in
                rw (go_on, e, self.get-put f w₁)
                  (rw (self.put-put g f w₁, self.get-put g w₁)
                    (rw (self.put-put _ g w₁, whole)
                      (made_in w₀ w₁ child out p block_size given some_size
                        (IsValid-one s₁ p block_size ne aligned fits small) lends.apart l₁ refl
                        (ground arith))))
          ])

  -- For a block size below 2 ^ 63 the factory ends: it rejects a missing argument or size 0 and
  -- changes nothing; or it reports that there is no memory, with nothing lent, where the child has
  -- refused a block; or the arena that it makes is in a valid state, with one empty block, and just
  -- that block is lent by the child.
  pub make_arena_lem :
      (child : Option (Allo W)) (out block_size : ℕ) (w : W)
      → ((c : Allo W) → child ≡ some c → Lends Lent self c)
      → Lent [] w
      → block_size < 2 ^ 63
      → Returns
          (Made child out block_size w)
          (make_arena_allocator self ops steps out child block_size w)
  unfolding make_arena_allocator
  make_arena_lem none out block_size w lends l small = rejected (inr (inr refl))
  make_arena_lem (some c) out block_size w lends l small = elim (Bool-cases (out == null)) [
    | inl none_out ↦ rw none_out (rejected (inl ((==_iff _ _).0 none_out)))
    | inr given ↦ elim (Bool-cases (block_size == 0)) [
      | inl empty ↦ rw (given, empty) (rejected (inr (inl ((==_iff _ _).0 empty))))
      | inr positive ↦
          rw (given, positive)
            (with_child c (lends c refl) out block_size w w (ground (arith, given))
              (ground (arith, positive)) l small)
    ]
  ]

  -- In any valid state `arena_destroy_fn` ends, with more steps than the chain has blocks, and no
  -- block is lent by the child any longer.
  pub arena_destroy-valid :
      (child : Allo W)
      → Lends Lent self child
      → (w : W) {bs live : List Block} → IsValid (self.get w) bs live
      → Lent bs w
      → length bs < steps
      → Returns (λ _ w'. Lent [] w') (arena_destroy_fn self child steps w)
  unfolding TakesBack
  arena_destroy-valid child lends w v l h =
      arena_destroy_lem self child Lent lends.release steps w l v.chain v.disjoint h
