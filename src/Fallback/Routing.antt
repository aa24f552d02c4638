-- ===== src/Fallback/Routing.antt =====
-- Which of the two allocators a pointer goes back to.
use liballo.Base.{
  ℕ, ◌+◌, ◌<◌, ◌^◌, ltb, lt→ltb, ◌≡◌, fun_ext, ◌∙◌, ◌≢◌, ◌⊎◌, subst, inl, inr, none, some, true,
  false, arith, ◌==◌, ==_iff, Bool-cases, Option-cases,
}
use liballo.Base.Cmd.{Returns, ◌>>=◌, ◌>>◌, pure, Slot}
use liballo.Mem.{Ptr, null, Memory, MemOps, Apart, Copied}
use liballo.Mem.Copy.{allo_memcpy_run}
use liballo.Allo.{
  Contains, contains_no, contains_yes, contains_unknown, Allo, allo_contains, allo_realloc,
}
use liballo.Fallback.{
  fallback_alloc_fn, fallback_free_fn, fallback_contains_fn, fallback_realloc_fn, realloc_primary,
}

module _ {W : Type 0} (primary fallback : Allo W) where
  -- In the states of the invariant `I`, which requests to the two allocators keep, `IsMine` tells the
  -- primary allocator's addresses from all others: what the primary one serves is its own, what the
  -- second one serves is not, and `contains` of the primary one answers yes or no by that, with no
  -- effect.
  pub record Tracks (I : W → Type 0) (IsMine : Ptr → Type 0) : Type 0 where
    pub mine :
        (p : Ptr) (w : W) → I w → IsMine p → allo_contains primary p w ≡ some (contains_yes, w)
    pub others :
        (p : Ptr) (w : W) → I w → ¬ IsMine p → allo_contains primary p w ≡ some (contains_no, w)
    pub from_primary :
        (n : ℕ) (w : W)
        → I w
        → n < 2 ^ 64
        → Returns (λ p w'. I w' × ((p ≡ null) ⊎ IsMine p)) (primary.alloc n w)
    pub from_fallback :
        (n : ℕ) (w : W)
        → I w
        → n < 2 ^ 64
        → Returns (λ p w'. I w' × ((p ≡ null) ⊎ ¬ IsMine p)) (fallback.alloc n w)

  -- Who served a request, and who takes the block back in the state `v`.
  pub data Served (n k : ℕ) (v w : W) (p : Ptr) (w' : W) : Type 0 where
    by_nobody :
        (w₁ : W)
        → p ≡ null
        → primary.alloc n w ≡ some (null, w₁)
        → fallback.alloc n w₁ ≡ some (null, w')
        → Served n k v w p w'
    by_primary :
        p ≢ null
        → primary.alloc n w ≡ some (p, w')
        → fallback_free_fn primary fallback p k v ≡ primary.free_mem p k v
        → Served n k v w p w'
    by_fallback :
        (w₁ : W)
        → p ≢ null
        → primary.alloc n w ≡ some (null, w₁)
        → fallback.alloc n w₁ ≡ some (p, w')
        → fallback_free_fn primary fallback p k v ≡ fallback.free_mem p k v
        → Served n k v w p w'

  module _ {I : W → Type 0} {IsMine : Ptr → Type 0} (t : Tracks I IsMine) where
    free-mine :
        (p k : ℕ) (w : W)
        → I w
        → p ≢ null
        → IsMine p
        → fallback_free_fn primary fallback p k w ≡ primary.free_mem p k w
    unfolding fallback_free_fn
    free-mine p k w i ne own =
        let ne' : (p == null) ≡ false = ground arith in rw (ne', t.mine p w i own, ◌>>=◌)

    free-other :
        (p k : ℕ) (w : W)
        → I w
        → p ≢ null
        → ¬ IsMine p
        → fallback_free_fn primary fallback p k w ≡ fallback.free_mem p k w
    unfolding fallback_free_fn
    free-other p k w i ne own =
        let ne' : (p == null) ≡ false = ground arith in rw (ne', t.others p w i own, ◌>>=◌)

    -- The second half, after the primary allocator has refused.
    ask_fallback :
        (n k : ℕ) (v w w₁ : W)
        → I v
        → I w₁
        → n < 2 ^ 64
        → primary.alloc n w ≡ some (null, w₁)
        → Returns (λ p w'. I w' × Served n k v w p w') (fallback.alloc n w₁)
    ask_fallback n k v w w₁ iv i₁ small e = elim (Option-cases (fallback.alloc n w₁)) [
      | inl e₁ ↦ absurd (
          subst (Returns (λ p w'. I w' × ((p ≡ null) ⊎ ¬ IsMine p))) e₁
            (t.from_fallback n w₁ i₁ small))
      | inr ((p, w₂), e₁) ↦
          let (i₂, whose) =
            subst (Returns (λ p w'. I w' × ((p ≡ null) ⊎ ¬ IsMine p))) e₁
              (t.from_fallback n w₁ i₁ small) in
          rw e₁ (
            i₂,
            elim (Bool-cases (p == null)) [
              | inl refuses ↦ let z = (==_iff p null).0 refuses in by_nobody w₁ z e (rw (← z) e₁)
              | inr given ↦
                  let ne : p ≢ null = ground (arith, given) in
                  by_fallback w₁ ne e e₁
                    (free-other p k v iv ne (elim whose [ inl z ↦ absurd (ne z) | inr o ↦ o ]))
            ],
          )
    ]

    -- Where the primary allocator tracks its addresses, `fallback_alloc_fn` ends in a state of the
    -- invariant. Either both allocators refused and it returns NULL, or it returns the primary
    -- allocator's block, or, when that one refused, the second one's; and in every state of the
    -- invariant `fallback_free_fn` of that block is the release by the allocator that served it.
    pub fallback_routing :
        (n k : ℕ) (v w : W)
        → I v
        → I w
        → n < 2 ^ 64
        → Returns (λ p w'. I w' × Served n k v w p w') (fallback_alloc_fn primary fallback n w)
    unfolding fallback_alloc_fn
    fallback_routing n k v w iv i small = elim (Option-cases (primary.alloc n w)) [
      | inl e ↦
          absurd (
            subst (Returns (λ p w'. I w' × ((p ≡ null) ⊎ IsMine p))) e (t.from_primary n w i small))
      | inr ((q, w₁), e) ↦
          let (i₁, whose) =
            subst (Returns (λ p w'. I w' × ((p ≡ null) ⊎ IsMine p))) e
              (t.from_primary n w i small) in
          elim (Bool-cases (q == null)) [
            | inl refused ↦
                rw (e, ◌>>=◌)
                  (rw refused
                    (ask_fallback n k v w w₁ iv i₁ small (rw (← (==_iff q null).0 refused) e)))
            | inr given ↦
                let ne : q ≢ null = ground (arith, given) in
                rw (e, ◌>>=◌)
                  (rw given (
                    i₁,
                    by_primary ne e
                        (free-mine q k v iv ne (elim whose [ inl z ↦ absurd (ne z) | inr o ↦ o ])),
                  ))
          ]
    ]

  -- With a primary allocator that does not track (its `contains` is NULL), a block that the second
  -- one served goes back to the primary one, which does not own it.
  pub fallback_misroutes :
      (n p k : ℕ) (w w₁ w' : W)
      → primary.contains ≡ none
      → primary.alloc n w ≡ some (null, w₁)
      → fallback.alloc n w₁ ≡ some (p, w')
      → p ≢ null
      → (fallback_alloc_fn primary fallback n w ≡ some (p, w'))
        × (fallback_free_fn primary fallback p k ≡ primary.free_mem p k)
  unfolding fallback_alloc_fn fallback_free_fn allo_contains
  fallback_misroutes n p k w w₁ w' untracked refused served ne =
      let ne' : (p == null) ≡ false = ground arith in
      (rw (refused, ◌>>=◌) served, fun_ext λ x. rw (ne', untracked))

  -- The more definite of two answers, yes before unknown before no.
  unfoldable pub join : Contains → Contains → Contains
  join contains_yes b = contains_yes
  join contains_no b = b
  join contains_unknown contains_yes = contains_yes
  join contains_unknown contains_no = contains_unknown
  join contains_unknown contains_unknown = contains_unknown

  -- `fallback_contains_fn` joins the answers of the two allocators.
  fallback_contains-join :
      (p : Ptr) (a b : Contains) (w : W)
      → allo_contains primary p w ≡ some (a, w)
      → allo_contains fallback p w ≡ some (b, w)
      → fallback_contains_fn primary fallback p w ≡ some (join a b, w)
  unfolding fallback_contains_fn join
  fallback_contains-join p contains_yes b w ha hb = rw (ha, ◌>>=◌)
  fallback_contains-join p contains_no contains_yes w ha hb = rw (ha, ◌>>=◌) (rw (hb, ◌>>=◌))
  fallback_contains-join p contains_no contains_no w ha hb = rw (ha, ◌>>=◌) (rw (hb, ◌>>=◌))
  fallback_contains-join p contains_no contains_unknown w ha hb = rw (ha, ◌>>=◌) (rw (hb, ◌>>=◌))
  fallback_contains-join p contains_unknown contains_yes w ha hb = rw (ha, ◌>>=◌) (rw (hb, ◌>>=◌))
  fallback_contains-join p contains_unknown contains_no w ha hb = rw (ha, ◌>>=◌) (rw (hb, ◌>>=◌))
  fallback_contains-join p contains_unknown contains_unknown w ha hb =
      rw (ha, ◌>>=◌) (rw (hb, ◌>>=◌))

  module _ (ops : MemOps) (memory : Slot W Memory) {I : W → Type 0} {IsMine : Ptr → Type 0}
      (t : Tracks I IsMine) (p old_size new_size : ℕ) (ne : p ≢ null) (own : IsMine p) (w w₁ : W)
      (i : I w) (grows : old_size < new_size)
      (refused : primary.realloc p old_size new_size w ≡ some (null, w₁)) where
    realloc-primary :
        fallback_realloc_fn primary fallback ops memory p old_size new_size w
        ≡ realloc_primary primary fallback ops memory p old_size new_size w
    unfolding fallback_realloc_fn
    realloc-primary =
        let ne' : (p == null) ≡ false = ground arith in rw (ne', t.mine p w i own, ◌>>=◌)

    allo_realloc-refused : allo_realloc primary p old_size new_size w ≡ some (null, w₁)
    unfolding allo_realloc
    allo_realloc-refused =
        let some_size : (new_size == 0) ≡ false = ground arith in
        let ne' : (p == null) ≡ false = ground arith in
        let changed : (old_size == new_size) ≡ false = ground arith in
        rw (some_size, ne', changed) refused

    -- A block of the primary allocator that it cannot grow moves to the second one, if that has
    -- room: the old bytes are copied, and the old block goes back to the primary allocator.
    fallback_realloc_moves :
        (q : ℕ) (w₂ : W)
        → fallback.alloc new_size w₁ ≡ some (q, w₂)
        → q ≢ null
        → q + old_size < 2 ^ 64
        → p + old_size < 2 ^ 64
        → Apart q old_size p old_size
        → (m : Memory) × (fallback_realloc_fn primary fallback ops memory p old_size new_size w
            ≡ (primary.free_mem p old_size >> pure q) (memory.put m w₂))
          × Copied q p old_size (memory.get w₂) m
    unfolding realloc_primary
    fallback_realloc_moves q w₂ served nq fq fp apart =
        let got : (q == null) ≡ false = ground arith in
        let less : ltb old_size new_size ≡ true = lt→ltb _ _ grows in
        let copy = allo_memcpy_run ops q p old_size (memory.get w₂) nq ne fq fp apart in
        (
          ops.memcpy q p old_size (memory.get w₂),
          realloc-primary
              ∙ rw (allo_realloc-refused, ◌>>=◌)
                  (rw (served, ◌>>=◌) (rw (got, less, copy, ◌>>=◌, ◌>>◌))),
          ops.memcpy_lem q p old_size (memory.get w₂) (omega arith) (omega arith) apart,
        )

    -- If the second one has no room either, the answer is NULL, and neither a copy nor a release
    -- is made.
    fallback_realloc_fails :
        (w₂ : W)
        → fallback.alloc new_size w₁ ≡ some (null, w₂)
        → fallback_realloc_fn primary fallback ops memory p old_size new_size w ≡ some (null, w₂)
    unfolding realloc_primary
    fallback_realloc_fails w₂ full =
        realloc-primary ∙ rw (allo_realloc-refused, ◌>>=◌) (rw (full, ◌>>=◌))
