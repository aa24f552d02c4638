-- ===== src/Pool/Make.antt =====
-- `make_pool_allocator` sets up a valid pool in which every block is free.
use liballo.Base.{
  ℕ, ◌+◌, ◌*◌, ◌^◌, ◌%◌, ◌≤◌, ◌<◌, ◌≡◌, refl, ◌≢◌, ◌⊎◌, inl, inr, true, false, some, none, Option,
  [], arith, ltb, ◌==◌, if◌then◌else◌, Bool-cases, Option-cases, subst, mul64, ==_iff,
}
use liballo.Base.Cmd.{Returns, Slot, Returns-bind}
use liballo.Mem.{Ptr, null}
use liballo.Mem.Align.{align_up_eight}
use liballo.Allo.Contract.{Provides, IsBlock}
use liballo.Allo.{Error, ok, err_nomem, err_inval, Allo}
use liballo.Pool.{
  State, prepare, init, bad_arguments, actual_size, pool_buffer, make_pool_allocator,
  pool_allocator,
}
use liballo.Pool.Inv.{IsValid}
use liballo.Pool.Init.{upto, init-IsValid}

-- The size of a block is a multiple of 8 that holds the free node and the requested size.
pub actual_size_lem :
    (n : ℕ)
    → n + 8 ≤ 2 ^ 64
    → (8 ≤ actual_size n) × (n ≤ actual_size n) × (actual_size n % 8 ≡ 0) × (actual_size n < n + 16)
unfolding actual_size
actual_size_lem n h = ground (arith, align_up_eight (if ltb n 8 then 8 else n))

bad_arguments-true :
    (out buffer block_size total : ℕ)
    → bad_arguments out false buffer block_size total ≡ true
    → (out ≡ null) ⊎ (block_size ≡ 0) ⊎ (total ≡ 0)
unfolding bad_arguments
bad_arguments-true out buffer block_size total h = ground arith

bad_arguments-false :
    (out buffer block_size total : ℕ)
    → bad_arguments out false buffer block_size total ≡ false
    → (out ≢ null) × (block_size ≢ 0) × (total ≢ 0)
unfolding bad_arguments
bad_arguments-false out buffer block_size total h = ground arith

total-pos :
    (out buffer block_size total : ℕ)
    → bad_arguments out false buffer block_size total ≡ false
    → 0 < total
unfolding bad_arguments
total-pos out buffer block_size total h = ground arith

module _ {W : Type 0} (self : Slot W State) (child : Allo W) where
  -- What `make_pool_allocator` may answer.
  pub data Made (out buffer block_size total : ℕ) (w : W)
      : Error × Option (Allo W) → W → Type 0 where
    invalid :
        (out ≡ null) ⊎ (block_size ≡ 0) ⊎ (total ≡ 0)
        → Made out buffer block_size total w (err_inval, none) w
    no_memory :
        {w' : W}
        → out ≢ null
        → block_size ≢ 0
        → total ≢ 0
        → buffer ≡ null
        → ¬ Returns
            (λ p w₂. p ≢ null)
            (child.alloc
              (total * actual_size block_size)
              (self.put (prepare (actual_size block_size) total true (self.get w)) w))
        → Made out buffer block_size total w (err_nomem, none) w'
    made :
        {w' : W}
        → out ≢ null
        → block_size ≢ 0
        → total ≢ 0
        → IsValid (self.get w') (upto 0 total) []
        → block_size ≤ (self.get w').ctx.block_size
        → (buffer ≡ null) ⊎ ((self.get w').ctx.buffer ≡ buffer)
        → Made out buffer block_size total w (ok, some (pool_allocator self (some child))) w'

  module _ {I : W → Type 0} (p : Provides I self child) where
    start-Made :
        (out buffer block_size total start : ℕ) (w w' : W)
        → block_size + 8 ≤ 2 ^ 64
        → start ≢ null
        → start + total * actual_size block_size < 2 ^ 64
        → out ≢ null
        → block_size ≢ 0
        → 0 < total
        → (buffer ≢ null → start ≡ buffer)
        → Made out buffer block_size total w
            (ok, some (pool_allocator self (some child)))
            (self.put (init start (actual_size block_size) total (buffer == null) (self.get w')) w')
    unfolding init
    start-Made out buffer block_size total start w w' small ne fits some_out some_size pos given =
        let size = actual_size_lem block_size small in
        let e =
          self.get-put (init start (actual_size block_size) total (buffer == null) (self.get w'))
            w' in
        made some_out some_size (omega arith)
          (rw e (
            init-IsValid start (actual_size block_size) total (buffer == null) (self.get w') ne
              size.0 size.2 fits pos))
          (rw e size.1) (rw e (from_caller (Bool-cases (buffer == null))))
      where
        from_caller :
            ((buffer == null) ≡ true) ⊎ ((buffer == null) ≡ false)
            → (buffer ≡ null) ⊎ (start ≡ buffer)
        from_caller (inl t) = inl ((==_iff _ _).0 t)
        from_caller (inr t) = inr (given (ground (arith, t)))

    abbrev Answered : ℕ → Ptr → W → Type 0
    Answered n q w' = I w' × ((q ≡ null) ⊎ IsBlock n q)

    -- Where the buffer comes from: the caller, or the child.
    abbrev Start : (buffer size : ℕ) → (w : W) → Ptr → W → Type 0
    Start buffer size w start w' =
        ((start ≡ null) × (buffer ≡ null) × ¬ Returns (λ p w₂. p ≢ null) (child.alloc size w))
        ⊎ ((start ≢ null) × (start + size < 2 ^ 64) × (buffer ≢ null → start ≡ buffer))

    pool_buffer-Start :
        (buffer size : ℕ) (w : W)
        → I w
        → (buffer ≢ null → buffer + size < 2 ^ 64)
        → Returns (Start buffer size w) (pool_buffer self (some child) buffer size w)
    unfolding pool_buffer
    pool_buffer-Start buffer size w i fits = elim (Bool-cases (buffer == null)) [
      | inl none_given ↦ rw none_given (elim (Option-cases (child.alloc size w)) [
        | inl e ↦ absurd (subst (Returns (Answered size)) e (p.alloc_ends size w i))
        | inr ((start, w₁), e) ↦
            let answer = subst (Returns (Answered size)) e (p.alloc_ends size w i) in
            elim (answer.1) [
              | inl n ↦ rw e (
                  inl (n, (==_iff _ _).0 none_given, λ h. subst (Returns (λ q w₂. q ≢ null)) e h n))
              | inr b ↦
                  rw e (inr (b.ne_null, b.fits, λ ne. absurd (ne ((==_iff _ _).0 none_given))))
            ]
      ])
      | inr given ↦ rw given (inr (ground arith, fits (ground arith), λ ne. refl))
    ]

    -- With a child that provides, and where no sum or product of the sizes wraps,
    -- `make_pool_allocator` returns. It rejects a NULL `out` and sizes of 0, and only those, with
    -- nothing changed; or, where the caller gives no buffer, it reports missing memory, and the child
    -- was asked for exactly the whole buffer and had none; or it sets up a valid pool: every block is
    -- free, a block has at least the requested size, and a buffer of the caller's is used.
    pub make_pool_lem :
        (out buffer block_size total : ℕ) (w : W)
        → I w
        → block_size + 8 ≤ 2 ^ 64
        → total * actual_size block_size < 2 ^ 64
        → (buffer ≢ null → buffer + total * actual_size block_size < 2 ^ 64)
        → Returns
            (Made out buffer block_size total w)
            (make_pool_allocator self out (some child) buffer block_size total w)
    unfolding make_pool_allocator
    make_pool_lem out buffer block_size total w i small product fits =
        elim (Bool-cases (bad_arguments out false buffer block_size total)) [
          | inl bad ↦ rw bad (invalid (bad_arguments-true out buffer block_size total bad))
          | inr good ↦
              let checked = bad_arguments-false out buffer block_size total good in
              rw good (
                Returns-bind (Start buffer (total * size) before) _
                  (pool_buffer self (some child) buffer (mul64 size total)) _ _
                  (rw product_size
                    (pool_buffer-Start buffer (total * size) before (p.apart _ w i) fits))
                  (λ start w' st. elim st [
                    | inl (e, none_given, refused) ↦
                        let stop : (start == null) ≡ true = ground arith in
                        rw stop (
                          no_memory (checked.0) (checked.1) (checked.2) none_given
                            (rw none_given at refused))
                    | inr (ne, room, given) ↦
                        let go_on : (start == null) ≡ false = ground arith in
                        rw go_on (
                          start-Made out buffer block_size total start w w' small ne room
                            (checked.0) (checked.1) (total-pos out buffer block_size total good)
                            given)
                  ]))
        ]
      where
        size : ℕ
        size = actual_size block_size

        before : W
        before = self.put (prepare size total (buffer == null) (self.get w)) w

        product_size : mul64 size total ≡ total * size
        product_size = omega arith
