-- ===== src/Buffer/Make.antt =====
-- `make_fixed_buf_allocator` of src/allo_buffer.c.
use liballo.Base.{
  ℕ, ◌+◌, ◌%◌, ◌^◌, ◌<◌, ◌≡◌, ◌≢◌, ◌⊎◌, inl, inr, true, Option, none, some, ◌||◌, arith, ◌==◌,
  Bool-cases, [],
}
use liballo.Base.Cmd.{Returns, Slot}
use liballo.Mem.{null, MemOps, is_aligned}
use liballo.Mem.Align.{is_aligned_iff}
use liballo.Allo.{Error, ok, err_inval, Allo}
use liballo.Buffer.{State, make_fixed_buf_allocator, buf_allocator}
use liballo.Buffer.Inv.{IsValid}

module _ (ops : MemOps) {W : Type 0} (self : Slot W State) where
  -- What `make_fixed_buf_allocator` may answer.
  pub data Made (out buffer size : ℕ) (w : W) : Error × Option (Allo W) → W → Type 0 where
    invalid :
        (out ≡ null) ⊎ (buffer ≡ null) ⊎ (size ≡ 0) ⊎ (buffer % 8 ≢ 0)
        → Made out buffer size w (err_inval, none) w
    made :
        {w' : W}
        → out ≢ null
        → buffer ≢ null
        → size ≢ 0
        → buffer % 8 ≡ 0
        → IsValid (self.get w') []
        → (self.get w').ctx.buffer ≡ buffer
        → (self.get w').ctx.size ≡ size
        → (self.get w').mem ≡ (self.get w).mem
        → Made out buffer size w (ok, some (buf_allocator ops self)) w'

  -- For a buffer within the address space, `make_fixed_buf_allocator` rejects exactly a NULL
  -- argument, a size of 0 and a buffer that is not aligned to 8, and changes nothing; otherwise the
  -- allocator is valid, covers the buffer, and has handed out nothing.
  pub make_fixed_buf_lem :
      (out buffer size : ℕ) (w : W)
      → buffer + size < 2 ^ 64
      → Returns (Made out buffer size w) (make_fixed_buf_allocator ops self out buffer size w)
  unfolding make_fixed_buf_allocator
  make_fixed_buf_lem out buffer size w fits =
      elim (Bool-cases ((out == null) || (buffer == null) || (size == 0))) [
        | inl bad ↦ rw bad (invalid (missing bad))
        | inr given ↦ elim (Bool-cases (is_aligned buffer 8)) [
          | inl aligned ↦
              rw (given, aligned)
                (made (ground (arith, given)) (ground (arith, given)) (ground (arith, given))
                  ((is_aligned_iff 3 buffer (omega arith)).0 aligned)
                  (rw self.get-put (record {
                    ne_null = ground (arith, given);
                    aligned = (is_aligned_iff 3 buffer (omega arith)).0 aligned;
                    fits = fits;
                    in_size = omega arith;
                    used = tt;
                    disjoint = tt;
                  }))
                  (rw self.get-put) (rw self.get-put) (rw self.get-put))
          | inr odd ↦
              rw (given, odd)
                (invalid (
                  inr (
                    inr
                      (inr λ e. ground (arith, odd, (is_aligned_iff 3 buffer (omega arith)).1 e)))))
        ]
      ]
    where
      missing :
          ((out == null) || (buffer == null) || (size == 0)) ≡ true
          → (out ≡ null) ⊎ (buffer ≡ null) ⊎ (size ≡ 0) ⊎ (buffer % 8 ≢ 0)
      missing h = ground arith
