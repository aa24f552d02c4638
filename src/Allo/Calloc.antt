-- ===== src/Allo/Calloc.antt =====
-- `allo_calloc` of src/allo.c.
use liballo.Base.{
  ℕ, zero, suc, ◌+◌, ◌-◌, ◌*◌, ◌/◌, ◌^◌, ◌≤◌, ◌<◌, ◌≡◌, refl, ◌≢◌, inl, inr, true, false, some,
  none, ◌&&◌, arith, ltb, ◌==◌, ==_iff, Bool-cases, mul64, mul-le, Option,
}
use liballo.Base.Cmd.{Returns, Slot, ◌>>=◌, ◌>>◌, pure, zoom}
use liballo.Mem.{Ptr, null, Memory, MemOps, Filled}
use liballo.Mem.Copy.{allo_memset_run}
use liballo.Allo.{Allo, allo_calloc, zero_fill}

-- The test by division finds exactly the products that do not fit `size_t`.
overflow_test :
    (nmemb size : ℕ)
    → (ltb 0 size && ltb ((2 ^ 64 - 1) / size) nmemb) ≡ true
    → 2 ^ 64 ≤ nmemb * size
overflow_test nmemb size h = grind arith

no_overflow :
    (nmemb size : ℕ)
    → (ltb 0 size && ltb ((2 ^ 64 - 1) / size) nmemb) ≡ false
    → nmemb * size < 2 ^ 64
no_overflow nmemb zero h = omega arith
no_overflow nmemb (suc n) h =
    let le : nmemb ≤ (2 ^ 64 - 1) / suc n = ground arith in omega (arith, mul-le (suc n) le)

module _ {W : Type 0} (memory : Slot W Memory) (a : Allo W) where
  -- What `allo_calloc` may answer.
  pub data Calloced (w : W) (nmemb size p : ℕ) (w' : W) : Type 0 where
    overflow : p ≡ null → w' ≡ w → 2 ^ 64 ≤ nmemb * size → Calloced w nmemb size p w'
    refused : p ≡ null → a.alloc (nmemb * size) w ≡ some (null, w') → Calloced w nmemb size p w'
    zeroed :
        (w₁ : W)
        → p ≢ null
        → a.alloc (nmemb * size) w ≡ some (p, w₁)
        → w' ≡ memory.put (memory.get w') w₁
        → Filled p 0 (nmemb * size) (memory.get w₁) (memory.get w')
        → Calloced w nmemb size p w'

  zero_fill-null : (ops : MemOps) (n : ℕ) (w : W) → zero_fill a ops memory null n w ≡ some (tt, w)
  unfolding zero_fill
  zero_fill-null ops n w = refl

  zero_fill-run :
      (ops : MemOps) (p n : ℕ) (w : W)
      → p ≢ null
      → zero_fill a ops memory p n w ≡ some (tt, memory.put (ops.memset p 0 n (memory.get w)) w)
  unfolding zero_fill
  zero_fill-run ops p n w ne =
      let e : (p == null) ≡ false = ground arith in
      rw (e, allo_memset_run ops p 0 n (memory.get w) ne, zoom)

  -- Where the allocator answers every request with NULL or a block in the address space,
  -- `allo_calloc` returns NULL and asks for nothing when the product of its arguments does not fit
  -- `size_t`; otherwise it asks for exactly that product, and either passes a NULL on, or returns
  -- the block with every byte 0 and changes nothing else.
  pub allo_calloc_lem :
      (ops : MemOps)
      → ((n : ℕ) (w : W) → Returns (λ p w'. (p ≢ null → p + n ≤ 2 ^ 64)) (a.alloc n w))
      → (nmemb size : ℕ) (w : W)
      → Returns (Calloced w nmemb size) (allo_calloc a ops memory nmemb size w)
  unfolding allo_calloc
  allo_calloc_lem ops ends nmemb size w =
      elim (Bool-cases (ltb 0 size && ltb ((2 ^ 64 - 1) / size) nmemb)) [
        | inl big ↦ rw big (overflow refl refl (overflow_test nmemb size big))
        | inr small ↦
            let total : mul64 nmemb size ≡ nmemb * size =
              omega (arith, no_overflow nmemb size small) in
            rw (small, total) (go (a.alloc (nmemb * size) w) refl (ends (nmemb * size) w))
      ]
    where
      go :
          (r : Option (Ptr × W))
          → a.alloc (nmemb * size) w ≡ r
          → Returns (λ p w'. (p ≢ null → p + nmemb * size ≤ 2 ^ 64)) r
          → Returns (Calloced w nmemb size) (
              (a.alloc (nmemb * size) >>= λ ptr.
              zero_fill a ops memory ptr (nmemb * size) >> pure ptr)
                w)
      go none e h = absurd h
      go (some (p, w₁)) e h =
          rw (e, ◌>>=◌)
            (elim (Bool-cases (p == null)) [
              | inl at_null ↦
                  let is_null : p ≡ null = (==_iff _ _).0 at_null in
                  let skip : zero_fill a ops memory p (nmemb * size) w₁ ≡ some (tt, w₁) =
                    rw is_null (zero_fill-null ops (nmemb * size) w₁) in
                  rw (skip, ◌>>=◌, ◌>>◌) (refused is_null (rw e (rw is_null)))
              | inr given ↦
                  let ne : p ≢ null = ground arith in
                  let m = ops.memset p 0 (nmemb * size) (memory.get w₁) in
                  let back = memory.get-put m w₁ in
                  rw (zero_fill-run ops p (nmemb * size) w₁ ne, ◌>>=◌, ◌>>◌)
                    (zeroed w₁ ne e (rw back)
                      (rw back (ops.memset_lem p 0 (nmemb * size) (memory.get w₁) (h ne))))
            ])
