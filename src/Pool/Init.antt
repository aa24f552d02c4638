-- ===== src/Pool/Init.antt =====
-- The loop of `make_pool_allocator` links the blocks of the buffer into one free list.
use liballo.Base.{
  count, ℕ, zero, suc, ◌+◌, ◌-◌, ◌*◌, ◌^◌, ◌%◌, ◌≤◌, ◌<◌, ◌≡◌, refl, ap, ◌≢◌, Bool, true, false,
  List, [], ◌∷◌, arith, ltb, if◌then◌else◌, add64, subst, ==_refl,
}
use liballo.Mem.{null, Memory, update}
use liballo.Pool.{PoolContext, State, init_loop, init}
use liballo.Pool.Inv.{slot, Chain, end, link, IsValid}

-- The numbers from `i` on, `n` of them.
unfoldable pub upto : ℕ → ℕ → List ℕ
upto i zero = []
upto i (suc n) = i ∷ upto (i + 1) n

count-upto :
    (n i k : ℕ) → count k (upto i n) ≡ (if ltb k i then 0 else if ltb k (i + n) then 1 else 0)
unfolding upto
count-upto zero i k = ground arith
count-upto (suc n) i k = ground (arith, count-upto n (i + 1) k)

-- Addresses below the current node keep their `next`, and no byte changes.
init_loop-frame :
    (rounds i total bs curr q : ℕ) (m : Memory)
    → curr + rounds * bs < 2 ^ 64
    → q < curr
    → (init_loop rounds i total bs curr m).word q ≡ m.word q
unfolding init_loop
init_loop-frame zero i total bs curr q m h lt = refl
init_loop-frame (suc n) i total bs curr q m h lt = ground (
  arith,
  init_loop-frame n (i + 1) total bs (add64 curr bs) q
      (record m { word = update m.word curr (add64 curr bs) }),
  init_loop-frame n (i + 1) total bs curr q (record m { word = update m.word curr null }),
)

init_loop-byte :
    (rounds i total bs curr : ℕ) (m : Memory) → (init_loop rounds i total bs curr m).byte ≡ m.byte
unfolding init_loop
init_loop-byte zero i total bs curr m = refl
init_loop-byte (suc n) i total bs curr m = ground (
  arith,
  init_loop-byte n (i + 1) total bs (add64 curr bs)
      (record m { word = update m.word curr (add64 curr bs) }),
  init_loop-byte n (i + 1) total bs curr (record m { word = update m.word curr null }),
)

module _ (c : PoolContext) (pos : 0 < c.block_size)
    (fits : c.buffer + c.total_blocks * c.block_size < 2 ^ 64) where
  slot-suc : (i : ℕ) → i < c.total_blocks → add64 (slot c i) c.block_size ≡ slot c (i + 1)
  slot-suc i h = grind arith

  round-go :
      (n i : ℕ) (m : Memory)
      → i + suc (suc n) ≡ c.total_blocks
      → init_loop (suc (suc n)) i c.total_blocks c.block_size (slot c i) m
        ≡ init_loop
            (suc n)
            (i + 1)
            c.total_blocks
            c.block_size
            (slot c (i + 1))
            (record m { word = update m.word (slot c i) (slot c (i + 1)) })
  round-go n i m e =
      let more : ltb i (c.total_blocks - 1) ≡ true = ground arith in
      unfold init_loop in rw (more, slot-suc i (omega arith))

  round-stop :
      (i : ℕ) (m : Memory)
      → i + 1 ≡ c.total_blocks
      → init_loop 1 i c.total_blocks c.block_size (slot c i) m
        ≡ record m { word = update m.word (slot c i) null }
  unfolding init_loop
  round-stop i m e = let last : ltb i (c.total_blocks - 1) ≡ false = ground arith in rw last

  -- The loop links the blocks from `i` on, in order.
  init_loop-Chain :
      (n i : ℕ) (m : Memory)
      → i + suc n ≡ c.total_blocks
      → Chain c
          (init_loop (suc n) i c.total_blocks c.block_size (slot c i) m).word
          (slot c i)
          (upto i (suc n))
  unfolding upto
  init_loop-Chain zero i m e = rw (round-stop i m e) (link i refl (rw ==_refl end))
  init_loop-Chain (suc n) i m e =
      let m' : Memory = record m { word = update m.word (slot c i) (slot c (i + 1)) } in
      let rest = init_loop-Chain n (i + 1) m' (omega arith) in
      let same =
        init_loop-frame (suc n) (i + 1) c.total_blocks c.block_size (slot c (i + 1)) (slot c i) m'
          (omega (arith, fits, ap (λ (t : ℕ). t * c.block_size) e)) (omega arith) in
      rw (round-go n i m e) (link i refl (rw (same, ==_refl) rest))

-- `init` leaves every block free, in the order of their addresses.
pub init-IsValid :
    (start size total : ℕ) (own : Bool) (s : State)
    → start ≢ null
    → 8 ≤ size
    → size % 8 ≡ 0
    → start + total * size < 2 ^ 64
    → 0 < total
    → IsValid (init start size total own s) (upto 0 total) []
unfolding init
init-IsValid start size zero own s ne large aligned fits pos = absurd (omega arith)
init-IsValid start size (suc n) own s ne large aligned fits pos = record {
  ne_null = ne;
  node_fits = large;
  aligned = aligned;
  fits = fits;
  chain =
      subst (λ p. Chain ctx (init_loop (suc n) 0 (suc n) size p s.mem).word p (upto 0 (suc n)))
        at_start (init_loop-Chain ctx (omega arith) fits n 0 s.mem (omega arith));
  once = λ k. ground (arith, count-upto (suc n) 0 k);
}
  where
    ctx : PoolContext
    ctx = (init start size (suc n) own s).ctx

    at_start : slot ctx 0 ≡ start
    at_start = omega arith
