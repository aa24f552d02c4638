-- ===== src/Pool/Inv.antt =====
-- The invariant of the pool: the free list runs through the free blocks, and each block is free or
-- handed out, once.
use liballo.Base.{
  count, ℕ, ◌+◌, ◌*◌, ◌^◌, ◌%◌, ◌≤◌, ◌<◌, ◌≡◌, refl, ◌≢◌, List, [], ◌∷◌, arith, ltb, ==_refl, subst,
  sym, ◌⊎◌, inl, inr, if◌then◌else◌,
}
use native.Mathlib.Decide.{dec_lt}
use liballo.Mem.{Ptr, null, update}
use liballo.Pool.{PoolContext, State}

-- The address of block `k`.
abbrev pub slot : PoolContext → ℕ → Ptr
slot c k = c.buffer + k * c.block_size

-- From `p` the `next` pointers lead through the blocks with these numbers to NULL.
pub data Chain (c : PoolContext) (next : Ptr → Ptr) : Ptr → List ℕ → Type 0 where
  end : Chain c next null []
  link :
      {p : Ptr} (k : ℕ) {ks : List ℕ}
      → p ≡ slot c k
      → Chain c next (next p) ks
      → Chain c next p (k ∷ ks)

pub record IsValid (s : State) (free live : List ℕ) : Type 0 where
  pub ne_null : s.ctx.buffer ≢ null
  pub node_fits : 8 ≤ s.ctx.block_size
  pub aligned : s.ctx.block_size % 8 ≡ 0
  pub fits : s.ctx.buffer + s.ctx.total_blocks * s.ctx.block_size < 2 ^ 64
  pub chain : Chain s.ctx s.mem.word s.ctx.free_list free
  pub once : (k : ℕ) → count k free + count k live ≡ (if ltb k s.ctx.total_blocks then 1 else 0)

-- Distinct blocks share no address.
pub slot-Apart : (c : PoolContext) (j k : ℕ) → j < k → slot c j + c.block_size ≤ slot c k
slot-Apart c j k h = grind arith

-- A block ends within the buffer.
pub slot-le :
    (c : PoolContext) (k : ℕ)
    → k < c.total_blocks
    → slot c k + c.block_size ≤ c.buffer + c.total_blocks * c.block_size
slot-le c k h = grind arith

slot-ne : (c : PoolContext) (j k : ℕ) → 0 < c.block_size → j ≢ k → slot c j ≢ slot c k
slot-ne c j k pos ne = elim (dec_lt j k) [
  | yes h ↦ omega (arith, slot-Apart c j k h)
  | no h ↦ omega (arith, slot-Apart c k j (omega arith))
]

-- A write into a block that is not in the chain leaves the chain as it is.
pub Chain-update :
    (c : PoolContext) (next : Ptr → Ptr) (k v : ℕ) {p : Ptr} {ks : List ℕ}
    → 0 < c.block_size
    → Chain c next p ks
    → count k ks ≡ 0
    → Chain c (update next (slot c k) v) p ks
Chain-update c next k v pos end out = end
Chain-update c next k v pos (link {p} j {ks} e rest) out =
    let ne : k ≢ j = λ q. ground (arith, q) in
    let same : update next (slot c k) v p ≡ next p = ground (arith, slot-ne c k j pos ne) in
    link j e (
      subst (λ t. Chain c (update next (slot c k) v) t ks) (sym same)
        (Chain-update c next k v pos rest (omega arith)))

-- Writes outside the free blocks, such as those of the client into its own, leave the chain.
pub Chain-frame :
    (c : PoolContext) (next next' : Ptr → Ptr) {p : Ptr} {ks : List ℕ}
    → Chain c next p ks
    → ((k : ℕ) → 0 < count k ks → next' (slot c k) ≡ next (slot c k))
    → Chain c next' p ks
Chain-frame c next next' end same = end
Chain-frame c next next' (link {p} j {ks} e rest) same =
    let here : next' p ≡ next p = rw e (same j (rw ==_refl (omega arith))) in
    link j e (
      subst (λ t. Chain c next' t ks) (sym here)
        (Chain-frame c next next' rest λ k h. same k (omega arith)))

-- The context's other fields do not change under an operation.
pub Chain-context :
    (c c' : PoolContext) (next : Ptr → Ptr) {p : Ptr} {ks : List ℕ}
    → c'.buffer ≡ c.buffer
    → c'.block_size ≡ c.block_size
    → Chain c next p ks
    → Chain c' next p ks
Chain-context c c' next eb es end = end
Chain-context c c' next eb es (link k e rest) =
    link k (rw (eb, es) e) (Chain-context c c' next eb es rest)

-- An empty chain is NULL, and a chain that goes on begins at the first of its blocks.
pub Chain-head :
    {c : PoolContext} {next : Ptr → Ptr} {p : Ptr} {ks : List ℕ}
    → Chain c next p ks
    → ((p ≡ null) × (ks ≡ []))
      ⊎ ((k : ℕ) × (js : List ℕ) × (ks ≡ k ∷ js) × (p ≡ slot c k) × Chain c next (next p) js)
Chain-head end = inl (refl, refl)
Chain-head (link k {ks} e rest) = inr (k, ks, refl, e, rest)
