-- ===== src/Buffer/Inv.antt =====
-- The invariant of the fixed buffer allocator, and what src/allo_buffer.c's allocation keeps of it.
use liballo.Base.{
  zero, suc, leb→le, leb→lt, ℕ, ◌+◌, ◌*◌, ◌/◌, ◌%◌, ◌^◌, ◌≤◌, ◌<◌, ◌≡◌, refl, ◌≢◌, ◌⊎◌, inl, inr,
  List, ◌∷◌, some, arith, leb, Bool-cases,
}
use liballo.Base.Cmd.{Returns}
use liballo.Mem.{Ptr, null, InRange, align_up}
use liballo.Mem.Align.{align_up_eight}
use liballo.Blocks.{Block, block, All, All-map, Disjoint}
use liballo.Buffer.{BufContext, State, buf_alloc_fn}

-- A block that was handed out lies in the used part of the buffer, aligned.
pub record IsUsed (c : BufContext) (b : Block) : Type 0 where
  pub above : c.buffer ≤ b.start
  pub below : b.start + b.size ≤ c.buffer + c.offset
  pub aligned : b.start % 8 ≡ 0
  pub nonempty : 0 < b.size

pub record IsValid (s : State) (live : List Block) : Type 0 where
  pub ne_null : s.ctx.buffer ≢ null
  pub aligned : s.ctx.buffer % 8 ≡ 0
  pub fits : s.ctx.buffer + s.ctx.size < 2 ^ 64
  pub in_size : s.ctx.offset ≤ s.ctx.size
  pub used : All (IsUsed s.ctx) live
  pub disjoint : Disjoint live

-- The next multiple of 8.
abbrev pub round_up : ℕ → ℕ
round_up n = (n + 7) / 8 * 8

align_up_offset :
    {s : State} {live : List Block}
    → IsValid s live
    → align_up s.ctx.offset 8 ≡ round_up s.ctx.offset
align_up_offset {s} v = omega (arith, align_up_eight s.ctx.offset (omega arith))

-- Used blocks stay used when the offset grows, and are apart from what begins at the old offset.
IsUsed-grow :
    (c : BufContext) (n : ℕ)
    → c.offset ≤ n
    → (b : Block) → IsUsed c b
    → IsUsed (record c { offset = n }) b
IsUsed-grow c n h b u = ground arith

-- Where the allocation goes.
abbrev pub next_free : State → Ptr
next_free s = s.ctx.buffer + round_up s.ctx.offset

pub buf_alloc_run :
    {s : State} {live : List Block} (size : ℕ)
    → IsValid s live
    → 0 < size
    → round_up s.ctx.offset + size ≤ s.ctx.size
    → buf_alloc_fn size s
      ≡ some
          (next_free s, record s { ctx = record (s.ctx) { offset = round_up s.ctx.offset + size } })
unfolding buf_alloc_fn
buf_alloc_run {s} size v pos room = ground (arith, align_up_offset v)

pub buf_alloc_full :
    {s : State} {live : List Block} (size : ℕ)
    → IsValid s live
    → 0 < size
    → size < 2 ^ 64
    → s.ctx.size < round_up s.ctx.offset + size
    → buf_alloc_fn size s ≡ some (null, s)
unfolding buf_alloc_fn
buf_alloc_full {s} size v pos small room = ground (arith, align_up_offset v)

-- What an allocation may answer.
pub data Allocated (s : State) (live : List Block) (size : ℕ) (p : Ptr) (s' : State) : Type 0 where
  full :
      p ≡ null
      → s' ≡ s
      → (size ≡ 0) ⊎ (s.ctx.size < round_up s.ctx.offset + size)
      → Allocated s live size p s'
  fresh :
      p ≡ next_free s
      → s'.mem ≡ s.mem
      → IsValid s' (block p size ∷ live)
      → Allocated s live size p s'

pub IsValid-cons :
    {s : State} {live : List Block} (size : ℕ)
    → IsValid s live
    → 0 < size
    → round_up s.ctx.offset + size ≤ s.ctx.size
    → IsValid
        (record s { ctx = record (s.ctx) { offset = round_up s.ctx.offset + size } })
        (block (next_free s) size ∷ live)
IsValid-cons {s} {live} size v pos room = record {
  ne_null = v.ne_null;
  aligned = v.aligned;
  fits = v.fits;
  in_size = room;
  used = (ground (arith, v.aligned), All-map live (IsUsed-grow s.ctx _ (omega arith)) v.used);
  disjoint = (All-map live (λ b u. inr (omega arith)) v.used, v.disjoint);
}

-- From a valid state `buf_alloc_fn` ends without a failed assertion: it returns NULL and changes
-- nothing, for size 0 or where the rounded offset leaves no room, or it returns the first
-- multiple of 8 past the offset, as a block in the buffer that shares no address with the others.
pub buf_alloc_lem :
    {s : State} {live : List Block} (size : ℕ)
    → IsValid s live
    → size < 2 ^ 64
    → Returns (Allocated s live size) (buf_alloc_fn size s)
unfolding buf_alloc_fn
buf_alloc_lem zero v small = full refl refl (inl refl)
buf_alloc_lem {s} (suc n) v small =
    elim (Bool-cases (leb (round_up s.ctx.offset + suc n) s.ctx.size)) [
      | inl room ↦
          let r = leb→le _ _ room in
          rw (buf_alloc_run (suc n) v (omega arith) r)
            (fresh refl refl (IsValid-cons (suc n) v (omega arith) r))
      | inr none_left ↦
          let r = leb→lt _ _ none_left in
          rw (buf_alloc_full (suc n) v (omega arith) small r) (full refl refl (inr r))
    ]

-- A valid state of the allocator of the buffer at `buffer`, of `size` bytes.
abbrev pub InBuffer : (buffer size : ℕ) → State → Type 0
InBuffer buffer size s =
    (live : List Block) × IsValid s live × (s.ctx.buffer ≡ buffer) × (s.ctx.size ≡ size)

-- What `buf_alloc_fn` returns lies in that buffer, which stays the same.
pub buf_alloc-InBuffer :
    {s : State} {buffer size : ℕ} (n : ℕ)
    → n < 2 ^ 64
    → InBuffer buffer size s
    → Returns
        (λ p s'. InBuffer buffer size s' × ((p ≡ null) ⊎ InRange buffer size p))
        (buf_alloc_fn n s)
unfolding buf_alloc_fn
buf_alloc-InBuffer zero small i = (i, inl refl)
buf_alloc-InBuffer {s} (suc n) small (live, v, at, whole) =
    elim (Bool-cases (leb (round_up s.ctx.offset + suc n) s.ctx.size)) [
      | inl room ↦
          let r = leb→le _ _ room in
          rw (buf_alloc_run (suc n) v (omega arith) r) (
            (block (next_free s) (suc n) ∷ live, IsValid-cons (suc n) v (omega arith) r, at, whole),
            inr (omega arith, omega arith),
          )
      | inr none_left ↦
          rw (buf_alloc_full (suc n) v (omega arith) small (leb→lt _ _ none_left))
            ((live, v, at, whole), inl refl)
    ]
