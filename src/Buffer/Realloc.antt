-- ===== src/Buffer/Realloc.antt =====
-- `buf_realloc_fn` and `buf_contains_fn` of src/allo_buffer.c.
use liballo.Base.{
  ℕ, ◌+◌, ◌-◌, ◌^◌, ◌≤◌, ◌<◌, ◌≡◌, refl, inl, inr, ◌↔◌, List, [], ◌∷◌, some, false, arith, add64,
  sub64, leb, ◌==◌, ==_iff, Bool-cases, leb→le, leb→lt,
}
use liballo.Base.Cmd.{Returns, ◌>>=◌, ◌>>◌}
use liballo.Mem.Copy.{allo_memcpy_run}
use liballo.Mem.{Ptr, null, Memory, MemOps, Copied, allo_memcpy, InRange}
use liballo.Blocks.{
  Block, block, All, All-map, All-and, Removed, Removed-All, Removed-Disjoint, ApartFrom,
}
use liballo.Allo.{contains_yes, contains_no}
use liballo.Buffer.{State, realloc_moved, buf_realloc_fn, buf_contains_fn}
use liballo.Buffer.Inv.{
  IsUsed, IsValid, buf_alloc_run, buf_alloc_full, IsValid-cons, next_free, round_up,
}

-- The bytes of the old block, as many as fit, are in the new one; the other blocks keep theirs.
pub record Moved (p old_size q new_size : ℕ) (rest : List Block) (m m' : Memory) : Type 0 where
  pub kept : (i : ℕ) → i < old_size → i < new_size → m'.byte (q + i) ≡ m.byte (p + i)
  pub others : All (λ b. (i : ℕ) → i < b.size → m'.byte (b.start + i) ≡ m.byte (b.start + i)) rest

-- What a reallocation may answer.
pub data Reallocated (s : State) (rest : List Block) (p old_size new_size q : ℕ) (s' : State)
    : Type 0 where
  failed : q ≡ null → s' ≡ s → old_size < new_size → Reallocated s rest p old_size new_size q s'
  moved :
      IsValid s' (block q new_size ∷ rest)
      → Moved p old_size q new_size rest s.mem s'.mem
      → Reallocated s rest p old_size new_size q s'

Moved-refl : (p n k : ℕ) (rest : List Block) (m : Memory) → Moved p n p k rest m m
Moved-refl p n k rest m = record { kept = λ i h h'. refl; others = all rest }
  where
    all :
        (bs : List Block)
        → All (λ b. (i : ℕ) → i < b.size → m.byte (b.start + i) ≡ m.byte (b.start + i)) bs
    all [] = tt
    all (b ∷ bs) = ((λ i h. refl), all bs)

module _ {s : State} {live rest : List Block} {p old_size : ℕ} (v : IsValid s live)
    (r : Removed (block p old_size) live rest) where
  the_block : IsUsed s.ctx (block p old_size)
  the_block = (Removed-All _ r v.used).0

  the_rest : All (λ b. IsUsed s.ctx b × ApartFrom p old_size b) rest
  the_rest = All-and _ _ rest (Removed-All _ r v.used).1 (Removed-Disjoint r v.disjoint).0

  -- The last block changes its size in place.
  in_place-IsValid :
      (new_size : ℕ)
      → 0 < new_size
      → p + old_size ≡ s.ctx.buffer + s.ctx.offset
      → p - s.ctx.buffer + new_size ≤ s.ctx.size
      → IsValid
          (record s { ctx = record (s.ctx) { offset = p - s.ctx.buffer + new_size } })
          (block p new_size ∷ rest)
  in_place-IsValid new_size pos last fits = record {
    ne_null = v.ne_null;
    aligned = v.aligned;
    fits = v.fits;
    in_size = fits;
    used = (ground (arith, the_block), All-map rest (λ b u. ground (arith, the_block)) the_rest);
    disjoint = (
      All-map rest (λ b u. ground (arith, the_block)) the_rest,
      (Removed-Disjoint r v.disjoint).1,
    );
  }

  -- A block that shrinks keeps its place.
  shrink-IsValid :
      (new_size : ℕ) → 0 < new_size → new_size ≤ old_size → IsValid s (block p new_size ∷ rest)
  shrink-IsValid new_size pos le = record {
    ne_null = v.ne_null;
    aligned = v.aligned;
    fits = v.fits;
    in_size = v.in_size;
    used = (ground (arith, the_block), All-map rest (λ b u. u.0) the_rest);
    disjoint = (
      All-map rest (λ b u. ground (arith, the_block)) the_rest,
      (Removed-Disjoint r v.disjoint).1,
    );
  }

  -- A block that grows moves to the end, and the old one is left behind.
  grown-IsValid :
      (m' : Memory) (new_size : ℕ)
      → 0 < new_size
      → round_up s.ctx.offset + new_size ≤ s.ctx.size
      → IsValid
          (record { ctx = record (s.ctx) { offset = round_up s.ctx.offset + new_size }; mem = m' })
          (block (next_free s) new_size ∷ rest)
  grown-IsValid m' new_size pos room =
      let w = IsValid-cons new_size v pos room in
      record {
        ne_null = w.ne_null;
        aligned = w.aligned;
        fits = w.fits;
        in_size = w.in_size;
        used = (w.used.0, (Removed-All _ r w.used.1).1);
        disjoint = ((Removed-All _ r w.disjoint.0).1, (Removed-Disjoint r v.disjoint).1);
      }

  Copied-Moved :
      (new_size : ℕ) {m' : Memory}
      → Copied (next_free s) p old_size s.mem m'
      → Moved p old_size (next_free s) new_size rest s.mem m'
  Copied-Moved new_size c = record {
    kept = λ i h h'. c.copied i h;
    others =
        All-map rest (λ b u i h. c.same (b.start + i) (λ out. omega (arith, v.in_size))) the_rest;
  }

  module _ (ops : MemOps) (new_size : ℕ) (pos : 0 < new_size) where
    not_null : round_up s.ctx.offset + new_size ≤ s.ctx.size → (next_free s == null) ≡ false
    not_null room = ground (arith, v.ne_null)

    module _ (room : round_up s.ctx.offset + new_size ≤ s.ctx.size)
        (grows : old_size < new_size) where
      copy_run :
          allo_memcpy ops (next_free s) p old_size s.mem
          ≡ some (tt, ops.memcpy (next_free s) p old_size s.mem)
      copy_run =
          allo_memcpy_run ops (next_free s) p old_size s.mem (omega (arith, v.ne_null))
            (omega (arith, v.ne_null, the_block)) (omega (arith, v.fits))
            (omega (arith, the_block, v.fits, v.in_size)) (inr (omega (arith, the_block)))

      copied : Copied (next_free s) p old_size s.mem (ops.memcpy (next_free s) p old_size s.mem)
      copied =
          ops.memcpy_lem (next_free s) p old_size s.mem (omega (arith, v.fits))
            (omega (arith, the_block, v.fits, v.in_size)) (inr (omega (arith, the_block)))

    realloc_moved_lem :
        new_size < 2 ^ 64
        → Returns (Reallocated s rest p old_size new_size) (realloc_moved ops p old_size new_size s)
    unfolding realloc_moved
    realloc_moved_lem small = elim (Bool-cases (leb new_size old_size)) [
      | inl le ↦ rw le (
          moved (shrink-IsValid new_size pos (leb→le _ _ le))
            (Moved-refl p old_size new_size rest s.mem))
      | inr grows ↦ elim (Bool-cases (leb (round_up s.ctx.offset + new_size) s.ctx.size)) [
        | inl room ↦
            rw (grows, buf_alloc_run new_size v pos (leb→le _ _ room), ◌>>=◌)
              (rw
                (
                  not_null (leb→le _ _ room),
                  copy_run (leb→le _ _ room) (leb→lt _ _ grows),
                  ◌>>=◌,
                  ◌>>◌,
                )
                (moved (grown-IsValid _ new_size pos (leb→le _ _ room))
                  (Copied-Moved new_size (copied (leb→le _ _ room) (leb→lt _ _ grows)))))
        | inr none_left ↦
            rw (grows, buf_alloc_full new_size v pos small (leb→lt _ _ none_left), ◌>>=◌)
              (failed refl refl (leb→lt _ _ grows))
      ]
    ]

    -- `buf_realloc_fn` of a block that was handed out, to a new size above 0 that does not wrap past
    -- the end of `size_t`, ends without a failed assertion: it returns NULL and changes nothing, or
    -- a block of the new size in the buffer that shares no address with the others, and that holds
    -- the bytes of the old one; the other blocks keep their bytes.
    pub buf_realloc_lem :
        p - s.ctx.buffer + new_size < 2 ^ 64
        → Returns
            (Reallocated s rest p old_size new_size)
            (buf_realloc_fn ops p old_size new_size s)
    unfolding buf_realloc_fn
    buf_realloc_lem no_wrap =
        rw (base, ends, ends', sum)
          (elim (Bool-cases (p + old_size == s.ctx.buffer + s.ctx.offset)) [
            | inl last ↦ elim (Bool-cases (leb (p - s.ctx.buffer + new_size) s.ctx.size)) [
              | inl fits ↦
                  rw (last, fits)
                    (moved (in_place-IsValid new_size pos ((==_iff _ _).0 last) (leb→le _ _ fits))
                      (Moved-refl p old_size new_size rest s.mem))
              | inr over ↦ rw (last, over) (realloc_moved_lem (omega arith))
            ]
            | inr inner ↦ rw inner (realloc_moved_lem (omega arith))
          ])
      where
        base : sub64 p s.ctx.buffer ≡ p - s.ctx.buffer
        base = omega (arith, the_block, v.fits, v.in_size)

        ends : add64 p old_size ≡ p + old_size
        ends = omega (arith, the_block, v.fits, v.in_size)

        ends' : add64 s.ctx.buffer s.ctx.offset ≡ s.ctx.buffer + s.ctx.offset
        ends' = omega (arith, v.fits, v.in_size)

        sum : add64 (p - s.ctx.buffer) new_size ≡ p - s.ctx.buffer + new_size
        sum = omega arith

-- The in-place test adds without a check. For the block that was handed out last, a new size that
-- wraps the sum to 0 is granted: the block keeps its place and the whole buffer counts as free.
pub buf_realloc_wrap :
    (ops : MemOps) {s : State} {live rest : List Block} {p old_size : ℕ}
    → IsValid s live
    → Removed (block p old_size) live rest
    → p + old_size ≡ s.ctx.buffer + s.ctx.offset
    → s.ctx.buffer < p
    → buf_realloc_fn ops p old_size (2 ^ 64 - (p - s.ctx.buffer)) s
      ≡ some (p, record s { ctx = record (s.ctx) { offset = 0 } })
unfolding buf_realloc_fn
buf_realloc_wrap ops {s} {live} {rest} {p} {old_size} v r last later =
    ground (arith, the_block v r, v.fits, v.in_size)

-- `buf_contains_fn` is exact: it says yes for the addresses of the buffer, and no for all others.
buf_contains_iff :
    {s : State} {live : List Block} (ptr : Ptr)
    → IsValid s live
    → (buf_contains_fn ptr s ≡ some (contains_yes, s)) ↔ InRange s.ctx.buffer s.ctx.size ptr
unfolding buf_contains_fn
buf_contains_iff {s} ptr v = (λ h. ground arith, λ h. ground arith)

-- The answer for an address of the buffer, and for any other.
pub buf_contains-mine :
    {s : State} {live : List Block} (ptr : Ptr)
    → IsValid s live
    → InRange s.ctx.buffer s.ctx.size ptr
    → buf_contains_fn ptr s ≡ some (contains_yes, s)
buf_contains-mine ptr v own = (buf_contains_iff ptr v).1 own

pub buf_contains-others :
    {s : State} {live : List Block} (ptr : Ptr)
    → IsValid s live
    → ¬ InRange s.ctx.buffer s.ctx.size ptr
    → buf_contains_fn ptr s ≡ some (contains_no, s)
unfolding buf_contains_fn
buf_contains-others {s} ptr v other = ground arith
