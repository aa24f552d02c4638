-- ===== src/Buddy/Calls.antt =====
-- Any sequence of calls of `buddy_alloc_fn` and `buddy_free_fn` by a client.
use liballo.Base.{
  ℕ, ◌+◌, ◌-◌, ◌/◌, ◌^◌, ◌≤◌, ◌<◌, ◌≡◌, refl, sym, ap, ◌∙◌, inl, inr, List, some, arith, subst,
}
use liballo.Base.Cmd.{Returns}
use liballo.Mem.{Ptr, null}
use liballo.Buddy.{State, buddy_alloc_fn, buddy_free_fn}
use liballo.Buddy.Tiling.{cell, cell-div}
use liballo.Buddy.Inv.{addr, IsValid}
use liballo.Buddy.Steps.{plus, minus}
use liballo.Buddy.Halve.{IsValid-used}
use liballo.Buddy.Alloc.{Fits, Handed, Outcome, buddy_alloc_lem}
use liballo.Buddy.Free.{buddy_free_lem}
use liballo.Buddy.Whole.{nothing, buddy_alloc-all_free}

-- The states that a client's calls lead to from `s`, with the blocks that it holds: it allocates, is
-- refused, or frees a block that it holds with a size that belongs to it.
pub data Calls (depth : ℕ) (s : State) (held : ℕ → ℕ → ℕ) : State → (ℕ → ℕ → ℕ) → Type 0 where
  no_calls : Calls depth s held s held
  refused :
      {t t' : State} {used : ℕ → ℕ → ℕ} (size : ℕ)
      → Calls depth s held t used
      → size < 2 ^ 64
      → buddy_alloc_fn size t ≡ some (null, t')
      → Calls depth s held t' used
  allocated :
      {t t' : State} {used : ℕ → ℕ → ℕ} (size l i : ℕ)
      → Calls depth s held t used
      → size < 2 ^ 64
      → l ≤ depth
      → Fits depth size l
      → buddy_alloc_fn size t ≡ some (addr t.ctx.buffer depth l i, t')
      → Calls depth s held t' (plus used l i)
  freed :
      {t t' : State} {used : ℕ → ℕ → ℕ} (size l i : ℕ)
      → Calls depth s held t used
      → size < 2 ^ 64
      → 0 < used l i
      → Fits depth size l
      → buddy_free_fn (addr t.ctx.buffer depth l i) size t ≡ some (tt, t')
      → Calls depth s held t' (minus used l i)

-- An address and a size tell the block.
same_block :
    (base : Ptr) (depth size l i m j : ℕ)
    → Fits depth size l
    → Fits depth size m
    → l ≤ depth
    → m ≤ depth
    → addr base depth l i ≡ addr base depth m j
    → (l ≡ m) × (i ≡ j)
same_block base depth size l i m j f g hl hm e =
    let same : l ≡ m = omega (arith, f.tight m hm g.holds, g.tight l hl f.holds) in
    let cells : cell depth l i ≡ cell depth m j = omega arith in
    let there : cell depth m i ≡ cell depth m j =
      subst (λ x. cell depth x i ≡ cell depth m j) same cells in
    (same, sym (cell-div depth m i) ∙ ap (λ c. c / 2 ^ (depth - m)) there ∙ cell-div depth m j)

allocated-IsValid :
    (t t' : State) (depth size l i : ℕ) (free : ℕ → List ℕ) (used : ℕ → ℕ → ℕ)
    → IsValid t depth free used
    → l ≤ depth
    → Fits depth size l
    → Outcome t depth free used size (addr t.ctx.buffer depth l i) t'
    → (free' : ℕ → List ℕ) × IsValid t' depth free' (plus used l i)
allocated-IsValid t t' depth size l i free used v hl f (inl (e, _, _)) =
    absurd (omega (arith, v.ne_null, e))
allocated-IsValid t t' depth size l i free used v hl f (inr (handed, _)) =
    let (e, e') =
      same_block t.ctx.buffer depth size handed.level handed.index l i handed.fits f
        handed.within_depth hl (sym handed.at) in
    (
      handed.free,
      IsValid-used _ _
          (λ m k. ap (λ x. plus used x handed.index m k) e ∙ ap (λ x. plus used l x m k) e')
          handed.keeps,
    )

refused-IsValid :
    (t t' : State) (depth size : ℕ) (free : ℕ → List ℕ) (used : ℕ → ℕ → ℕ)
    → IsValid t depth free used
    → Outcome t depth free used size null t'
    → IsValid t' depth free used
refused-IsValid t t' depth size free used v (inl (_, same, _)) = rw same v
refused-IsValid t t' depth size free used v (inr (handed, _)) = absurd (handed.ne_null refl)

pub Calls-IsValid :
    (depth : ℕ) {s : State} (free : ℕ → List ℕ) {held : ℕ → ℕ → ℕ}
    → IsValid s depth free held
    → {t : State} {used : ℕ → ℕ → ℕ} → Calls depth s held t used
    → (free' : ℕ → List ℕ) × IsValid t depth free' used
Calls-IsValid depth free v no_calls = (free, v)
Calls-IsValid depth free v (refused {t} {t'} {used} size calls h run) =
    let (free', v') = Calls-IsValid depth free v calls in
    (
      free',
      refused-IsValid t t' depth size free' used v'
          (rw run at (buddy_alloc_lem t depth size free' used v' h)),
    )
Calls-IsValid depth free v (allocated {t} {t'} {used} size l i calls h hl f run) =
    let (free', v') = Calls-IsValid depth free v calls in
    allocated-IsValid t t' depth size l i free' used v' hl f
      (rw run at (buddy_alloc_lem t depth size free' used v' h))
Calls-IsValid depth free v (freed {t} {t'} {used} size l i calls h out f run) =
    let (free', v') = Calls-IsValid depth free v calls in
    let (free'', v'', bytes) = rw run at (buddy_free_lem t depth l i size free' used v' out h f) in
    (free'', v'')

-- Whatever a client has allocated and freed since a valid state: once it holds nothing, a request of
-- any size from 1 up to that of the buffer gets a block, so the buffer is never left in pieces.
pub Calls-whole :
    (depth : ℕ) {s t : State} (free : ℕ → List ℕ) {held used : ℕ → ℕ → ℕ} (size : ℕ)
    → IsValid s depth free held
    → Calls depth s held t used
    → ((l i : ℕ) → used l i ≡ 0)
    → 0 < size
    → size ≤ 2 ^ (depth + 5)
    → Returns (Handed t depth nothing size) (buddy_alloc_fn size t)
Calls-whole depth {s} {t} free {held} {used} size v calls none_held pos le =
    let (free', v') = Calls-IsValid depth free v calls in
    buddy_alloc-all_free t depth size free' (IsValid-used used nothing none_held v') pos le
