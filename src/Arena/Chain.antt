-- ===== src/Arena/Chain.antt =====
-- The chain of blocks of src/allo_arena.c: its search, and its release.
use liballo.Base.{
  ℕ, zero, suc, ◌+◌, ◌^◌, ◌≤◌, ◌<◌, ◌≡◌, refl, ◌≢◌, ◌⊎◌, inl, inr, true, false, some, List, [], ◌∷◌,
  arith, length, ◌==◌, ==_iff, Bool-cases,
}
use liballo.Base.Cmd.{Returns}
use liballo.Mem.{Ptr, null, Memory}
use liballo.Blocks.{Block, All}
use liballo.Allo.{Contains, contains_no, contains_yes}
use liballo.Arena.{State, header, next_of, size_of, in_block, contains_loop, arena_contains_fn}

-- The blocks that `next` leads through from an address on, with their headers.
pub data Chain (m : Memory) : Ptr → List Block → Type 0 where
  end : Chain m null []
  link :
      {b : Block} {bs : List Block}
      → b.start ≢ null
      → b.start + b.size ≤ 2 ^ 64
      → header + size_of m b.start ≡ b.size
      → Chain m (next_of m b.start) bs
      → Chain m b.start (b ∷ bs)

-- The code's test finds the address in some block of the list.
data InSome (m : Memory) (ptr : Ptr) : List Block → Type 0 where
  here : {b : Block} {bs : List Block} → in_block m b.start ptr ≡ true → InSome m ptr (b ∷ bs)
  there : {b : Block} {bs : List Block} → InSome m ptr bs → InSome m ptr (b ∷ bs)

-- One of the blocks begins at the address.
pub data StartsAt (p : Ptr) : List Block → Type 0 where
  first : {b : Block} {bs : List Block} → b.start ≡ p → StartsAt p (b ∷ bs)
  later : {b : Block} {bs : List Block} → StartsAt p bs → StartsAt p (b ∷ bs)

-- Some block of the list has the address behind its header.
pub data Covered (ptr : Ptr) : List Block → Type 0 where
  in_first :
      {b : Block} {bs : List Block}
      → b.start + header ≤ ptr
      → ptr < b.start + b.size
      → Covered ptr (b ∷ bs)
  in_later : {b : Block} {bs : List Block} → Covered ptr bs → Covered ptr (b ∷ bs)

-- The exact answer.
pub data Answer (ptr : Ptr) (bs : List Block) : Contains → Type 0 where
  found : Covered ptr bs → Answer ptr bs contains_yes
  missing : ¬ Covered ptr bs → Answer ptr bs contains_no

-- The code's test, for blocks that end within the address space.
InSome-Covered :
    {m : Memory} {ptr curr : Ptr} {bs : List Block}
    → Chain m curr bs
    → All (λ b. b.start + b.size < 2 ^ 64) bs
    → InSome m ptr bs
    → Covered ptr bs
unfolding in_block
InSome-Covered end low i = elim i [ ]
InSome-Covered (link ne fits size c) (low, rest) (here h) =
    in_first (ground (arith, h)) (ground (arith, h))
InSome-Covered (link ne fits size c) (low, rest) (there i) = in_later (InSome-Covered c rest i)

Covered-InSome :
    {m : Memory} {ptr curr : Ptr} {bs : List Block}
    → Chain m curr bs
    → All (λ b. b.start + b.size < 2 ^ 64) bs
    → Covered ptr bs
    → InSome m ptr bs
unfolding in_block
Covered-InSome end low i = elim i [ ]
Covered-InSome (link ne fits size c) (low, rest) (in_first h h') = here (ground arith)
Covered-InSome (link ne fits size c) (low, rest) (in_later i) = there (Covered-InSome c rest i)

-- What the loop knows of the blocks that it passed: it does not look at the current one again.
abbrev Passed : Memory → (current ptr : Ptr) → List Block → Type 0
Passed m current ptr bs = All (λ b. (b.start ≡ current) ⊎ (in_block m b.start ptr ≡ false)) bs

contains_loop_lem :
    (m : Memory) (current ptr : Ptr) (steps : ℕ) {curr : Ptr} {bs : List Block}
    → Chain m curr bs
    → length bs < steps
    → ((contains_loop steps m current curr ptr ≡ some contains_yes) × InSome m ptr bs)
      ⊎ ((contains_loop steps m current curr ptr ≡ some contains_no) × Passed m current ptr bs)
unfolding contains_loop
contains_loop_lem m current ptr zero c h = absurd (omega arith)
contains_loop_lem m current ptr (suc n) end h = inr (refl, tt)
contains_loop_lem m current ptr (suc n) (link {b} {bs} ne fits size c) h =
    let go_on : (b.start == null) ≡ false = ground arith in
    let rest = contains_loop_lem m current ptr n c (omega arith) in
    elim (Bool-cases (b.start == current)) [
      | inl at ↦ elim rest [
        | inl (e, i) ↦ inl (rw (go_on, at) e, there i)
        | inr (e, p) ↦ inr (rw (go_on, at) e, (inl ((==_iff _ _).0 at), p))
      ]
      | inr other ↦ elim (Bool-cases (in_block m b.start ptr)) [
        | inl inside ↦ inl (rw (go_on, other, inside) refl, here inside)
        | inr outside ↦ elim rest [
          | inl (e, i) ↦ inl (rw (go_on, other, outside) e, there i)
          | inr (e, p) ↦ inr (rw (go_on, other, outside) e, (inr outside, p))
        ]
      ]
    ]

InSome-current :
    {m : Memory} {current ptr : Ptr} {bs : List Block}
    → StartsAt current bs
    → in_block m current ptr ≡ true
    → InSome m ptr bs
InSome-current (first e) h = here (rw e h)
InSome-current (later s) h = there (InSome-current s h)

Passed-all :
    (m : Memory) (current ptr : Ptr) {bs : List Block}
    → InSome m ptr bs
    → Passed m current ptr bs
    → in_block m current ptr ≡ true
Passed-all m current ptr (here i) (inl e, p) = rw (← e) i
Passed-all m current ptr (here i) (inr e, p) = cc
Passed-all m current ptr (there i) (a, p) = Passed-all m current ptr i p

-- With more steps than the chain has blocks, and blocks that end within the address space,
-- `arena_contains_fn` ends, changes nothing and answers exactly: yes when the address is behind the
-- header of one of the blocks and before its end, else no.
pub arena_contains_lem :
    (s : State) {bs : List Block} (steps : ℕ) (ptr : Ptr)
    → Chain s.mem s.ctx.first bs
    → All (λ b. b.start + b.size < 2 ^ 64) bs
    → StartsAt s.ctx.current bs
    → length bs < steps
    → Returns (λ a s'. (s' ≡ s) × Answer ptr bs a) (arena_contains_fn steps ptr s)
unfolding arena_contains_fn
arena_contains_lem s {bs} steps ptr c low at h =
    elim (Bool-cases (in_block s.mem s.ctx.current ptr)) [
      | inl inside ↦ rw inside (refl, found (InSome-Covered c low (InSome-current at inside)))
      | inr outside ↦ elim (contains_loop_lem s.mem s.ctx.current ptr steps c h) [
        | inl (e, i) ↦ rw (outside, e) (refl, found (InSome-Covered c low i))
        | inr (e, p) ↦
            rw (outside, e) (refl, missing (λ k. contra p outside (Covered-InSome c low k)))
      ]
    ]
  where
    contra :
        Passed s.mem s.ctx.current ptr bs
        → in_block s.mem s.ctx.current ptr ≡ false
        → ¬ InSome s.mem ptr bs
    contra p outside i = let inside = Passed-all s.mem s.ctx.current ptr i p in cc
