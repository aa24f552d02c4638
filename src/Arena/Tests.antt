-- ===== src/Arena/Tests.antt =====
-- An arena of two blocks, over a child that writes into the blocks that it takes back.
use liballo.Base.{
  ◌-◌, ◌+◌, length, false, ℕ, ◌≡◌, refl, subst, inl, none, some, List, [], ◌∷◌, arith, ◌==◌,
  Bool-cases, inr, ==_iff, if◌then◌else◌,
}
use liballo.Base.Cmd.{Returns, Slot}
use liballo.Mem.{Ptr, null, align_up, InRange, update}
use liballo.Blocks.{Removed, here, there, Block, block}
use liballo.Allo.{Allo}
use liballo.Arena.{State, arena_contains_fn, arena_alloc_fn, arena_destroy_fn}
use liballo.Arena.Chain.{Chain, end, link, first, Answer, arena_contains_lem}
use liballo.Arena.Release.{TakesBack, OnlyIn, arena_destroy_lem}

-- 40 bytes at 8192, of which 8 are used, and a block of 64 bytes for a large request at 4096.
abbrev two_blocks : State
two_blocks = record {
  ctx = record { first = 8192; current = 8192; block_size = 40 };
  mem = record {
    byte = λ p. 0;
    word = λ p.
        if p == 8192
        then 4096
        else if p == 8200
        then 40
        else if p == 8208
        then 8
        else if p == 4104
        then 64
        else 0;
  };
}

abbrev blocks : List Block
blocks = block 8192 64 ∷ block 4096 88 ∷ []

blocks-Chain : Chain two_blocks.mem 8192 blocks
blocks-Chain = link (omega arith) (omega arith) refl (link (omega arith) (omega arith) refl end)

-- The arena, and how many blocks the child has lent.
record Lending : Type 0 where
  arena : State
  lent : ℕ

abbrev self : Slot Lending State
self = record {
  get = λ w. w.arena;
  put = λ s w. record w { arena = s };
  get-put = λ s w. refl;
  put-get = λ w. refl;
  put-put = λ s t w. refl;
}

abbrev wiped : Ptr → ℕ → State → State
wiped p n s =
    if n == 0 then s else record s { mem = record (s.mem) { word = update s.mem.word p 0 } }

-- A release fails an assertion when nothing is lent.
abbrev child : Allo Lending
child = record {
  alloc = λ n w. some (null, w);
  realloc = λ p old new w. some (null, w);
  free_mem = λ p n w.
      if w.lent == 0
      then none
      else some (tt, record { arena = wiped p n w.arena; lent = w.lent - 1 });
  destroy = none;
  contains = none;
}

abbrev start : Lending
start = record { arena = two_blocks; lent = 2 }

alloc_next :
    arena_alloc_fn self child 20 start
    ≡ some (
      8224,
      record start {
        arena = record two_blocks {
          mem = record (two_blocks.mem) { word = update two_blocks.mem.word 8208 28 };
        };
      },
    )
unfolding arena_alloc_fn align_up
alloc_next = refl

arena_contains_lem_example :
    Returns (λ a s'. (s' ≡ two_blocks) × Answer 4150 blocks a) (arena_contains_fn 3 4150 two_blocks)
arena_contains_lem_example =
    arena_contains_lem two_blocks 3 4150 blocks-Chain (omega arith, omega arith) (first refl)
      (omega arith)

abbrev Lent : List Block → Lending → Type 0
Lent bs w = w.lent ≡ length bs

wiped-OnlyIn : (p n : ℕ) (s : State) → OnlyIn p n s.mem (wiped p n s).mem
wiped-OnlyIn p n s = elim (Bool-cases (n == 0)) [
  | inl empty ↦ rw empty (λ q out. refl)
  | inr some_size ↦ rw some_size (λ q out. elim (Bool-cases (p == q)) [
    | inl at ↦ absurd (out (subst (InRange p n) ((==_iff _ _).0 at) (ground (arith, some_size))))
    | inr other ↦ rw other refl
  ])
]

Removed-length :
    {b : Block} {bs rest : List Block} → Removed b bs rest → length bs ≡ length rest + 1
Removed-length here = omega arith
Removed-length (there r) = omega (arith, Removed-length r)

child-TakesBack : TakesBack self child Lent
unfolding TakesBack
child-TakesBack bs rest p n w l r =
    let some_lent : (w.lent == 0) ≡ false = ground (arith, Removed-length r) in
    rw some_lent (omega (arith, Removed-length r), wiped-OnlyIn p n w.arena)

arena_destroy_lem_example : Returns (λ _ w'. w'.lent ≡ 0) (arena_destroy_fn self child 3 start)
arena_destroy_lem_example =
    arena_destroy_lem self child Lent child-TakesBack 3 start refl blocks-Chain
      ((inr (omega arith), tt), (tt, tt)) (omega arith)
