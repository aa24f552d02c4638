-- ===== src/Arena.antt =====
-- src/allo_arena.c: a linear allocator over a chain of blocks from a child.
--
-- A block begins with the three fields of `arena_block_t`, 24 bytes. The loops that follow `next`
-- take the number of steps that they may make; when they need more there is no result.
pub mod Chain
pub mod Release
pub mod Inv
pub mod Offset
pub mod Resize
pub mod Inserted
pub mod Insert
pub mod Frame
pub mod Request
pub mod Alloc
pub mod Parts
pub mod Realloc
pub mod Make
pub mod Heap
mod Runs
mod Tests
use liballo.Base.{
  ℕ, zero, suc, ◌+◌, Bool, Option, none, some, not, ◌&&◌, ◌||◌, ltb, leb, ◌==◌, if◌then◌else◌,
  add64, sub64, refl,
}
use liballo.Base.Cmd.{Cmd, pure, ◌>>=◌, ◌>>◌, gets, modify, Slot, zoom}
use liballo.Mem.{Ptr, null, Memory, MemOps, update, align_up, allo_memcpy}
use liballo.Allo.{
  Error, ok, err_nomem, err_inval, Contains, contains_no, contains_yes, Allo, allo_alloc, allo_free,
}

-- `arena_context_t`; its child is an argument of the functions that call it.
pub record ArenaContext : Type 0 where
  pub first : Ptr
  pub current : Ptr
  pub block_size : ℕ

pub record State : Type 0 where
  pub ctx : ArenaContext
  pub mem : Memory

abbrev pub memory : Slot State Memory
memory = record {
  get = λ s. s.mem;
  put = λ m s. record s { mem = m };
  get-put = λ m s. refl;
  put-get = λ s. refl;
  put-put = λ m n s. refl;
}

-- `sizeof(arena_block_t)` and the fields of a block.
abbrev pub header : ℕ
header = 24

abbrev pub next_of : Memory → Ptr → Ptr
next_of m block = m.word block

abbrev pub size_of : Memory → Ptr → ℕ
size_of m block = m.word (add64 block 8)

abbrev pub offset_of : Memory → Ptr → ℕ
offset_of m block = m.word (add64 block 16)

abbrev pub set_next : Ptr → Ptr → State → State
set_next block next s = record s { mem = record (s.mem) { word = update s.mem.word block next } }

abbrev pub set_size : Ptr → ℕ → State → State
set_size block size s = record s {
  mem = record (s.mem) { word = update s.mem.word (add64 block 8) size };
}

abbrev pub set_offset : Ptr → ℕ → State → State
set_offset block offset s = record s {
  mem = record (s.mem) { word = update s.mem.word (add64 block 16) offset };
}

abbrev pub set_current : Ptr → State → State
set_current block s = record s { ctx = record (s.ctx) { current = block } }

-- `block->next = ctx->current->next; ctx->current->next = block;`
abbrev pub insert_after : (current block : Ptr) → State → State
insert_after current block s = set_next current block (set_next block (next_of s.mem current) s)

-- `ptr >= block_start && ptr < block_end`
pub in_block : Memory → (block ptr : Ptr) → Bool
in_block m block ptr =
    let block_start = add64 block header in
    leb block_start ptr && ltb ptr (add64 block_start (size_of m block))

-- The loop of `arena_contains_fn`.
pub contains_loop : (steps : ℕ) → Memory → (current curr ptr : Ptr) → Option Contains
unfolding in_block
contains_loop zero m current curr ptr = none
contains_loop (suc n) m current curr ptr =
    let rest = contains_loop n m current (next_of m curr) ptr in
    if curr == null
    then some contains_no
    else if not (curr == current) && in_block m curr ptr
    then some contains_yes
    else rest

abbrev answer : {S A : Type 0} → S → Option A → Option (A × S)
answer s none = none
answer s (some a) = some (a, s)

pub arena_contains_fn : (steps : ℕ) → Ptr → Cmd State Contains
unfolding contains_loop
arena_contains_fn steps ptr s =
    if in_block s.mem s.ctx.current ptr
    then some (contains_yes, s)
    else answer s (contains_loop steps s.mem s.ctx.current s.ctx.first ptr)

module _ {W : Type 0} (self : Slot W State) (child : Allo W) where
  pub new_arena_block : ℕ → Cmd W Ptr
  new_arena_block size = do
    block ← allo_alloc child (add64 header size)
    if block == null then pure null else (do
      zoom self (modify λ s. set_offset block 0 (set_size block size (set_next block null s)))
      pure block)

  -- The end of `arena_alloc_fn`, in the current block.
  take : (aligned_offset size : ℕ) → Cmd State Ptr
  take aligned_offset size = do
    ctx ← gets (λ s. s.ctx)
    modify (set_offset ctx.current (add64 aligned_offset size))
    pure (add64 (add64 ctx.current header) aligned_offset)

  pub arena_alloc_fn : ℕ → Cmd W Ptr
  unfolding new_arena_block take
  arena_alloc_fn size = if size == 0 then pure null else (do
    s ← gets self.get
    let aligned_offset = align_up (offset_of s.mem s.ctx.current) 8
    if ltb s.ctx.block_size size
        then (do
          block ← new_arena_block size
          if block == null then pure null else (do
            zoom self (modify λ s'. set_offset block size (insert_after s'.ctx.current block s'))
            pure (add64 block header)))
        else if ltb (size_of s.mem s.ctx.current) (add64 aligned_offset size)
        then (do
          block ← new_arena_block s.ctx.block_size
          if block == null then pure null else (do
            zoom self (modify λ s'. set_current block (insert_after s'.ctx.current block s'))
            zoom self (take 0 size)))
        else zoom self (take aligned_offset size))

  -- The second half of `arena_realloc_fn`, where the block cannot change in place.
  realloc_moved : MemOps → Ptr → (old_size new_size : ℕ) → Cmd W Ptr
  unfolding arena_alloc_fn
  realloc_moved ops ptr old_size new_size = if leb new_size old_size then pure ptr else (do
    new_ptr ← arena_alloc_fn new_size
    if new_ptr == null
        then pure null
        else (do zoom self (zoom memory (allo_memcpy ops new_ptr ptr old_size)); pure new_ptr))

  pub arena_realloc_fn : MemOps → Ptr → (old_size new_size : ℕ) → Cmd W Ptr
  unfolding realloc_moved
  arena_realloc_fn ops ptr old_size new_size = do
    s ← gets self.get
    let block_start = add64 s.ctx.current header
    let last_alloc_end = add64 block_start (offset_of s.mem s.ctx.current)
    let is_last_alloc = add64 ptr old_size == last_alloc_end
    let belongs_to_current = leb block_start ptr
    let offset_without_this = sub64 ptr block_start
    let fits_in_current = leb (add64 offset_without_this new_size) (size_of s.mem s.ctx.current)
    if is_last_alloc && belongs_to_current && fits_in_current
        then (do
          zoom self (modify (set_offset s.ctx.current (add64 offset_without_this new_size)))
          pure ptr)
        else realloc_moved ops ptr old_size new_size

  -- Beyond the search, only the shadow memory of a sanitizer changes.
  pub arena_free_fn : (steps : ℕ) → Ptr → ℕ → Cmd W (Unit {0})
  unfolding arena_contains_fn
  arena_free_fn steps ptr size =
      if (ptr == null) || (size == 0)
      then pure tt
      else (do found ← zoom self (arena_contains_fn steps ptr); pure tt)

  -- The loop of `arena_destroy_fn`.
  destroy_loop : (steps : ℕ) → Ptr → Cmd W (Unit {0})
  destroy_loop zero curr = λ w. none
  destroy_loop (suc n) curr =
      let rest = destroy_loop n in
      if curr == null then pure tt else (do
        m ← gets (λ w. (self.get w).mem)
        allo_free child curr (add64 header (size_of m curr))
        rest (next_of m curr))

  pub arena_destroy_fn : (steps : ℕ) → Cmd W (Unit {0})
  unfolding destroy_loop
  arena_destroy_fn steps = do ctx ← gets (λ w. (self.get w).ctx); destroy_loop steps ctx.first

  -- The functions, run on the whole state.
  abbrev pub arena_allocator : MemOps → (steps : ℕ) → Allo W
  arena_allocator ops steps = record {
    alloc = arena_alloc_fn;
    realloc = arena_realloc_fn ops;
    free_mem = arena_free_fn steps;
    destroy = some (arena_destroy_fn steps);
    contains = some (λ ptr. zoom self (arena_contains_fn steps ptr));
  }

  -- The factory, from its child on.
  make_with_child : MemOps → (steps : ℕ) → (block_size : ℕ) → Cmd W (Error × Option (Allo W))
  unfolding new_arena_block
  make_with_child ops steps block_size = do
    zoom self (
        modify
          λ s. record s { ctx = record { first = null; current = null; block_size = block_size } })
    first ← new_arena_block block_size
    zoom self (modify λ s. record s { ctx = record (s.ctx) { first = first } })
    if first == null then pure (err_nomem, none) else (do
      zoom self (modify (set_current first))
      pure (ok, some (arena_allocator ops steps)))

pub make_arena_allocator :
    {W : Type 0}
    → Slot W State
    → MemOps
    → (steps : ℕ) → (out : Ptr) → (child : Option (Allo W)) → ℕ
    → Cmd W (Error × Option (Allo W))
unfolding make_with_child
make_arena_allocator self ops steps out none block_size = pure (err_inval, none)
make_arena_allocator self ops steps out (some child) block_size =
    if (out == null) || (block_size == 0)
    then pure (err_inval, none)
    else make_with_child self child ops steps block_size
