-- ===== src/Pool.antt =====
-- src/allo_pool.c: blocks of one size, with a list of the free ones kept inside them.
pub mod Init
pub mod Inv
pub mod Ops
pub mod Make
mod Tests
use liballo.Base.{
  ℕ, zero, suc, ◌+◌, ◌-◌, Bool, true, false, Option, none, some, not, ◌&&◌, ◌||◌, ltb, leb, ◌==◌,
  if◌then◌else◌, add64, mul64, refl,
}
use liballo.Base.Cmd.{Cmd, pure, ◌>>=◌, ◌>>◌, assert, gets, modify, Slot, zoom}
use liballo.Mem.{Ptr, null, Memory, update, align_up}
use liballo.Allo.{
  Error, ok, err_nomem, err_inval, Contains, contains_no, contains_yes, Allo, allo_alloc, allo_free,
}

-- `pool_context_t`; its child is an argument of the functions that call it.
pub record PoolContext : Type 0 where
  pub buffer : Ptr
  pub block_size : ℕ
  pub total_blocks : ℕ
  pub free_list : Ptr
  pub own_buffer : Bool

-- The context in `self->_state`, and the memory, where `word` holds the `pool_free_node_t`s.
pub record State : Type 0 where
  pub ctx : PoolContext
  pub mem : Memory

pub in_buffer : PoolContext → Ptr → Bool
in_buffer c ptr = leb c.buffer ptr && ltb ptr (add64 c.buffer (mul64 c.block_size c.total_blocks))

pub pool_contains_fn : Ptr → Cmd State Contains
unfolding in_buffer
pool_contains_fn ptr = gets λ s. if in_buffer s.ctx ptr then contains_yes else contains_no

pub pool_alloc_fn : ℕ → Cmd State Ptr
pool_alloc_fn size s =
    if size == 0
    then some (null, s)
    else if ltb s.ctx.block_size size
    then some (null, s)
    else if s.ctx.free_list == null
    then some (null, s)
    else some (
      s.ctx.free_list,
      record s { ctx = record (s.ctx) { free_list = s.mem.word s.ctx.free_list } },
    )

pub pool_realloc_fn : Ptr → (old_size new_size : ℕ) → Cmd State Ptr
unfolding in_buffer
pool_realloc_fn ptr old_size new_size = do
  ctx ← gets (λ s. s.ctx)
  assert ((ptr == null) || in_buffer ctx ptr)
  if leb new_size ctx.block_size then pure ptr else pure null

pub pool_free_fn : Ptr → ℕ → Cmd State (Unit {0})
unfolding in_buffer
pool_free_fn ptr size = if ptr == null then pure tt else (do
  ctx ← gets (λ s. s.ctx)
  assert (in_buffer ctx ptr)
  modify λ s. record {
    ctx = record (s.ctx) { free_list = ptr };
    mem = record (s.mem) { word = update s.mem.word ptr s.ctx.free_list };
  })

-- The loop of `make_pool_allocator`, from round `i` on, with the rounds that are left.
pub init_loop : (rounds i total_blocks block_size : ℕ) → (curr : Ptr) → Memory → Memory
init_loop zero i total_blocks block_size curr m = m
init_loop (suc k) i total_blocks block_size curr m =
    let up = add64 curr block_size in
    let go_on =
      init_loop k (i + 1) total_blocks block_size up (record m { word = update m.word curr up }) in
    let stop =
      init_loop k (i + 1) total_blocks block_size curr
        (record m { word = update m.word curr null }) in
    if ltb i (total_blocks - 1) then go_on else stop

-- What `make_pool_allocator` writes before it has the buffer.
pub prepare : (block_size total_blocks : ℕ) → (own_buffer : Bool) → State → State
prepare block_size total_blocks own_buffer s = record s {
  ctx = record {
    buffer = null;
    block_size = block_size;
    total_blocks = total_blocks;
    free_list = null;
    own_buffer = own_buffer;
  };
}

-- What `make_pool_allocator` writes once it has the buffer.
pub init : (buffer : Ptr) → (block_size total_blocks : ℕ) → (own_buffer : Bool) → State → State
unfolding init_loop
init buffer block_size total_blocks own_buffer s = record {
  ctx = record {
    buffer = buffer;
    block_size = block_size;
    total_blocks = total_blocks;
    free_list = buffer;
    own_buffer = own_buffer;
  };
  mem = init_loop total_blocks 0 total_blocks block_size buffer s.mem;
}

-- The size of a block: room for a free node, rounded up to 8.
pub actual_size : ℕ → ℕ
actual_size block_size = align_up (if ltb block_size 8 then 8 else block_size) 8

abbrev is_none : {A : Type 0} → Option A → Bool
is_none none = true
is_none (some a) = false

-- The guard of `make_pool_allocator`.
pub bad_arguments :
    (out : Ptr) → (no_child : Bool) → (buffer : Ptr) → (block_size total_blocks : ℕ) → Bool
bad_arguments out no_child buffer block_size total_blocks =
    (out == null) || ((buffer == null) && no_child) || (block_size == 0) || (total_blocks == 0)

module _ {W : Type 0} (self : Slot W State) where
  pub pool_destroy_fn : Option (Allo W) → Cmd W (Unit {0})
  pool_destroy_fn none = pure tt
  pool_destroy_fn (some child) = do
    ctx ← gets (λ w. (self.get w).ctx)
    if ctx.own_buffer
        then allo_free child ctx.buffer (mul64 ctx.block_size ctx.total_blocks)
        else pure tt

  -- The functions, run on the whole state.
  abbrev pub pool_allocator : Option (Allo W) → Allo W
  pool_allocator child = record {
    alloc = λ size. zoom self (pool_alloc_fn size);
    realloc = λ ptr old_size new_size. zoom self (pool_realloc_fn ptr old_size new_size);
    free_mem = λ ptr size. zoom self (pool_free_fn ptr size);
    destroy = some (pool_destroy_fn child);
    contains = some (λ ptr. zoom self (pool_contains_fn ptr));
  }

  -- The buffer: the caller's, or one from the child.
  pub pool_buffer : Option (Allo W) → (buffer : Ptr) → ℕ → Cmd W Ptr
  pool_buffer none buffer size = pure buffer
  pool_buffer (some child) buffer size =
      if buffer == null then allo_alloc child size else pure buffer

  pub make_pool_allocator :
      (out : Ptr)
      → (child : Option (Allo W)) → (buffer : Ptr) → (block_size total_blocks : ℕ)
      → Cmd W (Error × Option (Allo W))
  make_pool_allocator out child buffer block_size total_blocks =
      if bad_arguments out (is_none child) buffer block_size total_blocks
      then pure (err_inval, none)
      else (do
        let size = actual_size block_size
        zoom self (modify (prepare size total_blocks (buffer == null)))
        start ← pool_buffer child buffer (mul64 size total_blocks)
        if start == null then pure (err_nomem, none) else (do
          zoom self (modify (init start size total_blocks (buffer == null)))
          pure (ok, some (pool_allocator child))))
