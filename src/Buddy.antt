-- ===== src/Buddy.antt =====
-- src/allo_buddy.c: a binary buddy allocator: the order of a size, the free lists, the bit set and
-- the operations. The factory and the destruction are in the child Make.
--
-- The arrays that the allocator obtains from its child and that no one else can reach are functions
-- of the index in the context (`heads` for `free_lists`, `bits` for the bytes of `bitset`, `orders`
-- for `block_orders`), beside their addresses. The links of free blocks are words of the memory.
pub mod Order
pub mod Links
pub mod Unlink
pub mod Flags
pub mod Tiling
pub mod Inv
pub mod Steps
pub mod Take
pub mod Give
pub mod Halve
pub mod Split
pub mod Level
pub mod TakeFrom
pub mod Alloc
pub mod Merge
pub mod Free
pub mod Whole
pub mod Calls
pub mod Apart
pub mod Separate
pub mod Realloc
pub mod Make
mod Runs
mod Loans
mod Tests
use liballo.Base.{
  ℕ, zero, suc, ◌+◌, ◌-◌, ◌/◌, ◌%◌, ◌^◌, bit_and, bit_or, bit_xor, Bool, Option, none, some, ◌&&◌,
  ◌||◌, ltb, leb, ◌==◌, if◌then◌else◌, add64, sub64, mul64, refl,
}
use liballo.Base.Cmd.{Cmd, pure, ◌>>=◌, ◌>>◌, assert, gets, modify, Slot, zoom}
use liballo.Mem.{Ptr, null, Memory, MemOps, update, allo_memcpy}
use liballo.Allo.{Contains, contains_no, contains_yes}

-- `if (val & mask) { val >>= shift; order += shift; }`
pub narrow : (mask shift : ℕ) → ℕ × ℕ → ℕ × ℕ
narrow mask shift (val, order) =
    if bit_and val mask == 0 then (val, order) else (val / 2 ^ shift, order + shift)

-- `if (val & 1) order += 1;`
pub last_bit : ℕ × ℕ → ℕ
last_bit (val, order) = if bit_and val 1 == 0 then order else order + 1

-- `get_order` without compiler builtins, for a `size_t` of 8 bytes.
pub get_order_portable : ℕ → ℕ
get_order_portable size =
    if leb size 1
    then 0
    else last_bit (
        narrow 0x2 1 (
          narrow 0xc 2 (
            narrow 0xf0 4 (
              narrow 0xff00 8
                (narrow 0xffff_0000 16 (narrow 0xffff_ffff_0000_0000 32 (size - 1, 0)))))))

-- `get_order` with `__builtin_clzll`, a function of the compiler.
pub get_order : (clzll : ℕ → ℕ) → ℕ → ℕ
get_order clzll size = if leb size 1 then 0 else 64 - clzll (size - 1)

-- `buddy_context_t`; its child is an argument of the functions that call it.
pub record BuddyContext : Type 0 where
  pub buffer : Ptr
  pub total_size : ℕ
  pub min_block_size : ℕ
  pub max_order : ℕ
  pub free_lists : Ptr
  pub bitset : Ptr
  pub block_orders : Ptr
  pub own_buffer : Bool
  pub heads : ℕ → Ptr
  pub bits : ℕ → ℕ
  pub orders : ℕ → ℕ

pub record State : Type 0 where
  pub ctx : BuddyContext
  pub mem : Memory

abbrev pub memory : Slot State Memory
memory = record {
  get = λ s. s.mem;
  put = λ m s. record s { mem = m };
  get-put = λ m s. refl;
  put-get = λ s. refl;
  put-put = λ m n s. refl;
}

-- The fields of a `buddy_node_t`.
abbrev pub next_of : State → Ptr → Ptr
next_of s node = s.mem.word node

abbrev pub prev_of : State → Ptr → Ptr
prev_of s node = s.mem.word (add64 node 8)

abbrev set_next : Ptr → Ptr → State → State
set_next node p s = record s { mem = record (s.mem) { word = update s.mem.word node p } }

abbrev set_prev : Ptr → Ptr → State → State
set_prev node p s = record s { mem = record (s.mem) { word = update s.mem.word (add64 node 8) p } }

abbrev set_head : ℕ → Ptr → State → State
set_head level p s = record s { ctx = record (s.ctx) { heads = update s.ctx.heads level p } }

-- The links of the node are words of the memory; that they overwrite its first bytes is not modelled.
pub list_push : (level : ℕ) → (node : Ptr) → State → State
list_push level node s =
    let s' = set_prev node null (set_next node (s.ctx.heads level) s) in
    let head = s'.ctx.heads level in
    set_head level node (if head == null then s' else set_prev head node s')

pub list_remove : (level : ℕ) → (node : Ptr) → State → State
list_remove level node s =
    let s' =
      if prev_of s node == null
      then set_head level (next_of s node) s
      else set_next (prev_of s node) (next_of s node) s in
    if next_of s' node == null then s' else set_prev (next_of s' node) (prev_of s' node) s'

pub node_index : (level index : ℕ) → ℕ
node_index level index = sub64 (add64 (2 ^ level) index) 1

-- `1 << (bit % 8)` is below 256, and `~` of it clears that bit of a byte.
pub set_bit : (ℕ → ℕ) → ℕ → ℕ → ℕ
set_bit bits bit = update bits (bit / 8) (bit_or (bits (bit / 8)) (2 ^ (bit % 8)))

pub clear_bit : (ℕ → ℕ) → ℕ → ℕ → ℕ
clear_bit bits bit = update bits (bit / 8) (bit_and (bits (bit / 8)) (255 - 2 ^ (bit % 8)))

pub get_bit : (ℕ → ℕ) → ℕ → ℕ
get_bit bits bit = bit_and (bits (bit / 8) / 2 ^ (bit % 8)) 1

pub mark_free : (level index : ℕ) → State → State
unfolding set_bit node_index
mark_free level index s = record s {
  ctx = record (s.ctx) { bits = set_bit s.ctx.bits (node_index level index) };
}

pub mark_used : (level index : ℕ) → State → State
unfolding clear_bit node_index
mark_used level index s = record s {
  ctx = record (s.ctx) { bits = clear_bit s.ctx.bits (node_index level index) };
}

-- `ctx->total_size >> level`
abbrev pub size_at : BuddyContext → ℕ → ℕ
size_at c level = c.total_size / 2 ^ level

-- The order of a request, at least that of the smallest block.
pub order_of : BuddyContext → ℕ → ℕ
unfolding get_order_portable
order_of c size =
    let order = get_order_portable size in
    let min_order = get_order_portable c.min_block_size in
    if ltb order min_order then min_order else order

-- The first loop of `buddy_alloc_fn`: down from `level` to one whose list is not empty.
pub find_level : (ℕ → Ptr) → (level : ℕ) → Option ℕ
find_level heads zero = if heads 0 == null then none else some 0
find_level heads (suc l) =
    let rest = find_level heads l in if heads (suc l) == null then rest else some (suc l)

-- The second loop, with the rounds that are left: each keeps the left half and frees the right one.
pub split_loop : (rounds level index : ℕ) → (node : Ptr) → State → State
unfolding list_push mark_free mark_used
split_loop zero level index node s = s
split_loop (suc k) level index node s =
    let level' = level + 1 in
    let index' = mul64 index 2 in
    let buddy = add64 node (size_at s.ctx level') in
    split_loop k level' index' node
      (mark_used level' index' (mark_free level' (index' + 1) (list_push level' buddy s)))

-- `buddy_alloc_fn` from the list that it takes the block from.
pub take_from : (target_level level : ℕ) → Cmd State Ptr
unfolding list_remove mark_used split_loop
take_from target_level level s =
    let node = s.ctx.heads level in
    let offset = sub64 node s.ctx.buffer in
    let index = offset / size_at s.ctx level in
    let s' =
      split_loop (target_level - level) level index node
        (mark_used level index (list_remove level node s)) in
    some (
      node,
      record s' {
        ctx = record (s'.ctx) {
          orders = update s'.ctx.orders (offset / s.ctx.min_block_size) (target_level % 256);
        };
      },
    )

pub buddy_alloc_fn : ℕ → Cmd State Ptr
unfolding order_of find_level take_from
buddy_alloc_fn size s =
    if size == 0
    then some (null, s)
    else if ltb s.ctx.max_order (order_of s.ctx size)
    then some (null, s)
    else elim (find_level s.ctx.heads (s.ctx.max_order - order_of s.ctx size)) [
      | none ↦ some (null, s)
      | some level ↦ take_from (s.ctx.max_order - order_of s.ctx size) level s
    ]

pub in_buffer : BuddyContext → Ptr → Bool
in_buffer c ptr = leb c.buffer ptr && ltb ptr (add64 c.buffer c.total_size)

pub buddy_contains_fn : Ptr → Cmd State Contains
unfolding in_buffer
buddy_contains_fn ptr = gets λ s. if in_buffer s.ctx ptr then contains_yes else contains_no

-- The block becomes free: its bit, and its place at the head of the list.
pub insert : (level index : ℕ) → State → State
unfolding mark_free list_push
insert level index s =
    list_push level (add64 s.ctx.buffer (mul64 index (size_at s.ctx level)))
      (mark_free level index s)

-- The loop of `buddy_free_fn`: while the buddy is free, take it out and go on with the parent.
pub merge_loop : (level index : ℕ) → State → State
unfolding insert list_remove mark_used get_bit node_index
merge_loop zero index s = insert 0 index s
merge_loop (suc l) index s =
    let buddy_idx = bit_xor index 1 in
    let buddy_node = add64 s.ctx.buffer (mul64 buddy_idx (size_at s.ctx (suc l))) in
    let rest =
      merge_loop l (index / 2) (mark_used (suc l) buddy_idx (list_remove (suc l) buddy_node s)) in
    if get_bit s.ctx.bits (node_index (suc l) buddy_idx) == 0 then insert (suc l) index s else rest

-- A shift by a negative level, for a size above the whole buffer, is undefined: there is no result.
pub buddy_free_fn : Ptr → ℕ → Cmd State (Unit {0})
unfolding in_buffer order_of merge_loop
buddy_free_fn ptr size = if ptr == null then pure tt else (do
  ctx ← gets (λ s. s.ctx)
  assert (in_buffer ctx ptr)
  assert (leb (order_of ctx size) ctx.max_order)
  let level = ctx.max_order - order_of ctx size
  modify (merge_loop level (sub64 ptr ctx.buffer / size_at ctx level)))

pub buddy_realloc_fn : MemOps → Ptr → (old_size new_size : ℕ) → Cmd State Ptr
unfolding in_buffer buddy_alloc_fn buddy_free_fn
buddy_realloc_fn ops ptr old_size new_size = do
  ctx ← gets (λ s. s.ctx)
  assert ((ptr == null) || in_buffer ctx ptr)
  if ptr == null
      then buddy_alloc_fn new_size
      else if new_size == 0
      then (do buddy_free_fn ptr old_size; pure null)
      else (do
        new_ptr ← buddy_alloc_fn new_size
        if new_ptr == null then pure null else (do
          zoom memory
              (allo_memcpy ops new_ptr ptr (if ltb old_size new_size then old_size else new_size))
          buddy_free_fn ptr old_size
          pure new_ptr))
