-- ===== src/Page.antt =====
-- src/allo_page.c and src/allo_page_posix.h: pages from the operating system, with a registry of
-- the mappings in pages of its own.
pub mod Registry
pub mod Inv
pub mod Lookup
pub mod Resize
mod Tests
use liballo.Base.{
  ℕ, zero, suc, ◌+◌, ◌-◌, ◌*◌, ◌/◌, ◌^◌, Bool, true, false, Option, none, some, ◌&&◌, leb, ltb,
  ◌==◌, if◌then◌else◌, add64, sub64, mul64, not64, bit_and,
}
use liballo.Base.Cmd.{Cmd, pure, ◌>>=◌, ◌>>◌, gets, modify, Slot, zoom}
use liballo.Mem.{Ptr, null}
use liballo.Allo.{Error, ok, err_nomem, err_inval, Contains, contains_no, contains_yes, Allo}

-- The system calls; `munmap`'s answer is not read.
pub record Os (W : Type 0) : Type 0 where
  pub page_size : ℕ
  pub mmap : ℕ → Cmd W Ptr
  pub munmap : Ptr → ℕ → Cmd W (Unit {0})
  pub mremap : Ptr → (old_len new_len : ℕ) → Cmd W Ptr

-- `MAP_FAILED`, `(void *)-1`
abbrev pub map_failed : Ptr
map_failed = 2 ^ 64 - 1

-- `page_entry_t`
pub record PageEntry : Type 0 where
  pub addr : Ptr
  pub size : ℕ

abbrev pub sizeof_entry : ℕ
sizeof_entry = 16

-- `page_context_t`; `entry i` is `registry[i]`.
pub record PageContext : Type 0 where
  pub page_size : ℕ
  pub registry : Ptr
  pub entry : ℕ → PageEntry
  pub count : ℕ
  pub capacity : ℕ

abbrev pub set_entry : (ℕ → PageEntry) → ℕ → PageEntry → ℕ → PageEntry
set_entry f i e j = if i == j then e else f j

pub registry_add : Ptr → ℕ → PageContext → PageContext
registry_add addr size c = record c {
  entry = set_entry c.entry c.count (record { addr = addr; size = size });
  count = c.count + 1;
}

-- The loop from index `i` on, with the entries that are left.
pub find_addr : (Ptr) → (ℕ → PageEntry) → (rounds i : ℕ) → Option ℕ
find_addr addr entry zero i = none
find_addr addr entry (suc n) i =
    let rest = find_addr addr entry n (i + 1) in if (entry i).addr == addr then some i else rest

pub registry_remove : Ptr → PageContext → PageContext
unfolding find_addr
registry_remove addr c = elim (find_addr addr c.entry c.count 0) [
  | none ↦ c
  | some i ↦ record c { entry = set_entry c.entry i (c.entry (c.count - 1)); count = c.count - 1 }
]

-- The update of the entry that `page_realloc_fn` has moved.
pub registry_move : (addr new_addr : Ptr) → (new_size : ℕ) → PageContext → PageContext
unfolding find_addr
registry_move addr new_addr new_size c = elim (find_addr addr c.entry c.count 0) [
  | none ↦ c
  | some i ↦ record c { entry = set_entry c.entry i (record { addr = new_addr; size = new_size }) }
]

-- `(size + page_size - 1) & ~(page_size - 1)`
pub round_page : (page_size size : ℕ) → ℕ
round_page page_size size = bit_and (sub64 (add64 size page_size) 1) (not64 (sub64 page_size 1))

pub in_entry : Ptr → PageEntry → Bool
in_entry ptr e = leb e.addr ptr && ltb ptr (add64 e.addr e.size)

pub contains_loop : Ptr → (ℕ → PageEntry) → (rounds i : ℕ) → Contains
unfolding in_entry
contains_loop ptr entry zero i = contains_no
contains_loop ptr entry (suc n) i =
    let rest = contains_loop ptr entry n (i + 1) in
    if in_entry ptr (entry i) then contains_yes else rest

module _ {W : Type 0} (os : Os W) (self : Slot W PageContext) where
  pub allo_os_mmap : ℕ → Cmd W Ptr
  allo_os_mmap length = do ptr ← os.mmap length; if ptr == map_failed then pure null else pure ptr

  pub allo_os_mremap : Ptr → (old_len new_len : ℕ) → Cmd W Ptr
  allo_os_mremap addr old_len new_len = do
    ptr ← os.mremap addr old_len new_len
    if ptr == map_failed then pure null else pure ptr

  pub grow_registry : PageContext → Cmd W Bool
  grow_registry ctx = do
    let old_size = mul64 ctx.capacity sizeof_entry
    let new_size = add64 old_size ctx.page_size
    new_reg ← allo_os_mremap ctx.registry old_size new_size
    if new_reg == null then pure false else (do
      zoom self (modify λ c. record c { registry = new_reg; capacity = new_size / sizeof_entry })
      pure true)

  pub registry_ensure_capacity : Cmd W Bool
  registry_ensure_capacity = do
    ctx ← gets self.get
    if ctx.count == ctx.capacity then grow_registry ctx else pure true

  -- The second half of `page_alloc_fn`, where the registry has room.
  pub map_pages : ℕ → Cmd W Ptr
  map_pages size = do
    ctx ← gets self.get
    let rounded_size = round_page ctx.page_size size
    ptr ← allo_os_mmap rounded_size
    if ptr == null
        then pure null
        else (do zoom self (modify (registry_add ptr rounded_size)); pure ptr)

  pub page_alloc_fn : ℕ → Cmd W Ptr
  page_alloc_fn size =
      if size == 0
      then pure null
      else (do room ← registry_ensure_capacity; if room then map_pages size else pure null)

  pub page_realloc_fn : Ptr → (old_size new_size : ℕ) → Cmd W Ptr
  page_realloc_fn ptr old_size new_size = if ptr == null then page_alloc_fn new_size else (do
    ctx ← gets self.get
    let rounded_old = round_page ctx.page_size old_size
    let rounded_new = round_page ctx.page_size new_size
    if rounded_old == rounded_new then pure ptr else (do
      new_ptr ← allo_os_mremap ptr rounded_old rounded_new
      if new_ptr == null
          then pure null
          else (do zoom self (modify (registry_move ptr new_ptr rounded_new)); pure new_ptr)))

  pub page_free_fn : Ptr → ℕ → Cmd W (Unit {0})
  page_free_fn ptr size = if ptr == null then pure tt else (do
    ctx ← gets self.get
    zoom self (modify (registry_remove ptr))
    os.munmap ptr (round_page ctx.page_size size))

  unmap_all : (ℕ → PageEntry) → (rounds i : ℕ) → Cmd W (Unit {0})
  unmap_all entry zero i = pure tt
  unmap_all entry (suc n) i = do os.munmap (entry i).addr (entry i).size; unmap_all entry n (i + 1)

  pub page_destroy_fn : Cmd W (Unit {0})
  unfolding unmap_all
  page_destroy_fn = do
    ctx ← gets self.get
    unmap_all ctx.entry ctx.count 0
    os.munmap ctx.registry (mul64 ctx.capacity sizeof_entry)

  pub page_contains_fn : Ptr → Cmd W Contains
  unfolding contains_loop
  page_contains_fn ptr = gets λ w. contains_loop ptr (self.get w).entry (self.get w).count 0

  abbrev page_allocator : Allo W
  page_allocator = record {
    alloc = page_alloc_fn;
    realloc = page_realloc_fn;
    free_mem = page_free_fn;
    destroy = some page_destroy_fn;
    contains = some page_contains_fn;
  }

  pub make_page_allocator : (out : Ptr) → Cmd W (Error × Option (Allo W))
  make_page_allocator out = if out == null then pure (err_inval, none) else (do
    zoom self (
        modify λ c. record c {
          page_size = os.page_size;
          count = 0;
          capacity = os.page_size / sizeof_entry;
        })
    registry ← allo_os_mmap os.page_size
    zoom self (modify λ c. record c { registry = registry })
    if registry == null then pure (err_nomem, none) else pure (ok, some page_allocator))
