-- ===== src/Mtx.antt =====
-- src/allo_mtx.c: each operation of a target allocator, run while a mutex is held.
pub mod Transparent
pub mod Threads
pub mod Owner
pub mod Exclusion
pub mod Code
mod Tests
use liballo.Base.{ℕ, ◌≡◌, Bool, true, false, Option, none, some, ◌==◌, if◌then◌else◌}
use liballo.Base.Cmd.{Cmd, pure, ◌>>=◌, ◌>>◌, Slot}
use liballo.Mem.{Ptr, null}
use liballo.Allo.{
  Error, ok, err_nomem, err_inval, Contains, Allo, allo_alloc, allo_free, allo_realloc,
  allo_contains,
}

-- <threads.h>, for one mutex: `mtx_init` says whether it succeeded, and a lock of a mutex that is
-- held does not return.
pub record MtxOps (W : Type 0) : Type 0 where
  pub mtx_init : Cmd W Bool
  pub mtx_lock : Cmd W (Unit {0})
  pub mtx_unlock : Cmd W (Unit {0})
  pub mtx_destroy : Cmd W (Unit {0})

-- What the C standard says of it, where `held` is the part of the state that tells whether the
-- mutex is held.
pub record IsMutex {W : Type 0} (held : Slot W Bool) (mtx : MtxOps W) : Type 0 where
  pub lock_free : (w : W) → held.get w ≡ false → mtx.mtx_lock w ≡ some (tt, held.put true w)
  pub lock_held : (w : W) → held.get w ≡ true → mtx.mtx_lock w ≡ none
  pub unlock_held : (w : W) → held.get w ≡ true → mtx.mtx_unlock w ≡ some (tt, held.put false w)

module _ {W : Type 0} (mtx : MtxOps W) (target : Allo W) where
  pub allo_mtx_alloc : ℕ → Cmd W Ptr
  allo_mtx_alloc size = do mtx.mtx_lock; ptr ← allo_alloc target size; mtx.mtx_unlock; pure ptr

  pub allo_mtx_realloc : Ptr → (old_size new_size : ℕ) → Cmd W Ptr
  allo_mtx_realloc ptr old_size new_size = do
    mtx.mtx_lock
    new_ptr ← allo_realloc target ptr old_size new_size
    mtx.mtx_unlock
    pure new_ptr

  pub allo_mtx_free : Ptr → ℕ → Cmd W (Unit {0})
  allo_mtx_free ptr size = do mtx.mtx_lock; allo_free target ptr size; mtx.mtx_unlock; pure tt

  pub allo_mtx_destroy : Cmd W (Unit {0})
  allo_mtx_destroy = mtx.mtx_destroy

  pub allo_mtx_contains : Ptr → Cmd W Contains
  allo_mtx_contains ptr = do
    mtx.mtx_lock
    result ← allo_contains target ptr
    mtx.mtx_unlock
    pure result

  abbrev pub mtx_allocator : Allo W
  mtx_allocator = record {
    alloc = allo_mtx_alloc;
    realloc = allo_mtx_realloc;
    free_mem = allo_mtx_free;
    destroy = some allo_mtx_destroy;
    contains = some allo_mtx_contains;
  }

pub make_mtx_allocator :
    {W : Type 0}
    → MtxOps W
    → (out : Ptr) → (target : Option (Allo W)) → Cmd W (Error × Option (Allo W))
make_mtx_allocator mtx out none = pure (err_inval, none)
make_mtx_allocator mtx out (some target) = if out == null then pure (err_inval, none) else (do
  success ← mtx.mtx_init
  if success then pure (ok, some (mtx_allocator mtx target)) else pure (err_nomem, none))
