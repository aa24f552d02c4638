-- ===== src/Allo/Contract.antt =====
-- What an allocator may expect of the child that it was made with.
use liballo.Base.{ℕ, ◌+◌, ◌%◌, ◌^◌, ◌<◌, ◌≡◌, ◌≢◌, ◌⊎◌}
use liballo.Base.Cmd.{Returns, Slot}
use liballo.Mem.{Ptr, null}
use liballo.Allo.{Allo}

-- A non-NULL answer to a request for `n` bytes: aligned, and within the address space.
pub record IsBlock (n : ℕ) (p : Ptr) : Type 0 where
  pub ne_null : p ≢ null
  pub aligned : p % 8 ≡ 0
  pub fits : p + n < 2 ^ 64

-- While `I` holds, a request ends, with NULL or such a block, and a release ends. `I` does not
-- depend on the part of the state that the client of the child keeps in `self`.
pub record Provides {W S : Type 0} (I : W → Type 0) (self : Slot W S) (child : Allo W)
    : Type 0 where
  pub alloc_ends :
      (n : ℕ) (w : W) → I w → Returns (λ p w'. I w' × ((p ≡ null) ⊎ IsBlock n p)) (child.alloc n w)
  pub free_ends : (p n : ℕ) (w : W) → I w → Returns (λ _ w'. I w') (child.free_mem p n w)
  pub apart : (s : S) (w : W) → I w → I (self.put s w)
