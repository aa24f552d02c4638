-- ===== src/Mtx/Transparent.antt =====
-- The locking wrapper answers as its target does, and every path gives the mutex back.
use liballo.Base.{
  ℕ, ◌≡◌, refl, sym, ◌∙◌, ap, Bool, true, false, Option, none, some, inl, inr, Option-cases,
}
use liballo.Base.Cmd.{Cmd, pure, ◌>>=◌, ◌>>◌, Slot}
use liballo.Allo.{Allo, allo_alloc, allo_free, allo_realloc, allo_contains}
use liballo.Mtx.{
  MtxOps, IsMutex, allo_mtx_alloc, allo_mtx_realloc, allo_mtx_free, allo_mtx_contains,
}

-- The result of a run, with one part of the state overwritten.
abbrev pub with_put : {W S A : Type 0} → Slot W S → S → Option (A × W) → Option (A × W)
with_put slot s none = none
with_put slot s (some (a, w)) = some (a, slot.put s w)

-- A command that neither reads nor changes a part of the state.
abbrev pub Ignores : {W S A : Type 0} → Slot W S → Cmd W A → Type 0
Ignores {W} {S} slot m = (s : S) (w : W) → m (slot.put s w) ≡ with_put slot s (m w)

module _ {W : Type 0} (held : Slot W Bool) (mtx : MtxOps W) (is : IsMutex held mtx) where
  -- A command between the two calls.
  abbrev guarded : {A : Type 0} → Cmd W A → Cmd W A
  guarded m = do mtx.mtx_lock; a ← m; mtx.mtx_unlock; pure a

  held_now : (b : Bool) (w : W) → held.get w ≡ b → held.put b w ≡ w
  held_now b w e = rw (← e) (held.put-get w)

  unlock_lem : (w : W) → mtx.mtx_unlock (held.put true w) ≡ some (tt, held.put false w)
  unlock_lem w =
      rw (is.unlock_held (held.put true w) (held.get-put true w), held.put-put false true w)

  unlocked :
      {A : Type 0} (m : Cmd W A) (w : W)
      → Ignores held m
      → held.get w ≡ false
      → (m >>= λ a. mtx.mtx_unlock >> pure a) (held.put true w) ≡ m w
  unlocked m w ignores e =
      let free : with_put held false (m w) ≡ m w =
        sym (ignores false w) ∙ ap m (held_now false w e) in
      elim (Option-cases (m w)) [
        | inl stops ↦
            let stuck : m (held.put true w) ≡ none =
              ignores true w ∙ ap (with_put held true) stops in
            rw (stuck, ◌>>=◌) (sym stops)
        | inr ((a, w'), ends) ↦
            let run : m (held.put true w) ≡ some (a, held.put true w') =
              ignores true w ∙ ap (with_put held true) ends in
            rw (run, ◌>>=◌)
              (rw (unlock_lem w', ◌>>=◌, ◌>>◌) (ap (with_put held false) (sym ends) ∙ free))
      ]

  guarded_lem :
      {A : Type 0} (m : Cmd W A) (w : W) → Ignores held m → held.get w ≡ false → guarded m w ≡ m w
  guarded_lem m w ignores e = rw (is.lock_free w e, ◌>>=◌, ◌>>◌) (unlocked m w ignores e)

  -- Where the target neither reads nor changes the mutex, and no one holds it, each operation of
  -- the wrapper ends as the target's does, with the same answer and the same state.
  pub mtx_transparent :
      (target : Allo W)
      → ((n : ℕ) → Ignores held (allo_alloc target n))
      → ((p old new : ℕ) → Ignores held (allo_realloc target p old new))
      → ((p n : ℕ) → Ignores held (allo_free target p n))
      → ((p : ℕ) → Ignores held (allo_contains target p))
      → (w : W) → held.get w ≡ false
      → (p n old new : ℕ)
      → (allo_mtx_alloc mtx target n w ≡ allo_alloc target n w)
        × (allo_mtx_realloc mtx target p old new w ≡ allo_realloc target p old new w)
        × (allo_mtx_free mtx target p n w ≡ allo_free target p n w)
        × (allo_mtx_contains mtx target p w ≡ allo_contains target p w)
  unfolding allo_mtx_alloc allo_mtx_realloc allo_mtx_free allo_mtx_contains
  mtx_transparent target a r f c w e p n old new = (
    guarded_lem (allo_alloc target n) w (a n) e,
    guarded_lem (allo_realloc target p old new) w (r p old new) e,
    guarded_lem (allo_free target p n) w (f p n) e,
    guarded_lem (allo_contains target p) w (c p) e,
  )

-- What becomes of the answer does not matter.
pub Ignores-map :
    {W A B : Type 0} (held : Slot W Bool) (m : Cmd W A) (f : A → B)
    → Ignores held m
    → Ignores held (m >>= λ a. pure (f a))
Ignores-map {W} {A} {B} held m f h b w = ap then (h b w) ∙ on_result (m w)
  where
    then : Option (A × W) → Option (B × W)
    then none = none
    then (some (a, w')) = some (f a, w')

    on_result : (r : Option (A × W)) → then (with_put held b r) ≡ with_put held b (then r)
    on_result none = refl
    on_result (some (a, w')) = refl
