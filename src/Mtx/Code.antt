-- ===== src/Mtx/Code.antt =====
-- The steps of a thread are those of the functions of src/allo_mtx.c.
use liballo.Base.{◌≡◌, refl, sym, ◌∙◌, ap, Option, some, ◌↔◌}
use liballo.Base.Cmd.{Cmd, pure, ◌>>=◌, ◌>>◌, >>=-eq-some, bind_at}
use liballo.Allo.{Allo, allo_alloc, allo_realloc, allo_free, allo_contains}
use liballo.Mtx.{MtxOps}
use liballo.Mtx.Threads.{
  Call, to_alloc, to_realloc, to_free, to_contains, Answer, block_at, freed, found, perform,
  perform_locked,
}

module _ {W : Type 0} (mtx : MtxOps W) (target : Allo W) where
  -- The premises of the moves `acquire`, `run` (of what `enter` has read) and `release`, one after
  -- the other.
  pub record InSteps (c : Call) (w : W) (a : Answer) (w' : W) : Type 0 where
    pub locked : W
    pub called : W
    pub acquire : mtx.mtx_lock w ≡ some (tt, locked)
    pub run : perform target c locked ≡ some (a, called)
    pub release : mtx.mtx_unlock called ≡ some (tt, w')

  -- A command between the lock and the unlock, with what becomes of its result.
  abbrev guarded : {A : Type 0} → Cmd W A → (A → Answer) → Cmd W Answer
  guarded m f = (mtx.mtx_lock >> (m >>= λ a. mtx.mtx_unlock >> pure a)) >>= λ a. pure (f a)

  same_result :
      {A : Type 0} (f : A → Answer) {x y : A} {a : Answer} {w₁ w₂ w₃ : W}
      → ◌≡◌ {A = Option (A × W)} (some (y, w₁)) (some (x, w₂))
      → ◌≡◌ {A = Option (Answer × W)} (some (f x, w₂)) (some (a, w₃))
      → (f y ≡ a) × (w₁ ≡ w₃)
  same_result f e e' = (cc, cc)

  guarded_steps :
      {A : Type 0} (m : Cmd W A) (f : A → Answer) (c : Call)
      → perform target c ≡ (m >>= λ a. pure (f a))
      → (w : W) (a : Answer) (w' : W) → guarded m f w ≡ some (a, w')
      → InSteps c w a w'
  guarded_steps m f c same w a w' e =
      let (x, w₃, e₃, out) =
        >>=-eq-some (mtx.mtx_lock >> (m >>= λ a. mtx.mtx_unlock >> pure a)) _ w e in
      let (u, w₁, e₁, after_lock) = >>=-eq-some mtx.mtx_lock _ w e₃ in
      let (y, w₂, e₂, after_call) = >>=-eq-some m _ w₁ after_lock in
      let (v, w₄, e₄, result) = >>=-eq-some mtx.mtx_unlock _ w₂ after_call in
      let (same_answer, same_world) = same_result f result out in
      record {
        locked = w₁;
        called = w₂;
        acquire = e₁;
        run = ap (λ g. g w₁) same ∙ bind_at m _ e₂ ∙ ap (λ b. some (b, w₂)) same_answer;
        release = e₄ ∙ ap (λ v. some (tt, v)) same_world;
      }

  steps_guarded :
      {A : Type 0} (m : Cmd W A) (f : A → Answer) (c : Call)
      → perform target c ≡ (m >>= λ a. pure (f a))
      → (w : W) (a : Answer) (w' : W) → InSteps c w a w'
      → guarded m f w ≡ some (a, w')
  steps_guarded m f c same w a w' s =
      let (x, w₂, e, out) = >>=-eq-some m _ s.locked (sym (ap (λ g. g s.locked) same) ∙ s.run) in
      let (same_answer, same_world) = same_result f refl out in
      bind_at (mtx.mtx_lock >> (m >>= λ a. mtx.mtx_unlock >> pure a)) _ (
        bind_at mtx.mtx_lock _ s.acquire
        ∙ bind_at m _ e
        ∙ bind_at mtx.mtx_unlock _ (ap mtx.mtx_unlock same_world ∙ s.release))
      ∙ ap (λ b. some (b, w')) same_answer

  -- A call on the wrapper has an answer exactly when the moves of a thread lead to it: the lock, the
  -- target's call, and the unlock.
  pub perform_locked_lem :
      (c : Call) (w : W) (a : Answer) (w' : W)
      → (perform_locked mtx target c w ≡ some (a, w')) ↔ InSteps c w a w'
  unfolding perform_locked perform
  perform_locked_lem (to_alloc size) w a w' = (
    guarded_steps (allo_alloc target size) block_at (to_alloc size) refl w a w',
    steps_guarded (allo_alloc target size) block_at (to_alloc size) refl w a w',
  )
  perform_locked_lem (to_realloc ptr old_size new_size) w a w' = (
    guarded_steps (allo_realloc target ptr old_size new_size) block_at
        (to_realloc ptr old_size new_size) refl w a w',
    steps_guarded (allo_realloc target ptr old_size new_size) block_at
        (to_realloc ptr old_size new_size) refl w a w',
  )
  perform_locked_lem (to_free ptr size) w a w' = (
    guarded_steps (allo_free target ptr size) (λ u. freed) (to_free ptr size) refl w a w',
    steps_guarded (allo_free target ptr size) (λ u. freed) (to_free ptr size) refl w a w',
  )
  perform_locked_lem (to_contains ptr) w a w' = (
    guarded_steps (allo_contains target ptr) found (to_contains ptr) refl w a w',
    steps_guarded (allo_contains target ptr) found (to_contains ptr) refl w a w',
  )
