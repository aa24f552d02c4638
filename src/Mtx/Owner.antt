-- ===== src/Mtx/Owner.antt =====
-- The threads of Mtx/Threads: what a step does to the mutex of src/allo_mtx.c, and who holds it.
use liballo.Base.{
  ℕ, ◌≡◌, refl, sym, ◌∙◌, ap, ◌≢◌, ◌⊎◌, inl, inr, Bool, true, false, Option, some, List, ◌∷◌,
  Bool-cases, ◌==◌, ==_iff, ==_refl, arith, subst,
}
use liballo.Base.Cmd.{Slot}
use liballo.Allo.{Allo}
use liballo.Mtx.{MtxOps, IsMutex}
use liballo.Mtx.Transparent.{with_put, Ignores}
use liballo.Mtx.Threads.{
  Call, Answer, Pc, outside, locking, calling, running, unlocking, perform, Move, call, acquire,
  enter, run, Fresh, release, Event, System, set_pc, logged, moved, Inside,
}

same_world :
    {W A : Type 0} {a b : A} {w w' : W}
    → ◌≡◌ {A = Option (A × W)} (some (a, w)) (some (b, w'))
    → w ≡ w'
same_world e = cc

module _ {W : Type 0} (held : Slot W Bool) (target : Allo W) where
  -- What a step does to the mutex, and to the log.
  pub data Effect (w : W) (p : Pc W) (w' : W) (p' : Pc W) : Type 0 where
    called :
        w' ≡ w
        → (Inside p → ⊥)
        → (Inside p' → ⊥)
        → ((i : ℕ) (log : List Event) → logged i p p' log ≡ log)
        → Effect w p w' p'
    acquired :
        held.get w ≡ false
        → w' ≡ held.put true w
        → (Inside p → ⊥)
        → Inside p'
        → ((i : ℕ) (log : List Event) → logged i p p' log ≡ log)
        → Effect w p w' p'
    entered :
        w' ≡ w
        → Inside p
        → Inside p'
        → ((i : ℕ) (log : List Event) → logged i p p' log ≡ log)
        → Effect w p w' p'
    ran :
        (c : Call) (a : Answer)
        → Inside p
        → Inside p'
        → perform target c w ≡ some (a, w')
        → ((i : ℕ) (log : List Event)
            → logged i p p' log ≡ record { thread = i; call = c; answer = a } ∷ log)
        → Effect w p w' p'
    released :
        Inside p
        → (Inside p' → ⊥)
        → (held.get w ≡ true → w' ≡ held.put false w)
        → ((i : ℕ) (log : List Event) → logged i p p' log ≡ log)
        → Effect w p w' p'

module _ {W : Type 0} (held : Slot W Bool) (mtx : MtxOps W) (is : IsMutex held mtx)
    (target : Allo W) where
  acquired_lem :
      {w w' : W} (c : Call)
      → mtx.mtx_lock w ≡ some (tt, w')
      → Effect held target w (locking c) w' (calling c)
  acquired_lem {w} {w'} c e = elim (Bool-cases (held.get w)) [
    | inl busy ↦ absurd (ground (arith, is.lock_held w busy, e))
    | inr idle ↦
        acquired idle (sym (same_world (sym (is.lock_free w idle) ∙ e))) (λ h. h) tt (λ i log. refl)
  ]

  pub Move-Effect :
      {w w' : W} {p p' : Pc W}
      → Fresh w p
      → Move mtx target w p w' p'
      → Effect held target w p w' p'
  Move-Effect f (call c) = called refl (λ h. h) (λ h. h) (λ i log. refl)
  Move-Effect f (acquire {c} e) = acquired_lem c e
  Move-Effect f enter = entered refl tt tt (λ i log. refl)
  Move-Effect f (run {c} {a} e) = ran c a tt tt (rw (← f) e) (λ i log. refl)
  Move-Effect f (release {c} {a} {w'} e) =
      released tt (λ h. h) (λ busy. sym (same_world (sym (is.unlock_held _ busy) ∙ e)))
        (λ i log. refl)

  -- The thread that moves has read the state as it is, if its call is under way.
  pub Move-Fresh : {w w' : W} {p p' : Pc W} → Move mtx target w p w' p' → Fresh w' p'
  Move-Fresh (call c) = tt
  Move-Fresh (acquire e) = tt
  Move-Fresh enter = refl
  Move-Fresh (run e) = tt
  Move-Fresh (release e) = tt

-- Who holds the mutex.
module _ {W : Type 0} (held : Slot W Bool) where
  pub data Owner (s : System W) : Type 0 where
    nobody : held.get s.world ≡ false → ((j : ℕ) → Inside (s.pc j) → ⊥) → Owner s
    thread :
        (i : ℕ)
        → held.get s.world ≡ true
        → Inside (s.pc i)
        → ((j : ℕ) → Inside (s.pc j) → j ≡ i)
        → Owner s

module _ {W : Type 0} where
  -- The thread that moves, and the others.
  Inside-after :
      (s : System W) (i j : ℕ) (p : Pc W)
      → Inside (set_pc s.pc i p j)
      → ((i ≡ j) × Inside p) ⊎ Inside (s.pc j)
  Inside-after s i j p h = elim (Bool-cases (i == j)) [
    | inl e ↦ inl ((==_iff _ _).0 e, rw e at h)
    | inr e ↦ inr (rw e at h)
  ]

  Inside-self : (s : System W) (i : ℕ) (p : Pc W) → Inside p → Inside (set_pc s.pc i p i)
  Inside-self s i p h = rw (==_refl i) h

  Inside-other :
      (s : System W) (i j : ℕ) (p : Pc W)
      → (Inside (s.pc i) → ⊥)
      → Inside (s.pc j)
      → Inside (set_pc s.pc i p j)
  Inside-other s i j p out h = elim (Bool-cases (i == j)) [
    | inl e ↦ absurd (out (subst (λ k. Inside (s.pc k)) (sym ((==_iff _ _).0 e)) h))
    | inr e ↦ rw e h
  ]

module _ {W : Type 0} (held : Slot W Bool) (target : Allo W)
    (ignores : (c : Call) → Ignores held (perform target c)) where
  -- A call of the target with the mutex in either state.
  pub perform_put :
      (c : Call) (a : Answer) (w w' : W) (b : Bool)
      → perform target c w ≡ some (a, w')
      → perform target c (held.put b w) ≡ some (a, held.put b w')
  perform_put c a w w' b e = ignores c b w ∙ ap (with_put held b) e

  perform-held :
      (c : Call) (a : Answer) (w w' : W)
      → perform target c w ≡ some (a, w')
      → held.get w' ≡ held.get w
  perform-held c a w w' e =
      let kept =
        ap (perform target c) (sym (held.put-get w)) ∙ perform_put c a w w' (held.get w) e in
      ap held.get (same_world (sym e ∙ kept)) ∙ held.get-put (held.get w) w'

  pub Owner-step :
      (s : System W) (i : ℕ) (w' : W) (p : Pc W)
      → Owner held s
      → Effect held target s.world (s.pc i) w' p
      → Owner held (moved s i w' p)
  Owner-step s i w' p (nobody idle none_in) (called e out out' l) =
      nobody (ap held.get e ∙ idle)
        (λ j h. elim (Inside-after s i j p h) [ inl (q, hp) ↦ out' hp | inr h' ↦ none_in j h' ])
  Owner-step s i w' p (thread k busy at only) (called e out out' l) =
      thread k (ap held.get e ∙ busy) (Inside-other s i k p out at) (λ j h.
        elim (Inside-after s i j p h) [ inl (q, hp) ↦ absurd (out' hp) | inr h' ↦ only j h' ])
  Owner-step s i w' p (nobody idle none_in) (acquired free e out now l) =
      thread i (ap held.get e ∙ held.get-put true s.world) (Inside-self s i p now) (λ j h.
        elim (Inside-after s i j p h) [ inl (q, hp) ↦ sym q | inr h' ↦ absurd (none_in j h') ])
  Owner-step s i w' p (thread k busy at only) (acquired free e out now l) = cc (sym busy ∙ free)
  Owner-step s i w' p (nobody idle none_in) (entered e was now l) = absurd (none_in i was)
  Owner-step s i w' p (thread k busy at only) (entered e was now l) =
      thread i (ap held.get e ∙ busy) (Inside-self s i p now) (λ j h.
        elim (Inside-after s i j p h) [
          | inl (q, hp) ↦ sym q
          | inr h' ↦ only j h' ∙ sym (only i was)
        ])
  Owner-step s i w' p (nobody idle none_in) (ran c a was now e l) = absurd (none_in i was)
  Owner-step s i w' p (thread k busy at only) (ran c a was now e l) =
      thread i (perform-held c a s.world w' e ∙ busy) (Inside-self s i p now) (λ j h.
        elim (Inside-after s i j p h) [
          | inl (q, hp) ↦ sym q
          | inr h' ↦ only j h' ∙ sym (only i was)
        ])
  Owner-step s i w' p (nobody idle none_in) (released was out' e l) = absurd (none_in i was)
  Owner-step s i w' p (thread k busy at only) (released was out' e l) =
      nobody (ap held.get (e busy) ∙ held.get-put false s.world) (λ j h.
        elim (Inside-after s i j p h) [
          | inl (q, hp) ↦ out' hp
          | inr h' ↦ out' (rw ((==_iff i j).1 (only i was ∙ sym (only j h'))) at h)
        ])

  Fresh-out : (w : W) (p : Pc W) → (Inside p → ⊥) → Fresh w p
  Fresh-out w outside out = tt
  Fresh-out w (locking c) out = tt
  Fresh-out w (calling c) out = tt
  Fresh-out w (running c v) out = absurd (out tt)
  Fresh-out w (unlocking c a) out = tt

  -- A step of one thread leaves what the others have read as the state is.
  Fresh-other :
      (s : System W) (i j : ℕ) (w' : W) (p : Pc W)
      → Owner held s
      → i ≢ j
      → Effect held target s.world (s.pc i) w' p
      → Fresh s.world (s.pc j)
      → Fresh w' (s.pc j)
  Fresh-other s i j w' p o ne (called e out out' l) f = rw e f
  Fresh-other s i j w' p o ne (entered e was now l) f = rw e f
  Fresh-other s i j w' p (nobody idle none_in) ne (acquired free e out now l) f =
      Fresh-out w' (s.pc j) (none_in j)
  Fresh-other s i j w' p (thread k busy at only) ne (acquired free e out now l) f =
      cc (sym busy ∙ free)
  Fresh-other s i j w' p (nobody idle none_in) ne (ran c a was now e l) f = absurd (none_in i was)
  Fresh-other s i j w' p (thread k busy at only) ne (ran c a was now e l) f =
      Fresh-out w' (s.pc j) (λ h. ne (only i was ∙ sym (only j h)))
  Fresh-other s i j w' p (nobody idle none_in) ne (released was out' e l) f = absurd (none_in i was)
  Fresh-other s i j w' p (thread k busy at only) ne (released was out' e l) f =
      Fresh-out w' (s.pc j) (λ h. ne (only i was ∙ sym (only j h)))

  pub Fresh-step :
      (s : System W) (i : ℕ) (w' : W) (p : Pc W)
      → Owner held s
      → Effect held target s.world (s.pc i) w' p
      → Fresh w' p
      → ((j : ℕ) → Fresh s.world (s.pc j))
      → (j : ℕ) → Fresh w' (set_pc s.pc i p j)
  Fresh-step s i w' p o e mine others j = elim (Bool-cases (i == j)) [
    | inl same ↦ rw same mine
    | inr differ ↦
        rw differ (Fresh-other s i j w' p o (λ q. let t = (==_iff i j).1 q in cc) e (others j))
  ]
