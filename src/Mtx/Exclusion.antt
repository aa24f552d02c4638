-- ===== src/Mtx/Exclusion.antt =====
-- What holds after any interleaving of threads that share one allocator of src/allo_mtx.c.
use liballo.Base.{ℕ, ◌≡◌, refl, sym, ◌∙◌, ◌⊎◌, inl, inr, Bool, true, false, some}
use liballo.Base.Cmd.{Slot}
use liballo.Allo.{Allo}
use liballo.Mtx.{MtxOps, IsMutex}
use liballo.Mtx.Transparent.{Ignores}
use liballo.Mtx.Threads.{
  Call, Answer, Pc, outside, locking, calling, running, unlocking, perform, Move, acquire, enter,
  run, Fresh, release, System, moved, Step, pick, Reach, here, later, Inside, Sequential, none_yet,
  one_more,
}
use liballo.Mtx.Owner.{
  Effect, called, acquired, entered, ran, released, Move-Effect, Move-Fresh, Fresh-step,
  perform_put, Owner, nobody, thread, Owner-step,
}

module _ {W : Type 0} (held : Slot W Bool) (mtx : MtxOps W) (is : IsMutex held mtx)
    (target : Allo W) (ignores : (c : Call) → Ignores held (perform target c)) where
  -- The log is a run of the target alone.
  Effect-Sequential :
      (w₀ : W) (s : System W) (i : ℕ) (w' : W) (p : Pc W)
      → Owner held s
      → Sequential target w₀ s.log (held.put false s.world)
      → Effect held target s.world (s.pc i) w' p
      → Sequential target w₀ (moved s i w' p).log (held.put false (moved s i w' p).world)
  Effect-Sequential w₀ s i w' p o q (called e out out' l) = rw (l, e) q
  Effect-Sequential w₀ s i w' p o q (acquired free e out now l) =
      rw (l, e, held.put-put false true s.world) q
  Effect-Sequential w₀ s i w' p o q (entered e was now l) = rw (l, e) q
  Effect-Sequential w₀ s i w' p o q (ran c a was now e l) = rw l (
      one_more (record { thread = i; call = c; answer = a }) q
        (perform_put held target ignores c a s.world w' false e))
  Effect-Sequential w₀ s i w' p (nobody idle none_in) q (released was out' e l) =
      absurd (none_in i was)
  Effect-Sequential w₀ s i w' p (thread k busy at only) q (released was out' e l) =
      rw (l, e busy, held.put-put false false s.world) q

  -- These hold after any steps.
  record Inv (w₀ : W) (s : System W) : Type 0 where
    owner : Owner held s
    read : (j : ℕ) → Fresh s.world (s.pc j)
    sequential : Sequential target w₀ s.log (held.put false s.world)

  Step-Inv : {w₀ : W} {s t : System W} → Inv w₀ s → Step mtx target s t → Inv w₀ t
  Step-Inv {w₀} {s} v (pick i {w'} {p} m) =
      let e = Move-Effect held mtx is target (v.read i) m in
      record {
        owner = Owner-step held target ignores s i w' p v.owner e;
        read =
            Fresh-step held target ignores s i w' p v.owner e (Move-Fresh held mtx is target m)
              v.read;
        sequential = Effect-Sequential w₀ s i w' p v.owner v.sequential e;
      }

  Reach-Inv : {w₀ : W} {s : System W} → held.get w₀ ≡ false → Reach mtx target w₀ s → Inv w₀ s
  Reach-Inv {w₀} idle here = record {
    owner = nobody idle (λ j h. h);
    read = λ j. tt;
    sequential = rw (← idle) (rw (held.put-get w₀) none_yet);
  }
  Reach-Inv idle (later r st) = Step-Inv (Reach-Inv idle r) st

  -- No two threads are ever between the lock and the unlock together, however they are interleaved,
  -- if the mutex is free at the start and the target neither reads nor changes it.
  pub mutual_exclusion :
      {w₀ : W} {s : System W}
      → held.get w₀ ≡ false
      → Reach mtx target w₀ s
      → (i j : ℕ) → Inside (s.pc i)
      → Inside (s.pc j)
      → i ≡ j
  mutual_exclusion {s = s} idle r i j at_i at_j = only_one (Reach-Inv idle r).owner
    where
      only_one : Owner held s → i ≡ j
      only_one (nobody free none_in) = absurd (none_in i at_i)
      only_one (thread k busy at only) = only i at_i ∙ sym (only j at_j)

  -- If the mutex is free at the start and the target neither reads nor changes it: the calls of the
  -- target that any interleaving has made so far, in the order of the log, are a run of the target by
  -- one thread without the mutex, with the same answers, and but for the mutex with the same state:
  -- though a call reads the state and writes it back in two steps, no write is lost.
  pub Reach-Sequential :
      {w₀ : W} {s : System W}
      → held.get w₀ ≡ false
      → Reach mtx target w₀ s
      → Sequential target w₀ s.log (held.put false s.world)
  Reach-Sequential idle r = (Reach-Inv idle r).sequential

  Inside-moves :
      (w : W) (p : Pc W)
      → ((c : Call) (w : W) → (a : Answer) × (w' : W) × (perform target c w ≡ some (a, w')))
      → held.get w ≡ true
      → Inside p
      → (w' : W) × (p' : Pc W) × Move mtx target w p w' p'
  Inside-moves w outside ends busy h = absurd h
  Inside-moves w (locking c) ends busy h = absurd h
  Inside-moves w (calling c) ends busy h = (w, running c w, enter)
  Inside-moves w (running c v) ends busy h = let (a, w', e) = ends c v in (w', unlocking c a, run e)
  Inside-moves w (unlocking c a) ends busy h =
      (held.put false w, outside, release (is.unlock_held w busy))

  locking_moves :
      (w : W) (p : Pc W) (c : Call)
      → p ≡ locking c
      → held.get w ≡ false
      → (w' : W) × (p' : Pc W) × Move mtx target w p w' p'
  locking_moves w p c e idle = rw e (held.put true w, calling c, acquire (is.lock_free w idle))

  -- No deadlock, if the mutex is free at the start, and the target neither reads nor changes it and
  -- its calls return: while some thread waits for the mutex, either that thread can take its step, or
  -- the thread that holds the mutex can.
  pub no_deadlock :
      {w₀ : W} {s : System W}
      → ((c : Call) (w : W) → (a : Answer) × (w' : W) × (perform target c w ≡ some (a, w')))
      → held.get w₀ ≡ false
      → Reach mtx target w₀ s
      → (i : ℕ) (c : Call) → s.pc i ≡ locking c
      → (j : ℕ) × ((j ≡ i) ⊎ Inside (s.pc j))
        × (w' : W) × (p' : Pc W) × Move mtx target s.world (s.pc j) w' p'
  no_deadlock {s = s} ends idle r i c e = some_thread (Reach-Inv idle r).owner
    where
      some_thread :
          Owner held s
          → (j : ℕ) × ((j ≡ i) ⊎ Inside (s.pc j))
            × (w' : W) × (p' : Pc W) × Move mtx target s.world (s.pc j) w' p'
      some_thread (nobody free none_in) =
          let (w', p', m) = locking_moves s.world (s.pc i) c e free in (i, inl refl, w', p', m)
      some_thread (thread k busy at only) =
          let (w', p', m) = Inside-moves s.world (s.pc k) ends busy at in (k, inr at, w', p', m)
