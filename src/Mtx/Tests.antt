-- ===== src/Mtx/Tests.antt =====
-- The locking wrapper over a counter of requests.
use liballo.Base.{
  ℕ, ◌+◌, ◌-◌, ◌≡◌, refl, Bool, true, false, some, none, inl, inr, ◌⊎◌, ◌↔◌, Bool-cases, ◌==◌,
  if◌then◌else◌,
}
use liballo.Base.Cmd.{Slot, bind_at}
use liballo.Mtx.Threads.{
  Call, to_alloc, to_realloc, to_free, to_contains, Answer, block_at, Pc, perform, perform_locked,
  locking, calling, running, unlocking, Move, call, acquire, enter, run, System, moved, pick, start,
  Reach, here, later, Inside, Sequential,
}
use liballo.Mtx.Exclusion.{mutual_exclusion, Reach-Sequential, no_deadlock}
use liballo.Mtx.Code.{InSteps, perform_locked_lem}
use liballo.Allo.{Allo, contains_yes, allo_alloc, allo_free, allo_realloc, allo_contains}
use liballo.Mtx.{
  MtxOps, IsMutex, allo_mtx_alloc, allo_mtx_realloc, allo_mtx_free, allo_mtx_contains,
}
use liballo.Mtx.Transparent.{Ignores, Ignores-map, mtx_transparent}

record Counter : Type 0 where
  locked : Bool
  requests : ℕ

abbrev held : Slot Counter Bool
held = record {
  get = λ c. c.locked;
  put = λ b c. record c { locked = b };
  get-put = λ b c. refl;
  put-get = λ c. refl;
  put-put = λ b d c. refl;
}

abbrev mutex : MtxOps Counter
mutex = record {
  mtx_init = λ c. some (true, record c { locked = false });
  mtx_lock = λ c. if c.locked then none else some (tt, record c { locked = true });
  mtx_unlock = λ c. some (tt, record c { locked = false });
  mtx_destroy = λ c. some (tt, c);
}

mutex-IsMutex : IsMutex held mutex
mutex-IsMutex = record {
  lock_free = λ c e. rw e refl;
  lock_held = λ c e. rw e refl;
  unlock_held = λ c e. refl;
}

abbrev target : Allo Counter
target = record {
  alloc = λ n c. some (4096, record c { requests = c.requests + 1 });
  realloc = λ p old new c. some (p, c);
  free_mem = λ p n c. some (tt, record c { requests = c.requests - 1 });
  destroy = none;
  contains = some (λ p c. some (contains_yes, c));
}

abbrev idle : Counter
idle = record { locked = false; requests = 7 }

wrapped_alloc :
    allo_mtx_alloc mutex target 16 idle ≡ some (4096, record { locked = false; requests = 8 })
unfolding allo_mtx_alloc
wrapped_alloc = refl

realloc-Ignores : (p old new : ℕ) → Ignores held (allo_realloc target p old new)
unfolding allo_realloc
realloc-Ignores p old new b c = elim (Bool-cases (new == 0)) [
  | inl zero_size ↦ rw zero_size refl
  | inr some_size ↦ elim (Bool-cases (p == 0)) [
    | inl fresh ↦ rw (some_size, fresh) refl
    | inr given ↦ elim (Bool-cases (old == new)) [
      | inl same ↦ rw (some_size, given, same) refl
      | inr changed ↦ rw (some_size, given, changed) refl
    ]
  ]
]

call-Ignores : (c : Call) → Ignores held (perform target c)
unfolding perform allo_contains
call-Ignores (to_alloc size) b w = refl
call-Ignores (to_realloc p old new) b w =
    Ignores-map held (allo_realloc target p old new) block_at (realloc-Ignores p old new) b w
call-Ignores (to_free p n) b w = refl
call-Ignores (to_contains p) b w = refl

-- Thread 0 holds the mutex and has its block, while thread 1 waits for the mutex.
abbrev contended : System Counter
contended =
    moved
      (moved
        (moved
          (moved (moved (start idle) 0 idle (locking (to_alloc 16))) 1 idle
            (locking (to_free 8192 32)))
          0 (record { locked = true; requests = 7 }) (calling (to_alloc 16)))
        0 (record { locked = true; requests = 7 })
        (running (to_alloc 16) (record { locked = true; requests = 7 })))
      0 (record { locked = true; requests = 8 }) (unlocking (to_alloc 16) (block_at 4096))

contended-Reach : Reach mutex target idle contended
unfolding perform
contended-Reach =
    later
      (later
        (later (later (later here (pick 0 (call (to_alloc 16)))) (pick 1 (call (to_free 8192 32))))
          (pick 0 (acquire refl)))
        (pick 0 enter))
      (pick 0 (run refl))

mutual_exclusion_example : ◌≡◌ {A = ℕ} 0 0
mutual_exclusion_example =
    mutual_exclusion held mutex mutex-IsMutex target call-Ignores refl contended-Reach 0 0 tt tt

Reach-Sequential_example :
    Sequential target idle contended.log (record { locked = false; requests = 8 })
Reach-Sequential_example =
    Reach-Sequential held mutex mutex-IsMutex target call-Ignores refl contended-Reach

realloc_returns :
    (p old new : ℕ) (w : Counter)
    → (q : ℕ) × (w' : Counter) × (allo_realloc target p old new w ≡ some (q, w'))
unfolding allo_realloc
realloc_returns p old new w = elim (Bool-cases (new == 0)) [
  | inl zero_size ↦ rw zero_size (_, _, refl)
  | inr some_size ↦ elim (Bool-cases (p == 0)) [
    | inl fresh ↦ rw (some_size, fresh) (_, _, refl)
    | inr given ↦ elim (Bool-cases (old == new)) [
      | inl same ↦ rw (some_size, given, same) (_, _, refl)
      | inr changed ↦ rw (some_size, given, changed) (_, _, refl)
    ]
  ]
]

call_returns :
    (c : Call) (w : Counter) → (a : Answer) × (w' : Counter) × (perform target c w ≡ some (a, w'))
unfolding perform allo_contains
call_returns (to_alloc size) w = (_, _, refl)
call_returns (to_realloc p old new) w =
    let (q, w', e) = realloc_returns p old new w in
    (block_at q, w', bind_at (allo_realloc target p old new) _ e)
call_returns (to_free p n) w = (_, _, refl)
call_returns (to_contains p) w = (_, _, refl)

no_deadlock_example :
    (j : ℕ) × ((j ≡ 1) ⊎ Inside (contended.pc j))
    × (w' : Counter) × (p' : Pc Counter) × Move mutex target contended.world (contended.pc j) w' p'
no_deadlock_example =
    no_deadlock held mutex mutex-IsMutex target call-Ignores call_returns refl contended-Reach 1
      (to_free 8192 32) refl

-- Two threads that waited have both been served, in turn.
in_turn :
    perform_locked mutex target (to_alloc 16) idle
    ≡ some (block_at 4096, record { locked = false; requests = 8 })
unfolding perform_locked allo_mtx_alloc
in_turn = refl

perform_locked_lem_example :
    (perform_locked mutex target (to_alloc 16) idle
      ≡ some (block_at 4096, record { locked = false; requests = 8 }))
    ↔ InSteps mutex target
        (to_alloc 16)
        idle
        (block_at 4096)
        (record { locked = false; requests = 8 })
perform_locked_lem_example =
    perform_locked_lem mutex target (to_alloc 16) idle (block_at 4096)
      (record { locked = false; requests = 8 })

mtx_transparent_example :
    (allo_mtx_alloc mutex target 16 idle ≡ allo_alloc target 16 idle)
    × (allo_mtx_realloc mutex target 4096 16 32 idle ≡ allo_realloc target 4096 16 32 idle)
    × (allo_mtx_free mutex target 4096 16 idle ≡ allo_free target 4096 16 idle)
    × (allo_mtx_contains mutex target 4096 idle ≡ allo_contains target 4096 idle)
unfolding allo_contains
mtx_transparent_example =
    mtx_transparent held mutex mutex-IsMutex target (λ n b c. refl) realloc-Ignores
      (λ p n b c. refl) (λ p b c. refl) idle refl 4096 16 16 32
