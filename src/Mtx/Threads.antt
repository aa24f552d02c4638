-- ===== src/Mtx/Threads.antt =====
-- Threads that share one allocator of src/allo_mtx.c, interleaved in any order.
use liballo.Base.{ℕ, ◌≡◌, some, List, [], ◌∷◌, ◌==◌, if◌then◌else◌}
use liballo.Base.Cmd.{Cmd, pure, ◌>>=◌, ◌>>◌}
use liballo.Mem.{Ptr}
use liballo.Allo.{Contains, Allo, allo_alloc, allo_realloc, allo_free, allo_contains}
use liballo.Mtx.{MtxOps, allo_mtx_alloc, allo_mtx_realloc, allo_mtx_free, allo_mtx_contains}

-- A call through the table of functions, and its answer.
pub data Call : Type 0 where
  to_alloc : (size : ℕ) → Call
  to_realloc : (ptr : Ptr) → (old_size new_size : ℕ) → Call
  to_free : (ptr : Ptr) → (size : ℕ) → Call
  to_contains : (ptr : Ptr) → Call

pub data Answer : Type 0 where
  block_at : Ptr → Answer
  freed : Answer
  found : Contains → Answer

-- Where a thread stands: outside; at `mtx_lock`; before the call of the target; within that call, with
-- the state that it has read; at `mtx_unlock`, with the local variable that holds the target's answer.
pub data Pc (W : Type 0) : Type 0 where
  outside : Pc W
  locking : Call → Pc W
  calling : Call → Pc W
  running : Call → W → Pc W
  unlocking : Call → Answer → Pc W

module _ {W : Type 0} where
  -- A call on an allocator.
  unfoldable pub perform : Allo W → Call → Cmd W Answer
  perform a (to_alloc size) = do p ← allo_alloc a size; pure (block_at p)
  perform a (to_realloc ptr old_size new_size) = do
    p ← allo_realloc a ptr old_size new_size
    pure (block_at p)
  perform a (to_free ptr size) = do allo_free a ptr size; pure freed
  perform a (to_contains ptr) = do c ← allo_contains a ptr; pure (found c)

  -- The same call on the wrapper.
  unfoldable pub perform_locked : MtxOps W → Allo W → Call → Cmd W Answer
  unfolding allo_mtx_alloc allo_mtx_realloc allo_mtx_free allo_mtx_contains
  perform_locked mtx a (to_alloc size) = do p ← allo_mtx_alloc mtx a size; pure (block_at p)
  perform_locked mtx a (to_realloc ptr old_size new_size) = do
    p ← allo_mtx_realloc mtx a ptr old_size new_size
    pure (block_at p)
  perform_locked mtx a (to_free ptr size) = do allo_mtx_free mtx a ptr size; pure freed
  perform_locked mtx a (to_contains ptr) = do c ← allo_mtx_contains mtx a ptr; pure (found c)

-- One step of one thread. A thread that waits for the mutex has no step until it gets it. A call of the
-- target reads the state in one step, and in a later one writes back what it makes of what it has read:
-- if another thread has written in between, that write is lost.
pub data Move {W : Type 0} (mtx : MtxOps W) (target : Allo W) (w : W)
    : Pc W → W → Pc W → Type 0 where
  call : (c : Call) → Move mtx target w outside w (locking c)
  acquire :
      {c : Call} {w' : W}
      → mtx.mtx_lock w ≡ some (tt, w')
      → Move mtx target w (locking c) w' (calling c)
  enter : {c : Call} → Move mtx target w (calling c) w (running c w)
  run :
      {c : Call} {a : Answer} {v w' : W}
      → perform target c v ≡ some (a, w')
      → Move mtx target w (running c v) w' (unlocking c a)
  release :
      {c : Call} {a : Answer} {w' : W}
      → mtx.mtx_unlock w ≡ some (tt, w')
      → Move mtx target w (unlocking c a) w' outside

-- A call of the target that has been made.
pub record Event : Type 0 where
  pub thread : ℕ
  pub call : Call
  pub answer : Answer

-- The target's calls so far, the last one first, stand beside the state.
pub record System (W : Type 0) : Type 0 where
  pub world : W
  pub pc : ℕ → Pc W
  pub log : List Event

abbrev pub set_pc : {W : Type 0} → (ℕ → Pc W) → ℕ → Pc W → ℕ → Pc W
set_pc pc i p j = if i == j then p else pc j

-- What a step adds to the log.
abbrev pub logged : {W : Type 0} → ℕ → (before after : Pc W) → List Event → List Event
logged i (running c v) (unlocking _ a) log = record { thread = i; call = c; answer = a } ∷ log
logged i _ _ log = log

-- Thread `i` has come to `p`.
abbrev pub moved : {W : Type 0} → System W → ℕ → W → Pc W → System W
moved s i w' p = record { world = w'; pc = set_pc s.pc i p; log = logged i (s.pc i) p s.log }

pub data Step {W : Type 0} (mtx : MtxOps W) (target : Allo W) (s : System W)
    : System W → Type 0 where
  pick :
      (i : ℕ) {w' : W} {p : Pc W}
      → Move mtx target s.world (s.pc i) w' p
      → Step mtx target s (moved s i w' p)

abbrev pub start : {W : Type 0} → W → System W
start w = record { world = w; pc = λ i. outside; log = [] }

pub data Reach {W : Type 0} (mtx : MtxOps W) (target : Allo W) (w : W) : System W → Type 0 where
  here : Reach mtx target w (start w)
  later : {s t : System W} → Reach mtx target w s → Step mtx target s t → Reach mtx target w t

-- From the lock to the unlock.
abbrev pub Inside : {W : Type 0} → Pc W → Type 0
Inside (calling c) = Unit {0}
Inside (running c v) = Unit {0}
Inside (unlocking c a) = Unit {0}
Inside _ = ⊥

-- A call under way has read the state as it is.
abbrev pub Fresh : {W : Type 0} → W → Pc W → Type 0
Fresh w (running c v) = v ≡ w
Fresh w _ = Unit {0}

-- Calls of the target one after the other, with their answers, by one thread that takes no lock.
pub data Sequential {W : Type 0} (target : Allo W) (w : W) : List Event → W → Type 0 where
  none_yet : Sequential target w [] w
  one_more :
      {log : List Event} {w' w'' : W} (e : Event)
      → Sequential target w log w'
      → perform target e.call w' ≡ some (e.answer, w'')
      → Sequential target w (e ∷ log) w''
