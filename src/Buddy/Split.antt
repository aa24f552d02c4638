-- ===== src/Buddy/Split.antt =====
-- The second loop of `buddy_alloc_fn`: a block is cut down, and its right halves become free.
use liballo.Base.{
  ℕ, zero, suc, ◌+◌, ◌-◌, ◌*◌, ◌^◌, ◌≤◌, ◌<◌, ◌≡◌, refl, sym, ap, ◌∙◌, List, ◌∷◌, arith, subst,
  add64, mul64,
}
use native.Mathlib.Nat.{pow-suc, pow-le-pow_right}
use native.Mathlib.Numerals.{add-one}
use liballo.Mem.{Ptr}
use liballo.Buddy.{State, size_at, list_push, mark_free, mark_used, split_loop}
use liballo.Buddy.Inv.{addr, node_end, in_use, IsValid}
use liballo.Buddy.Steps.{one_at, with_list, list_push_lem, list_push-byte}
use liballo.Buddy.Halve.{
  size_at_lem, IsValid-used, moved, one_at_self, moved_self, cell-half, cell-second, round_step,
}

abbrev after_round : State → (base : Ptr) → (depth l i : ℕ) → State
after_round s base depth l i =
    mark_used (suc l) (i * 2)
      (mark_free (suc l) (i * 2 + 1) (list_push (suc l) (addr base depth (suc l) (i * 2 + 1)) s))

after_round-buffer :
    (s : State) (base : Ptr) (depth l i : ℕ)
    → (after_round s base depth l i).ctx.buffer ≡ s.ctx.buffer
unfolding mark_used mark_free
after_round-buffer s base depth l i =
    ap (λ t. t.ctx.buffer) (list_push_lem (suc l) (addr base depth (suc l) (i * 2 + 1)) s)

double-lt : (depth l i : ℕ) → l < depth → depth < 59 → i < 2 ^ l → i * 2 < 2 ^ 64
double-lt depth l i h small lt =
    omega (
      arith,
      pow-suc 2 l,
      pow-le-pow_right {n = 2} (omega arith) {i = suc l} {j = 63} (omega arith),
    )

round_run :
    (depth n l i : ℕ) (s : State) (base : Ptr) (free : ℕ → List ℕ) (used : ℕ → ℕ → ℕ)
    → IsValid s depth free used
    → s.ctx.buffer ≡ base
    → l < depth
    → 0 < used l i
    → split_loop (suc n) l i (addr base depth l i) s
      ≡ split_loop n
          (suc l)
          (i * 2)
          (addr base depth (suc l) (i * 2))
          (after_round s base depth l i)
unfolding split_loop
round_run depth n l i s base free used v b h out =
    let hi = (v.tiles.inside l i (omega arith)).1 in
    let bound =
      node_end s.ctx.buffer depth (in_use free used) v.tiles v.ne_null v.fits l i (omega arith) in
    let size = size_at_lem s.ctx depth (suc l) v.total_size h in
    let index : mul64 i 2 ≡ i * 2 =
      omega (arith, double-lt depth l i h (omega (arith, v.small)) hi) in
    let half : 2 ^ (depth - l) ≡ 2 * 2 ^ (depth - suc l) =
      ap (λ k. 2 ^ k) (omega arith) ∙ pow-suc 2 (depth - suc l) ∙ omega arith in
    let buddy : add64 (addr base depth l i) (size_at s.ctx (suc l))
        ≡ addr base depth (suc l) (i * 2 + 1) =
      rw size (omega (arith, bound, b, half, cell-second depth l i h, v.fits)) in
    let here : addr base depth l i ≡ addr base depth (suc l) (i * 2) =
      ap (λ c. base + 32 * c) (sym (cell-half depth l i h)) in
    rw (add-one, index, buddy, here) refl

-- The loop, from a block that is handed out: the first block under it, `rounds` levels down, is
-- handed out in its place.
pub split_loop_lem :
    (depth rounds l i : ℕ) (s : State) (base : Ptr) (free : ℕ → List ℕ) (used : ℕ → ℕ → ℕ)
    → IsValid s depth free used
    → s.ctx.buffer ≡ base
    → l + rounds ≤ depth
    → 0 < used l i
    → (free' : ℕ → List ℕ) × IsValid
        (split_loop rounds l i (addr base depth l i) s)
        depth
        free'
        (moved used l i (l + rounds) (i * 2 ^ rounds))
unfolding split_loop
split_loop_lem depth zero l i s base free used v b h out =
    let e : l + 0 ≡ l = omega arith in
    let e' : i * 1 ≡ i = omega arith in
    rw (e, e') (free, IsValid-used used _ (λ m k. moved_self used l i m k out) v)
split_loop_lem depth (suc n) l i s base free used v b h out =
    let v' =
      subst
        (λ x.
          IsValid (after_round s x depth l i) depth
            (with_list free (suc l) ((i * 2 + 1) ∷ free (suc l))) (moved used l i (suc l) (i * 2)))
        b (round_step depth l i s free used v (omega arith) out) in
    let (free', w) =
      split_loop_lem depth n (suc l) (i * 2) (after_round s base depth l i) base _
        (moved used l i (suc l) (i * 2)) v' (after_round-buffer s base depth l i ∙ b) (omega arith)
        (omega (arith, one_at_self (suc l) (i * 2))) in
    let e : suc l + n ≡ l + suc n = omega arith in
    let e' : i * 2 * 2 ^ n ≡ i * 2 ^ suc n = rw (pow-suc 2 n) (grind arith) in
    rw (round_run depth n l i s base free used v b (omega arith) out) (
      free',
      IsValid-used _ _
          (λ m k. omega (
            arith,
            ap (λ x. one_at x (i * 2 * 2 ^ n) m k) e,
            ap (λ x. one_at (l + suc n) x m k) e',
          ))
          w,
    )

pub split_loop-buffer :
    (rounds l i : ℕ) (node : Ptr) (s : State)
    → (split_loop rounds l i node s).ctx.buffer ≡ s.ctx.buffer
unfolding split_loop mark_used mark_free
split_loop-buffer zero l i node s = refl
split_loop-buffer (suc k) l i node s =
    split_loop-buffer k (l + 1) (mul64 i 2) node _
    ∙ ap (λ t. t.ctx.buffer) (list_push_lem (l + 1) (add64 node (size_at s.ctx (l + 1))) s)

pub split_loop-byte :
    (rounds l i : ℕ) (node : Ptr) (s : State) → (split_loop rounds l i node s).mem.byte ≡ s.mem.byte
unfolding split_loop mark_used mark_free
split_loop-byte zero l i node s = refl
split_loop-byte (suc k) l i node s =
    split_loop-byte k (l + 1) (mul64 i 2) node _
    ∙ list_push-byte (l + 1) (add64 node (size_at s.ctx (l + 1))) s
