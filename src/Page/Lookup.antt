-- ===== src/Page/Lookup.antt =====
-- The search of `page_contains_fn` through the registry.
use liballo.Base.{
  ℕ, zero, suc, ◌+◌, ◌≤◌, ◌<◌, ◌≡◌, inl, inr, ◌↔◌, true, arith, ◌==◌, ==_iff, Bool-cases,
}
use liballo.Mem.{Ptr}
use liballo.Allo.{contains_yes}
use liballo.Page.{PageEntry, PageContext, in_entry, contains_loop}

-- The loop of `page_contains_fn` finds an entry whose range holds the address, if there is one.
contains_loop-yes :
    (ptr : Ptr) (entry : ℕ → PageEntry) (n i : ℕ)
    → contains_loop ptr entry n i ≡ contains_yes
    → (j : ℕ) × (i ≤ j) × (j < i + n) × (in_entry ptr (entry j) ≡ true)
unfolding contains_loop
contains_loop-yes ptr entry zero i h = cc
contains_loop-yes ptr entry (suc n) i h = elim (Bool-cases (in_entry ptr (entry i))) [
  | inl here ↦ (i, omega arith, omega arith, here)
  | inr later ↦
      let (j, lo, hi, found) = contains_loop-yes ptr entry n (i + 1) (rw later at h) in
      (j, omega arith, omega arith, found)
]

contains_loop_complete :
    (ptr : Ptr) (entry : ℕ → PageEntry) (n i j : ℕ)
    → i ≤ j
    → j < i + n
    → in_entry ptr (entry j) ≡ true
    → contains_loop ptr entry n i ≡ contains_yes
unfolding contains_loop
contains_loop_complete ptr entry zero i j lo hi found = absurd (omega arith)
contains_loop_complete ptr entry (suc n) i j lo hi found = elim (Bool-cases (i == j)) [
  | inl at ↦
      let e : i ≡ j = (==_iff _ _).0 at in
      let here : in_entry ptr (entry i) ≡ true = rw e found in rw here
  | inr later ↦
      let rest =
        contains_loop_complete ptr entry n (i + 1) j (ground (arith, later)) (omega arith) found in
      ground (arith, rest)
]

-- The loop says yes exactly when one of the entries in use covers the address.
contains_loop_iff :
    (ptr : Ptr) (c : PageContext)
    → (contains_loop ptr c.entry c.count 0 ≡ contains_yes)
      ↔ ((j : ℕ) × (j < c.count) × (in_entry ptr (c.entry j) ≡ true))
contains_loop_iff ptr c = (
  λ h.
      let (j, lo, hi, found) = contains_loop-yes ptr c.entry c.count 0 h in (j, omega arith, found),
  λ (j, h, found). contains_loop_complete ptr c.entry c.count 0 j (omega arith) (omega arith) found,
)
