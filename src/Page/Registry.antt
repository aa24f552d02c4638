-- ===== src/Page/Registry.antt =====
-- The registry of mappings as a bag of entries: adding, removing and moving one.
use liballo.Base.{
  ℕ, zero, suc, ◌+◌, ◌-◌, ◌≤◌, ◌<◌, ◌≡◌, refl, ap, subst, ◌≢◌, ◌⊎◌, inl, inr, Bool, none, some,
  ◌&&◌, arith, ◌==◌, ==_iff, if◌then◌else◌, Bool-cases, Option-cases, ==_refl,
}
use native.Mathlib.Numerals.{add-one}
use liballo.Mem.{Ptr}
use liballo.Page.{
  PageEntry, PageContext, set_entry, registry_add, find_addr, registry_remove, registry_move,
}

abbrev pub same_entry : PageEntry → PageEntry → Bool
same_entry e f = (e.addr == f.addr) && (e.size == f.size)

-- 1 for the entry itself, 0 for all others.
abbrev pub one_if : PageEntry → PageEntry → ℕ
one_if e f = if same_entry e f then 1 else 0

-- How often an entry stands among the first `n`.
pub tally : PageEntry → (ℕ → PageEntry) → ℕ → ℕ
tally e entry zero = 0
tally e entry (suc n) = one_if e (entry n) + tally e entry n

tally-frame :
    (e f : PageEntry) (entry : ℕ → PageEntry) (i n : ℕ)
    → n ≤ i
    → tally e (set_entry entry i f) n ≡ tally e entry n
unfolding tally
tally-frame e f entry i zero h = refl
tally-frame e f entry i (suc n) h = ground (arith, tally-frame e f entry i n)

-- Overwriting one entry exchanges it for the new one.
tally-set :
    (e f : PageEntry) (entry : ℕ → PageEntry) (i n : ℕ)
    → i < n
    → tally e (set_entry entry i f) n + one_if e (entry i) ≡ tally e entry n + one_if e f
unfolding tally
tally-set e f entry i zero h = absurd (omega arith)
tally-set e f entry i (suc n) h = elim (Bool-cases (i == n)) [
  | inl at ↦
      let e' : i ≡ n = (==_iff _ _).0 at in
      rw at
        (omega (arith, tally-frame e f entry i n (omega arith), ap (λ j. one_if e (entry j)) e'))
  | inr before ↦ rw before (omega (arith, tally-set e f entry i n (ground (arith, before))))
]

find_addr-some :
    (addr : Ptr) (entry : ℕ → PageEntry) (n i : ℕ) {j : ℕ}
    → find_addr addr entry n i ≡ some j
    → (i ≤ j) × (j < i + n) × ((entry j).addr ≡ addr)
unfolding find_addr
find_addr-some addr entry zero i h = ground arith
find_addr-some addr entry (suc n) i {j} h =
    ground (arith, find_addr-some addr entry n (i + 1) {j = j})

find_addr-none :
    (addr : Ptr) (entry : ℕ → PageEntry) (n i j : ℕ)
    → find_addr addr entry n i ≡ none
    → i ≤ j
    → j < i + n
    → (entry j).addr ≢ addr
unfolding find_addr
find_addr-none addr entry zero i j h lo hi = absurd (omega arith)
find_addr-none addr entry (suc n) i j h lo hi = elim (Bool-cases (i == j)) [
  | inl at ↦
      let e : i ≡ j = (==_iff _ _).0 at in subst (λ k. (entry k).addr ≢ addr) e (ground (arith, h))
  | inr later ↦ ground (arith, h, later, find_addr-none addr entry n (i + 1) j)
]

-- One entry with this address is gone, and every other entry is there as often as before.
pub record Dropped (addr : Ptr) (c c' : PageContext) : Type 0 where
  pub index : ℕ
  pub in_use : index < c.count
  pub found : (c.entry index).addr ≡ addr
  pub count : c'.count + 1 ≡ c.count
  pub bag :
      (e : PageEntry)
      → tally e c'.entry c'.count + one_if e (c.entry index) ≡ tally e c.entry c.count

-- No entry has this address.
abbrev pub Unknown : Ptr → PageContext → Type 0
Unknown addr c = (j : ℕ) → j < c.count → (c.entry j).addr ≢ addr

swap_last :
    (e : PageEntry) (entry : ℕ → PageEntry) (i m : ℕ)
    → i < suc m
    → tally e (set_entry entry i (entry m)) m + one_if e (entry i) ≡ tally e entry (suc m)
unfolding tally
swap_last e entry i m h = elim (Bool-cases (i == m)) [
  | inl at ↦
      let e' : i ≡ m = (==_iff _ _).0 at in
      omega
        (arith, tally-frame e (entry m) entry i m (omega arith), ap (λ j. one_if e (entry j)) e')
  | inr before ↦ omega (arith, tally-set e (entry m) entry i m (ground (arith, before)))
]

Dropped-swap :
    (addr : Ptr) (c : PageContext) (i m : ℕ)
    → c.count ≡ suc m
    → i < suc m
    → (c.entry i).addr ≡ addr
    → Dropped addr c
        (record c { entry = set_entry c.entry i (c.entry (c.count - 1)); count = c.count - 1 })
Dropped-swap addr c i m e h found =
    let last : c.count - 1 ≡ m = omega arith in
    record {
      index = i;
      in_use = omega arith;
      found = found;
      count = omega arith;
      bag = λ x. rw (last, e) (swap_last x c.entry i m h);
    }

-- `registry_remove` takes out one entry with the address and keeps the bag of the others, though
-- it moves the last one; when no entry has the address it changes nothing.
pub registry_remove_lem :
    (addr : Ptr) (c : PageContext)
    → Dropped addr c (registry_remove addr c) ⊎ (Unknown addr c × (registry_remove addr c ≡ c))
unfolding registry_remove
registry_remove_lem addr c = elim (Option-cases (find_addr addr c.entry c.count 0)) [
  | inl e ↦
      rw (e, registry_remove)
        (inr (λ j h. find_addr-none addr c.entry c.count 0 j e (omega arith) (omega arith), refl))
  | inr (i, e) ↦
      let at = find_addr-some addr c.entry c.count 0 e in
      rw (e, registry_remove)
        (inl (Dropped-swap addr c i (c.count - 1) (omega (arith, at.1)) (omega (arith, at.1)) at.2))
]

-- One entry with the old address is exchanged for the new one.
pub record Exchanged (addr : Ptr) (new : PageEntry) (c c' : PageContext) : Type 0 where
  pub index : ℕ
  pub in_use : index < c.count
  pub found : (c.entry index).addr ≡ addr
  pub count : c'.count ≡ c.count
  pub bag :
      (e : PageEntry)
      → tally e c'.entry c'.count + one_if e (c.entry index)
        ≡ tally e c.entry c.count + one_if e new

-- The loop of `page_realloc_fn` exchanges one entry with the old address for the new mapping and
-- keeps the bag of the others; when no entry has the address it changes nothing.
pub registry_move_lem :
    (addr new_addr new_size : ℕ) (c : PageContext)
    → Exchanged addr
        (record { addr = new_addr; size = new_size })
        c
        (registry_move addr new_addr new_size c)
      ⊎ (Unknown addr c × (registry_move addr new_addr new_size c ≡ c))
unfolding registry_move
registry_move_lem addr new_addr new_size c =
    elim (Option-cases (find_addr addr c.entry c.count 0)) [
      | inl e ↦
          rw (e, registry_move)
            (inr
              (λ j h. find_addr-none addr c.entry c.count 0 j e (omega arith) (omega arith), refl))
      | inr (i, e) ↦
          let at = find_addr-some addr c.entry c.count 0 e in
          let inside : i < c.count = omega (arith, at.1) in
          rw (e, registry_move)
            (inl (record {
              index = i;
              in_use = inside;
              found = at.2;
              count = refl;
              bag = λ x. tally-set x _ c.entry i c.count inside;
            }))
    ]

-- `registry_add` puts one more entry into the bag.
pub registry_add_lem :
    (addr size : ℕ) (c : PageContext)
    → ((registry_add addr size c).count ≡ c.count + 1)
      × ((e : PageEntry)
          → tally e (registry_add addr size c).entry (registry_add addr size c).count
            ≡ tally e c.entry c.count + one_if e (record { addr = addr; size = size }))
unfolding registry_add
registry_add_lem addr size c = (refl, λ e. rw add-one (added e))
  where
    new : PageEntry
    new = record { addr = addr; size = size }

    added :
        (e : PageEntry)
        → tally e (set_entry c.entry c.count new) (suc c.count)
          ≡ tally e c.entry c.count + one_if e new
    added e =
        unfold tally in
        rw ==_refl (omega (arith, tally-frame e new c.entry c.count c.count (omega arith)))
