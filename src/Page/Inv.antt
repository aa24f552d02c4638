-- ===== src/Page/Inv.antt =====
-- `page_alloc_fn` keeps the registry within its pages and records each mapping.
use liballo.Base.{
  ℕ, ◌+◌, ◌-◌, ◌*◌, ◌/◌, ◌%◌, ◌^◌, ◌≤◌, ◌<◌, ◌≡◌, refl, ◌≢◌, ◌⊎◌, inl, inr, Bool, true, false,
  Option, some, arith, ◌==◌, ==_iff, Bool-cases, Option-cases, subst, if◌then◌else◌,
}
use liballo.Base.Cmd.{Cmd, pure, ◌>>=◌, Returns, Slot}
use liballo.Mem.{Ptr, null, align_up}
use liballo.Mem.Align.{align_up_lem}
use liballo.Page.{Os, map_failed, PageEntry, PageContext, round_page, allo_os_mremap}
use liballo.Page.Registry.{tally, one_if}

-- The rounded size is the next multiple of the page size, or wraps past the end of `size_t`.
round_page_lem :
    (k m size : ℕ)
    → k + m ≡ 64
    → size < 2 ^ 64
    → round_page (2 ^ k) size ≡ (size + 2 ^ k - 1) % 2 ^ 64 / 2 ^ k * 2 ^ k
unfolding round_page align_up
round_page_lem k m size e h = align_up_lem k m size e h

module _ {W : Type 0} (os : Os W) (self : Slot W PageContext) where
  -- The system calls end and leave the context of the allocator alone.
  pub record Apart : Type 0 where
    pub mmap_ends : (n : ℕ) (w : W) → Returns (λ p w'. self.get w' ≡ self.get w) (os.mmap n w)
    pub mremap_ends :
        (p old new : ℕ) (w : W) → Returns (λ q w'. self.get w' ≡ self.get w) (os.mremap p old new w)

  -- The system call does not end with an address: it fails, or maps at NULL.
  abbrev pub Refused : Option (Ptr × W) → Type 0
  Refused r = ¬ Returns (λ q w₂. (q ≢ null) × (q ≢ map_failed)) r

  -- The pages of the registry: those from before, or all that the system has moved, with one page
  -- more, and with as many entries as they have room for.
  pub data Pages (w : W) (c' : PageContext) : Type 0 where
    kept : c'.registry ≡ (self.get w).registry → c'.capacity ≡ (self.get w).capacity → Pages w c'
    grown :
        {w₂ : W}
        → (self.get w).count ≡ (self.get w).capacity
        → os.mremap
            (self.get w).registry
            ((self.get w).capacity * 16)
            ((self.get w).capacity * 16 + (self.get w).page_size)
            w
          ≡ some (c'.registry, w₂)
        → c'.registry ≢ null
        → c'.registry ≢ map_failed
        → c'.capacity ≡ ((self.get w).capacity * 16 + (self.get w).page_size) / 16
        → Pages w c'

  -- The entries in use, which a growth of the registry leaves alone.
  pub record SameEntries (w : W) (c' : PageContext) : Type 0 where
    pub page_size : c'.page_size ≡ (self.get w).page_size
    pub entry : c'.entry ≡ (self.get w).entry
    pub count : c'.count ≡ (self.get w).count
    pub in_bounds : c'.count ≤ c'.capacity
    pub pages : Pages w c'

  -- What an allocation may answer.
  pub data Mapped (w : W) (size p : ℕ) (w' : W) : Type 0 where
    no_size : p ≡ null → size ≡ 0 → w' ≡ w → Mapped w size p w'
    no_room_left :
        p ≡ null
        → self.get w' ≡ self.get w
        → (self.get w).count ≡ (self.get w).capacity
        → Refused (
            os.mremap
              (self.get w).registry
              ((self.get w).capacity * 16)
              ((self.get w).capacity * 16 + (self.get w).page_size)
              w)
        → Mapped w size p w'
    refused :
        (w₁ : W)
        → p ≡ null
        → SameEntries w (self.get w')
        → self.get w₁ ≡ self.get w'
        → Refused (os.mmap (round_page (self.get w).page_size size) w₁)
        → Mapped w size p w'
    mapped :
        (w₁ w₂ : W)
        → os.mmap (round_page (self.get w).page_size size) w₁ ≡ some (p, w₂)
        → p ≢ null
        → p ≢ map_failed
        → (self.get w').count ≡ (self.get w).count + 1
        → (self.get w').count ≤ (self.get w').capacity
        → Pages w (self.get w')
        → ((e : PageEntry)
            → tally e (self.get w').entry (self.get w').count
              ≡ tally e (self.get w).entry (self.get w).count
                + one_if e (record { addr = p; size = round_page (self.get w).page_size size }))
        → Mapped w size p w'

  -- The answer of a system call, once it is checked.
  pub data Got (m : Cmd W Ptr) (w : W) (p : Ptr) (w' : W) : Type 0 where
    nothing : p ≡ null → Refused (m w) → self.get w' ≡ self.get w → Got m w p w'
    something :
        p ≢ null → p ≢ map_failed → m w ≡ some (p, w') → self.get w' ≡ self.get w → Got m w p w'

  checked_lem :
      (m : Cmd W Ptr) (w : W)
      → Returns (λ p w'. self.get w' ≡ self.get w) (m w)
      → Returns (Got m w) ((m >>= (λ ptr. if ptr == map_failed then pure null else pure ptr)) w)
  checked_lem m w h = elim (Option-cases (m w)) [
    | inl e ↦ absurd (subst (Returns (λ p w'. self.get w' ≡ self.get w)) e h)
    | inr ((p, w'), e) ↦
        let same = subst (Returns (λ p w'. self.get w' ≡ self.get w)) e h in
        let refuses : ((p ≡ null) ⊎ (p ≡ map_failed)) → Refused (m w) = λ bad r.
          let a = subst (Returns (λ q w₂. (q ≢ null) × (q ≢ map_failed))) e r in
          elim bad [ inl n ↦ a.0 n | inr f ↦ a.1 f ] in
        elim (Bool-cases (p == map_failed)) [
          | inl failed ↦
              rw (e, ◌>>=◌) (rw failed (nothing refl (refuses (inr ((==_iff _ _).0 failed))) same))
          | inr done ↦ elim (Bool-cases (p == null)) [
            | inl none_got ↦
                rw (e, ◌>>=◌)
                  (rw done (
                    nothing ((==_iff _ _).0 none_got) (refuses (inl ((==_iff _ _).0 none_got)))
                      same))
            | inr got ↦
                rw (e, ◌>>=◌)
                  (rw done (something (ground (arith, got)) (ground (arith, done)) e same))
          ]
        ]
  ]

  module _ (a : Apart) where
    pub mremap_lem :
        (p old new : ℕ) (w : W)
        → Returns (Got (os.mremap p old new) w) (allo_os_mremap os self p old new w)
    unfolding allo_os_mremap
    mremap_lem p old new w = checked_lem (os.mremap p old new) w (a.mremap_ends p old new w)

    -- After `registry_ensure_capacity` says yes, one more entry fits.
    data Room (w : W) (room : Bool) (w' : W) : Type 0 where
      has_room :
          room ≡ true
          → SameEntries w (self.get w')
          → (self.get w).count < (self.get w').capacity
          → Room w room w'
      no_room :
          room ≡ false
          → self.get w' ≡ self.get w
          → (self.get w).count ≡ (self.get w).capacity
          → Refused (
              os.mremap
                (self.get w).registry
                ((self.get w).capacity * 16)
                ((self.get w).capacity * 16 + (self.get w).page_size)
                w)
          → Room w room w'
