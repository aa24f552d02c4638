-- ===== src/Page/Resize.antt =====
-- `page_realloc_fn` keeps the registry in step with the mappings.
use liballo.Base.{ℕ, ◌≡◌, ◌≢◌, ◌⊎◌, some}
use liballo.Base.Cmd.{Slot}
use liballo.Mem.{null}
use liballo.Page.{Os, map_failed, PageContext, round_page}
use liballo.Page.Inv.{Refused}
use liballo.Page.Registry.{Exchanged, Unknown}

module _ {W : Type 0} (os : Os W) (self : Slot W PageContext) where
  -- What a reallocation may answer.
  pub data Resized (w : W) (ptr old_size new_size q : ℕ) (w' : W) : Type 0 where
    same_pages :
        q ≡ ptr
        → round_page (self.get w).page_size old_size ≡ round_page (self.get w).page_size new_size
        → w' ≡ w
        → Resized w ptr old_size new_size q w'
    failed :
        q ≡ null
        → round_page (self.get w).page_size old_size ≢ round_page (self.get w).page_size new_size
        → self.get w' ≡ self.get w
        → Refused os self (
            os.mremap ptr
              (round_page (self.get w).page_size old_size)
              (round_page (self.get w).page_size new_size)
              w)
        → Resized w ptr old_size new_size q w'
    moved :
        (w₁ : W)
        → round_page (self.get w).page_size old_size ≢ round_page (self.get w).page_size new_size
        → os.mremap ptr
            (round_page (self.get w).page_size old_size)
            (round_page (self.get w).page_size new_size)
            w
          ≡ some (q, w₁)
        → q ≢ null
        → q ≢ map_failed
        → Exchanged ptr
            (record { addr = q; size = round_page (self.get w).page_size new_size })
            (self.get w)
            (self.get w')
          ⊎ (Unknown ptr (self.get w) × (self.get w' ≡ self.get w))
        → Resized w ptr old_size new_size q w'
