-- ===== src/Page/Tests.antt =====
-- The page allocator over a system that always maps at one address.
use liballo.Base.{◌⊎◌, ◌≡◌, refl, some, ◌==◌, if◌then◌else◌}
use liballo.Base.Cmd.{Slot}
use liballo.Page.{Os, PageContext, registry_remove}
use liballo.Page.Registry.{Dropped, Unknown, registry_remove_lem}

abbrev whole : Slot PageContext PageContext
whole = record {
  get = λ c. c;
  put = λ c w. c;
  get-put = λ c w. refl;
  put-get = λ w. refl;
  put-put = λ c d w. refl;
}

abbrev system : Os PageContext
system = record {
  page_size = 4096;
  mmap = λ n w. some (65536, w);
  munmap = λ p n w. some (tt, w);
  mremap = λ p old new w. some (131072, w);
}

-- Two mappings, in a registry with room for 256.
abbrev two_maps : PageContext
two_maps = record {
  page_size = 4096;
  registry = 4096;
  entry = λ i.
      if i == 0 then record { addr = 8192; size = 4096 } else record { addr = 16384; size = 8192 };
  count = 2;
  capacity = 256;
}

removed_first : (registry_remove 8192 two_maps).entry 0 ≡ record { addr = 16384; size = 8192 }
unfolding registry_remove
removed_first = refl

registry_remove_lem_example :
    Dropped 8192 two_maps (registry_remove 8192 two_maps)
    ⊎ (Unknown 8192 two_maps × (registry_remove 8192 two_maps ≡ two_maps))
registry_remove_lem_example = registry_remove_lem 8192 two_maps
