-- ===== src/Tests/Pages.antt =====
-- A region of two pages, in the epoch after the first checkpoints.
use congenial_octo_telegram.Base.{
  ℕ, ◌+◌, ◌*◌, ◌≡◌, inl, List, ◌∷◌, [], some, refl, arith, true, All,
}
use congenial_octo_telegram.Memory.{Allocator}
use congenial_octo_telegram.Mvmm.{Buffer, Mvmm, region_register, restore_object}
use congenial_octo_telegram.Mvmm.Epoch.{Access, store, copy, restore, run, Fits}
use congenial_octo_telegram.Mvmm.Checkpoints.{IsOpen, restore_object-run}
use congenial_octo_telegram.Mvmm.Ranges.{together}
use congenial_octo_telegram.Mvmm.Rounds.{set_ckpts, set_ckpts-IsOpen, region_register-IsOpen}

abbrev no_regions : Mvmm
no_regions = record { regions = []; memory = λ x. x; epoch_round = 1; ckpt_counter = 0 }

abbrev two_pages : Mvmm
two_pages = region_register 4096 8192 no_regions

abbrev two_pages_allocator : Allocator
two_pages_allocator = record {
  areas = λ i. record {
    addresses = λ j. 4096 + 32 * j;
    top_elem = 0;
    size = 2;
    base = 4096;
    bitmap = λ j. 0;
    bitmap_ckpt = λ j. 0;
    addresses_ckpt = λ j. 0;
    top_elem_ckpt = 0;
  };
  base = 4096;
}

abbrev zeros : ℕ → Buffer
zeros page_idx off = 0

-- A store, a copy over the border of the pages, a rollback, and a store again.
abbrev accesses : List Access
accesses =
    store 4100 (1 ∷ 2 ∷ [])
    ∷ copy 8190 (5 ∷ 6 ∷ 7 ∷ 8 ∷ [])
    ∷ restore two_pages_allocator
    ∷ store 4100 (9 ∷ [])
    ∷ []

no_regions-IsOpen : IsOpen no_regions
no_regions-IsOpen = record { bound = omega arith; closed = tt; apart = tt }

two_pages-IsOpen : IsOpen two_pages
two_pages-IsOpen =
    region_register-IsOpen 4096 8192 no_regions no_regions-IsOpen refl refl (omega arith)
      (λ x lo hi. tt)

accesses-Fits : All (Fits two_pages.regions) accesses
unfolding region_register
accesses-Fits = (
  (λ e. omega arith, omega arith, inl refl),
  (omega arith, (tt, ((λ e. omega arith, omega arith, inl refl), tt))),
)

end_of_first : together 4096 8191 two_pages.regions ≡ true
unfolding region_register
end_of_first = refl

restore_object-run_example :
    (restore_object (two_pages_allocator, run (λ k. some (zeros k)) accesses two_pages)).1.memory
      8191
    ≡ two_pages.memory 8191
unfolding region_register
restore_object-run_example =
    restore_object-run zeros accesses two_pages_allocator two_pages 8191 two_pages-IsOpen
      (omega arith) accesses-Fits (λ e. omega arith) end_of_first

set_ckpts-IsOpen_example :
    let next =
      set_ckpts 2
        (two_pages_allocator ∷ two_pages_allocator ∷ [])
        (run (λ k. some (zeros k)) accesses two_pages) in
    IsOpen next × (next.epoch_round ≡ 2) × (next.ckpt_counter ≡ 0)
unfolding region_register
set_ckpts-IsOpen_example =
    set_ckpts-IsOpen 2 zeros accesses two_pages_allocator (two_pages_allocator ∷ []) two_pages
      two_pages-IsOpen (omega arith) (omega arith) refl refl accesses-Fits
