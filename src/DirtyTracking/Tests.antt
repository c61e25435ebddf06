-- ===== src/DirtyTracking/Tests.antt =====
-- Runs of dirty_tracking.rs at fixed inputs.
use visor.Prelude.{◌≡◌, refl, true, false, ◌||◌, [], ◌∷◌, some, arith}
use visor.DirtyTracking.{
  DirtyBitmap, is_dirty, merge, test_bit, dirty_count, count_all, ones, dirty_pages, pages_from,
  pages_of_byte,
}
use visor.DirtyTracking.Pages.{Inv, merge-is_dirty}

-- Twelve pages; pages 1 and 9 are dirty.
abbrev twelve : DirtyBitmap
twelve = record { bitmap = 2 ∷ 2 ∷ []; page_count = 12 }

abbrev first_only : DirtyBitmap
first_only = record { bitmap = 1 ∷ 0 ∷ []; page_count = 12 }

twelve-Inv : Inv twelve
twelve-Inv = record { covered = omega arith }

-- Bit 15 is behind the last page: it is counted, and no page stands for it.
stray_counted : dirty_count (record { bitmap = 0 ∷ 128 ∷ []; page_count = 12 }) ≡ 1
unfolding dirty_count count_all ones
stray_counted = refl

stray_not_listed : dirty_pages (record { bitmap = 0 ∷ 128 ∷ []; page_count = 12 }) ≡ []
unfolding dirty_pages pages_from pages_of_byte test_bit
stray_not_listed = refl

two_pages : dirty_pages twelve ≡ 1 ∷ 9 ∷ []
unfolding dirty_pages pages_from pages_of_byte test_bit
two_pages = refl

merge-is_dirty_example : is_dirty (merge twelve first_only) 0 ≡ some (false || true)
unfolding is_dirty test_bit
merge-is_dirty_example =
    merge-is_dirty twelve first_only 0 false true twelve-Inv (record { covered = omega arith }) refl
      refl refl refl
