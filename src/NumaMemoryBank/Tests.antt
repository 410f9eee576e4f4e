-- ===== src/NumaMemoryBank/Tests.antt =====
-- A bank of two ranges, the first of them the default one.
use Prim.{tt}
use zambesii.Prelude.{◌*◌, ◌≡◌, ◌⊎◌, refl, [], ◌∷◌, ◌++◌, some, false}
use zambesii.Prelude.Result.{ok, ◌>>=◌}
use zambesii.NumaMemoryRange
use zambesii.NumaMemoryBank.{
  RangePtr, NumaMemoryBank, remove_memory_range, release_frames, bank_identify_paddr,
}
use zambesii.NumaMemoryBank.Routing.{Routed, release_frames_routes}
use zambesii.NumaMemoryBank.Lifetime.{IsValid, RemovalOutcome, remove_memory_range-RemovalOutcome}

abbrev low_range : RangePtr
low_range = record { address = 10; range = NumaMemoryRange.new (16 * 4096) (40 * 4096) }

abbrev high_range : RangePtr
high_range = record { address = 20; range = NumaMemoryRange.new (256 * 4096) (64 * 4096) }

abbrev two_ranges : NumaMemoryBank
two_ranges = record { ranges = low_range ∷ high_range ∷ []; def_range = some 10 }

two_ranges-IsValid : IsValid two_ranges
two_ranges-IsValid = record { distinct = (refl, (refl, tt)); default_lives = refl }

remove_memory_range-RemovalOutcome_example :
    RemovalOutcome two_ranges (17 * 4096) (remove_memory_range two_ranges (17 * 4096))
remove_memory_range-RemovalOutcome_example =
    remove_memory_range-RemovalOutcome (17 * 4096) two_ranges-IsValid

release_frames_routes_example :
    ((bank_identify_paddr two_ranges (300 * 4096) ≡ false)
      × (release_frames two_ranges (300 * 4096) 1 ≡ ok two_ranges))
    ⊎ ((way : Routed (low_range ∷ high_range ∷ []) (300 * 4096)) × (release_frames two_ranges
            (300 * 4096)
            1
          ≡ (NumaMemoryRange.release_frames way.cur.range (300 * 4096) 1 >>= λ range.
              ok (record two_ranges {
                ranges = way.before ++ record way.cur { range = range } ∷ way.after;
              }))))
release_frames_routes_example = release_frames_routes two_ranges (300 * 4096) 1
