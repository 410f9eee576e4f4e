-- ===== src/Heap/Calls/Mallocs.antt =====
-- `Heap::malloc` over all chunks.
use zambesii.Prelude.{ℕ, ◌≡◌, [], ◌∷◌, ◌++◌, Option, none, some, ◌⊎◌}
use zambesii.Prelude.Result.{Result, ok}
use zambesii.Heap.{Allocation}
use zambesii.Heap.Calls.{Heap}
use zambesii.Heap.Calls.Fits.{AllGood}

-- How `malloc` of a heap ends for a padded size: with NULL and the same allocations, or with one more.
pub Served : Heap → ℕ → Result (Option Allocation × Heap) → Type 0
Served h sz r =
    ((h' : Heap) × (r ≡ ok (none, h'))
      × AllGood h.options h'.chunks
      × (h'.allocations ≡ h.allocations))
    ⊎ ((alloc : Allocation) × (h' : Heap) × (r ≡ ok (some alloc, h'))
        × AllGood h.options h'.chunks
        × (h'.allocations ≡ h.allocations ++ alloc ∷ [])
        × (alloc.n_bytes ≡ sz))
