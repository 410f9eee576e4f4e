-- ===== src/Heap/Calls/Frees.antt =====
-- `Heap::free` of an allocation that a chunk of the heap gave.
use Prim.{Unit}
use zambesii.Prelude.{ℕ, ◌≡◌, ◌≢◌, List, [], ◌∷◌, ◌++◌, true, false}
use zambesii.Heap.{Chunk, Allocation, misaligned, end}
use zambesii.Heap.Spaced.{Spaced, is_free}
use zambesii.Heap.Takes.{taken_by}
use zambesii.Heap.Gives.{Sound}
use zambesii.Heap.Calls.{Heap, find_allocation, alloc_is_within_heap}

-- None of the chunks is at the address.
abbrev pub NotAt : ℕ → List Chunk → Type 0
NotAt address [] = Unit {0}
NotAt address (c ∷ cs) = (c.address ≢ address) × NotAt address cs

-- The chunk `c` is the one that the allocation was taken from, the allocation is in the list and in
-- the heap, and it ends on a page where there are guard pages.
pub record Freeable (h : Heap) (ds : List Chunk) (c : Chunk) (es : List Chunk) (alloc : Allocation)
    : Type 0 where
  pub split : h.chunks ≡ ds ++ c ∷ es
  pub first : NotAt alloc.parent ds
  pub parent : c.address ≡ alloc.parent
  pub sound : Sound h.options c.address alloc
  pub in_use : (i : ℕ) → taken_by alloc i ≡ true → is_free c.blocks i ≡ false
  pub magic : alloc.magic_is_valid ≡ true
  pub ends : misaligned h.options (end alloc) ≡ false
  pub within_heap : alloc_is_within_heap h alloc.address ≡ true
  pub listed : find_allocation h.allocations alloc.address ≡ true
