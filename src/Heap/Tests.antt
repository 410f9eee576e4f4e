-- ===== src/Heap/Tests.antt =====
-- A chunk at 4096 with one block of 1000 bytes, and one with an allocation of 100 bytes taken from it.
use Prim.{tt}
use zambesii.Prelude.{ℕ, ◌≡◌, refl, [], ◌∷◌, true, false, none, some, arith, ◌⊎◌, sub_uarch}
use zambesii.Prelude.Result.{ok, Error, success}
use zambesii.Heap.{Options, Block, Chunk, Allocation, malloc, free}
use zambesii.Heap.Spaced.{Spaced, is_free}
use zambesii.Heap.Takes.{Grants, TooSmall}
use zambesii.Heap.Mallocs.{malloc-Outcome}
use zambesii.Heap.Gives.{Sound}
use zambesii.Heap.Frees.{Restores, free-Restores}
use zambesii.Heap.Returns.{free-malloc}
use zambesii.Heap.Calls.{Heap, heap_realloc}
use zambesii.Heap.Calls.Sizes.{heap_realloc-Keeps}

abbrev plain : Options
plain = record {
  guard_paged = false;
  check_magic = true;
  check_ranges = false;
  check_allocs = false;
}

abbrev block : ℕ → ℕ → Block
block a n = record { address = a; parent = 4096; freed_by = 0; n_bytes = n; magic_is_valid = true }

abbrev whole : Chunk
whole = record {
  address = 4096;
  n_allocations = 0;
  blocks = block 4196 1000 ∷ [];
  magic_is_valid = true;
}

whole-Spaced : Spaced plain 4096 4096 whole.blocks
whole-Spaced = (
  omega arith,
  record { own = refl; magic = refl; aligned = refl; large = omega arith; bounded = omega arith },
  tt,
)

malloc-Outcome_example :
    ((malloc plain whole 100 7 ≡ ok (none, whole)) × TooSmall 100 whole.blocks)
    ⊎ ((alloc : Allocation) × (c' : Chunk) × (malloc plain whole 100 7 ≡ ok (some alloc, c'))
        × Grants plain 4096 whole 100 7 alloc c'
        × Sound plain 4096 alloc)
malloc-Outcome_example =
    malloc-Outcome plain 4096 whole 100 7 whole-Spaced (omega arith) (omega arith)

abbrev rest : Chunk
rest = record whole { blocks = block 4296 900 ∷ []; n_allocations = 1 }

abbrev taken : Allocation
taken = record {
  address = 4196;
  parent = 4096;
  allocated_by = 7;
  n_bytes = 100;
  gap_size = 0;
  magic_is_valid = true;
}

rest-Spaced : Spaced plain 4096 4096 rest.blocks
rest-Spaced = (
  omega arith,
  record { own = refl; magic = refl; aligned = refl; large = omega arith; bounded = omega arith },
  tt,
)

taken-Sound : Sound plain 4096 taken
taken-Sound = record {
  begins = omega arith;
  above = omega arith;
  large = omega arith;
  bounded = omega arith;
  aligned = refl;
}

free-Restores_example :
    Restores plain 4096 4096 rest.blocks taken (free rest taken 8).blocks
    × ((free rest taken 8).n_allocations ≡ sub_uarch 1 1)
free-Restores_example =
    free-Restores plain 4096 rest taken 8 taken-Sound rest-Spaced (λ i h. ground (arith, h))

free-malloc_example :
    (malloc plain whole 100 7 ≡ ok (none, whole))
    ⊎ ((alloc : Allocation) × (c' : Chunk) × (malloc plain whole 100 7 ≡ ok (some alloc, c'))
        × Spaced plain c'.address 4096 (free c' alloc 8).blocks
        × ((i : ℕ) → is_free (free c' alloc 8).blocks i ≡ is_free whole.blocks i))
free-malloc_example = free-malloc plain 4096 whole 100 7 8 whole-Spaced (omega arith) (omega arith)

abbrev no_faults : ℕ → Error
no_faults page = success

abbrev heap : Heap
heap = record { chunk_size = 65536; options = plain; chunks = whole ∷ []; allocations = [] }

heap_realloc-Keeps_example :
    heap_realloc 64 no_faults no_faults heap taken 5000 7 none none ≡ ok (some taken, 0, heap)
heap_realloc-Keeps_example =
    heap_realloc-Keeps 64 no_faults no_faults heap taken 5000 7 none none refl refl refl
      (omega arith) (omega arith) (omega arith)

abbrev used_heap : Heap
used_heap = record heap { chunks = rest ∷ []; allocations = taken ∷ [] }
