-- ===== src/Heap/Calls/Sizes.antt =====
-- The sizes that `Heap::malloc` and `Heap::realloc` compute.
use zambesii.Prelude.{
  ℕ, ◌+◌, ◌%◌, ◌^◌, ◌<◌, ◌≤◌, ◌≡◌, refl, true, false, arith, if◌then◌else◌, Option, some, leb,
}
use zambesii.Prelude.Result.{ok, Error}
use zambesii.Heap.{Options, Allocation, page_size}
use zambesii.Heap.Calls.{Heap, padded, room, heap_realloc}

-- What a call asks for with its header, and with the guard page
abbrev pub asked : Options → ℕ → ℕ
asked o sz = sz + 76 + (if o.guard_paged then page_size else 0)

pub padded-asked :
    (o : Options) (sz : ℕ)
    → sz + 76 + 4096 + 4 < 2 ^ 32
    → (asked o sz ≤ padded o sz) × (padded o sz < asked o sz + 4) × (padded o sz % 4 ≡ 0)
unfolding padded
padded-asked o sz few = ground (arith, few)

-- With guard pages and the check of the list of allocations turned off, `realloc` of an allocation
-- that has its magic, its header and less than a page behind it returns the allocation as it is for
-- every size up to 2 ^ 32 - 4096 bytes, however few bytes it has: the page that it subtracts from
-- the size was never added, and the difference wraps around.
pub heap_realloc-Keeps :
    (sizeof_chunk : ℕ) (set_guard unset_guard : ℕ → Error) (h : Heap) (alloc : Allocation)
    (sz by : ℕ) (first second : Option ℕ)
    → h.options.guard_paged ≡ false
    → h.options.check_allocs ≡ false
    → alloc.magic_is_valid ≡ true
    → 76 ≤ alloc.n_bytes
    → alloc.n_bytes < 76 + 4096
    → sz + 4096 ≤ 2 ^ 32
    → heap_realloc sizeof_chunk set_guard unset_guard h alloc sz by first second
      ≡ ok (some alloc, 0, h)
unfolding heap_realloc
heap_realloc-Keeps sizeof_chunk set_guard unset_guard h alloc sz by first second g c m lo hi few =
    let enough : leb sz (room alloc) ≡ true = ground (arith, lo, hi, few) in rw (m, c, enough) refl
