-- ===== src/Heap/Calls.antt =====
-- The calls of `Heap`: `malloc`, `free`, `realloc` and what they use. `sizeof_chunk` is the size of a
-- `Chunk`, and the memory stream and the page tables are parameters: the memory that
-- `memAlloc` returns, and how `setGuardPage` and `unsetGuardPage` end.
pub mod Sizes
pub mod Fits
pub mod Mallocs
pub mod Checks
pub mod Frees
use zambesii.Prelude.{
  ℕ, zero, suc, ◌+◌, ◌-◌, ◌%◌, Bool, true, false, not, ◌&&◌, ◌||◌, List, [], ◌∷◌, ◌++◌, Option,
  none, some, ◌==◌, leb, ltb, if◌then◌else◌, add_uarch, sub_uarch,
}
use zambesii.Prelude.Result.{Result, ok, fault, panic, ◌>>=◌, Error, success, is_success}
use zambesii.Heap.{
  Options, Block, Chunk, Allocation, page_size, sizeof_allocation, sizeof_pointer, sorted_insert,
  misaligned, malloc, free, start, end,
}

pub record Heap : Type 0 where
  pub chunk_size : ℕ
  pub options : Options
  pub chunks : List Chunk
  pub allocations : List Allocation

-- The sums of `Heap::malloc` before it takes the lock
pub padded : Options → ℕ → ℕ
padded o sz =
    let header : ℕ = add_uarch sz sizeof_allocation in
    let guarded : ℕ = if o.guard_paged then add_uarch header page_size else header in
    let more : ℕ = add_uarch guarded sizeof_pointer in
    if guarded % sizeof_pointer == 0 then guarded else more - more % sizeof_pointer

-- One pass of `Heap::malloc` over the chunks
pub first_fit : Options → ℕ → ℕ → List Chunk → Result (Option Allocation × List Chunk)
first_fit o sz by [] = ok (none, [])
first_fit o sz by (c ∷ cs) =
    let rest : Result (Option Allocation × List Chunk) = first_fit o sz by cs in
    let found : Result (Option Allocation × List Chunk) = malloc o c sz by >>= λ (a, c'). elim a [
      | none ↦ rest >>= λ (a', cs'). ok (a', c' ∷ cs')
      | some alloc ↦ ok (some alloc, c' ∷ cs)
    ] in
    if not c.magic_is_valid then fault panic else found

-- `getNewChunk`, with the memory at `a`
pub new_chunk : Options → ℕ → ℕ → ℕ → Chunk
new_chunk o sizeof_chunk chunk_size a =
    let header_end : ℕ = add_uarch a sizeof_chunk in
    let up : ℕ = add_uarch header_end page_size in
    let first : ℕ = if misaligned o header_end then up - up % page_size else header_end in
    record {
      address = a;
      n_allocations = 0;
      blocks =
          sorted_insert
            (record {
              address = first;
              parent = a;
              freed_by = 0;
              n_bytes = sub_uarch chunk_size (sub_uarch first a);
              magic_is_valid = true;
            })
            [];
      magic_is_valid = true;
    }

-- The bytes of an allocation that `realloc` takes to be the caller's; `pageSize` is subtracted with
-- and without guard pages.
abbrev pub room : Allocation → ℕ
room alloc = sub_uarch (sub_uarch alloc.n_bytes sizeof_allocation) page_size

-- `allocIsWithinHeap`: the chunk that it finds
unfoldable pub parent_of : Heap → List Chunk → ℕ → Option ℕ
parent_of h [] address = none
parent_of h (c ∷ cs) address =
    let rest : Option ℕ = parent_of h cs address in
    if ltb address c.address || leb (add_uarch c.address h.chunk_size) address
    then rest
    else some c.address

abbrev pub alloc_is_within_heap : Heap → ℕ → Bool
alloc_is_within_heap h address = elim (parent_of h h.chunks address) [
  | none ↦ false
  | some c ↦ true
]

-- `allocationList.find`, `allocationList.remove` and `chunkList.find`
unfoldable pub find_allocation : List Allocation → ℕ → Bool
find_allocation [] address = false
find_allocation (a ∷ rest) address =
    let found : Bool = find_allocation rest address in if a.address == address then true else found

pub remove_allocation : List Allocation → ℕ → List Allocation
remove_allocation [] address = []
remove_allocation (a ∷ rest) address =
    let others : List Allocation = remove_allocation rest address in
    if a.address == address then rest else a ∷ others

pub find_chunk : List Chunk → ℕ → Bool
find_chunk [] address = false
find_chunk (c ∷ cs) address =
    let found : Bool = find_chunk cs address in if c.address == address then true else found

-- `alloc->parent->free`
pub free_in : List Chunk → Allocation → ℕ → List Chunk
free_in [] alloc by = []
free_in (c ∷ cs) alloc by =
    let rest : List Chunk = free_in cs alloc by in
    if c.address == alloc.parent then free c alloc by ∷ cs else c ∷ rest

-- The tests of `Heap::free` that end in a panic
pub refuses : Heap → Allocation → Bool
refuses h alloc =
    misaligned h.options (start alloc)
    || misaligned h.options (end alloc)
    || (h.options.check_ranges && not (alloc_is_within_heap h alloc.address))
    || not alloc.magic_is_valid
    || alloc.n_bytes == 0
    || (h.options.check_allocs && not (find_allocation h.allocations alloc.address))
    || not (find_chunk h.chunks alloc.parent)

module _ (sizeof_chunk : ℕ) (set_guard_page unset_guard_page : ℕ → Error) where
  -- After the lock is given up: the guard page, and the list of the allocations
  pub finish : Heap → Allocation → Option Allocation × Heap
  finish h alloc =
      let guard : ℕ = sub_uarch (end alloc) page_size in
      if h.options.guard_paged && not (is_success (set_guard_page guard))
      then (none, h)
      else (some alloc, record h { allocations = h.allocations ++ alloc ∷ [] })

  -- The passes of `Heap::malloc`, each with the memory for a new chunk
  pub passes : Heap → ℕ → ℕ → List (Option ℕ) → Result (Option Allocation × Heap)
  passes h sz by [] = ok (none, h)
  passes h sz by (none ∷ more) = first_fit h.options sz by h.chunks >>= λ (found, cs). elim found [
    | some alloc ↦ ok (finish (record h { chunks = cs }) alloc)
    | none ↦ ok (none, record h { chunks = cs })
  ]
  passes h sz by (some a ∷ more) = first_fit h.options sz by h.chunks >>= λ (found, cs).
      elim found [
        | some alloc ↦ ok (finish (record h { chunks = cs }) alloc)
        | none ↦
            passes
              (record h { chunks = cs ++ new_chunk h.options sizeof_chunk h.chunk_size a ∷ [] }) sz
              by more
      ]

  -- `Heap::malloc`; the pointer that it returns stands behind the header.
  pub heap_malloc : Heap → ℕ → ℕ → Option ℕ → Option ℕ → Result (Option Allocation × Heap)
  heap_malloc h sz by first second =
      if sz == 0 then fault panic else passes h (padded h.options sz) by (first ∷ second ∷ [])

  -- `Heap::free`, with the header that stands before the pointer
  pub heap_free : Heap → Allocation → ℕ → Result Heap
  heap_free h alloc by =
      let taken : Heap = record h { allocations = remove_allocation h.allocations alloc.address } in
      let guard : ℕ = sub_uarch (end alloc) page_size in
      if refuses h alloc
      then fault panic
      else (if h.options.guard_paged && not (is_success (unset_guard_page guard))
          then ok taken
          else ok (record taken { chunks = free_in h.chunks alloc by }))

  -- `Heap::realloc` of an allocation: it stays, or another one and how many bytes are copied to it.
  pub heap_realloc :
      Heap → Allocation → ℕ → ℕ → Option ℕ → Option ℕ → Result (Option Allocation × ℕ × Heap)
  heap_realloc h alloc sz by first second =
      let moved : Result (Option Allocation × ℕ × Heap) =
        heap_malloc h sz by first second >>= λ (new, h'). elim new [
          | none ↦ ok (none, 0, h')
          | some a ↦ heap_free h' alloc by >>= λ h''. ok (some a, room alloc, h'')
        ] in
      if not alloc.magic_is_valid
        || (h.options.check_allocs && not (find_allocation h.allocations alloc.address))
      then fault panic
      else (if leb sz (room alloc)
          then ok (some alloc, 0, h)
          else (if sz == 0 then (heap_free h alloc by >>= λ h'. ok (none, 0, h')) else moved))
