-- ===== src/Heap.antt =====
-- The blocks of the kernel's heap: __kcore/__kclasses/heap.cpp, __kcore/include/__kclasses/heap.h, and
-- of __kcore/include/__kclasses/list.h what the heap calls. An intrusive list is the sequence of its
-- items from the head on, so a header that is written stands with its address. The sizes are
-- those of the 32-bit kernel. A call holds the lock of the list of chunks.
pub mod Spaced
pub mod Takes
pub mod Gives
pub mod Appends
pub mod Mallocs
pub mod Links
pub mod Divides
pub mod Frees
pub mod Returns
pub mod Calls
mod Tests
use zambesii.Prelude.{
  ℕ, ◌-◌, ◌%◌, Bool, true, false, not, ◌&&◌, ◌||◌, List, [], ◌∷◌, Option, none, some, ◌==◌, leb,
  ltb, if◌then◌else◌, add_uarch, sub_uarch,
}
use zambesii.Prelude.Result.{Result, ok, fault, panic}

abbrev pub page_size : ℕ
page_size = 4096

abbrev pub sizeof_block : ℕ
sizeof_block = 40

abbrev pub sizeof_allocation : ℕ
sizeof_allocation = 76

abbrev pub sizeof_pointer : ℕ
sizeof_pointer = 4

-- `Heap::options`; OPT_CHECK_HEAP_RANGES_ON_FREE and OPT_CHECK_ALLOCS_ON_FREE are the last two.
pub record Options : Type 0 where
  pub guard_paged : Bool
  pub check_magic : Bool
  pub check_ranges : Bool
  pub check_allocs : Bool

pub record Block : Type 0 where
  pub address : ℕ
  pub parent : ℕ
  pub freed_by : ℕ
  pub n_bytes : ℕ
  pub magic_is_valid : Bool

pub record Allocation : Type 0 where
  pub address : ℕ
  pub parent : ℕ
  pub allocated_by : ℕ
  pub n_bytes : ℕ
  pub gap_size : ℕ
  pub magic_is_valid : Bool

pub record Chunk : Type 0 where
  pub address : ℕ
  pub n_allocations : ℕ
  pub blocks : List Block
  pub magic_is_valid : Bool

-- `List<Block>::sortedInsert`, by the addresses
pub sorted_insert : Block → List Block → List Block
sorted_insert item [] = item ∷ []
sorted_insert item (b ∷ bs) =
    let rest : List Block = sorted_insert item bs in
    if leb item.address b.address then item ∷ b ∷ bs else b ∷ rest

-- `List<Block>::remove`
pub remove : ℕ → List Block → List Block
remove address [] = []
remove address (b ∷ bs) =
    let rest : List Block = remove address bs in if b.address == address then bs else b ∷ rest

-- `listHeader.getNextItem()` of the block at `address`
pub next_item : ℕ → List Block → Option Block
next_item address [] = none
next_item address (b ∷ []) = none
next_item address (b ∷ b' ∷ bs) =
    let rest : Option Block = next_item address (b' ∷ bs) in
    if b.address == address then some b' else rest

-- A write of `nBytes` of the block at `address`
pub set_n_bytes : ℕ → ℕ → List Block → List Block
set_n_bytes address n [] = []
set_n_bytes address n (b ∷ bs) =
    let rest : List Block = set_n_bytes address n bs in
    if b.address == address then record b { n_bytes = n } ∷ bs else b ∷ rest

-- `& (pageSize - 1)` under OPT_GUARD_PAGED
abbrev pub misaligned : Options → ℕ → Bool
misaligned o address = o.guard_paged && not (address % page_size == 0)

abbrev pub gap_requirement : Options → ℕ → ℕ
gap_requirement o sz = if o.guard_paged then sub_uarch page_size (sz % page_size) else 0

-- The rest of a round of `Chunk::malloc`, at a block that satisfies the allocation. The header of
-- the allocation is written to its first 76 bytes, so for a smaller size the source writes past it;
-- `Heap::malloc` adds the 76 bytes to every size.
pub give_block : Options → Chunk → ℕ → ℕ → ℕ → Block → Result (Option Allocation × Chunk)
give_block o c gap sz by b =
    let total : ℕ = add_uarch gap sz in
    let all : ℕ = add_uarch gap (sub_uarch b.n_bytes total) in
    let dest : ℕ = add_uarch b.address total in
    let rest : Block = record {
      address = dest;
      parent = c.address;
      freed_by = b.freed_by;
      n_bytes = sub_uarch (sub_uarch b.n_bytes gap) sz;
      magic_is_valid = true;
    } in
    let alloc : ℕ → Allocation = λ g. record {
      address = add_uarch b.address g;
      parent = c.address;
      allocated_by = by;
      n_bytes = sz;
      gap_size = g;
      magic_is_valid = true;
    } in
    let with_blocks : List Block → Chunk =
      λ bs. record c { blocks = bs; n_allocations = add_uarch c.n_allocations 1 } in
    if leb (sub_uarch b.n_bytes sizeof_block) total
    then ok (some (alloc all), with_blocks (remove b.address c.blocks))
    else (if misaligned o dest
        then fault panic
        else ok (some (alloc gap), with_blocks (sorted_insert rest (remove b.address c.blocks))))

-- The loop of `Chunk::malloc` over the blocks that are left
pub malloc_from : Options → Chunk → ℕ → ℕ → ℕ → List Block → Result (Option Allocation × Chunk)
malloc_from o c gap sz by [] = ok (none, c)
malloc_from o c gap sz by (b ∷ bs) =
    let rest : Result (Option Allocation × Chunk) = malloc_from o c gap sz by bs in
    if misaligned o b.address
      || not (b.parent == c.address)
      || (o.check_magic && not b.magic_is_valid)
    then fault panic
    else (if ltb b.n_bytes (add_uarch gap sz) then rest else give_block o c gap sz by b)

pub malloc : Options → Chunk → ℕ → ℕ → Result (Option Allocation × Chunk)
malloc o c sz by = malloc_from o c (gap_requirement o sz) sz by c.blocks

-- The first byte of the gap of an allocation, and the one behind the allocation
abbrev pub start : Allocation → ℕ
start alloc = sub_uarch alloc.address alloc.gap_size

abbrev pub end : Allocation → ℕ
end alloc = add_uarch alloc.address alloc.n_bytes

abbrev pub total : Allocation → ℕ
total alloc = add_uarch alloc.gap_size alloc.n_bytes

abbrev pub block_end : Block → ℕ
block_end b = add_uarch b.address b.n_bytes

-- The second half of `Chunk::appendAndCoalesce`, with the block that comes next
pub coalesce : List Block → ℕ → ℕ → Option Block → List Block
coalesce grown address n none = grown
coalesce grown address n (some next) =
    let merged : List Block =
      remove next.address (set_n_bytes address (add_uarch n next.n_bytes) grown) in
    if add_uarch address n == next.address then merged else grown

-- `Chunk::appendAndCoalesce`, on the blocks
pub append_and_coalesce : List Block → Block → Allocation → List Block
append_and_coalesce blocks block alloc =
    let n : ℕ = add_uarch block.n_bytes (total alloc) in
    let grown : List Block = set_n_bytes block.address n blocks in
    coalesce grown block.address n (next_item block.address grown)

-- `Chunk::prependAndCoalesce`, on the blocks
pub prepend_and_coalesce : ℕ → List Block → Block → Option Block → Allocation → ℕ → List Block
prepend_and_coalesce chunk blocks block prev alloc by =
    let new : Block = record {
      address = start alloc;
      parent = chunk;
      freed_by = by;
      n_bytes = add_uarch (total alloc) block.n_bytes;
      magic_is_valid = true;
    } in
    let others : List Block = remove block.address blocks in
    elim prev [
      | none ↦ sorted_insert new others
      | some p ↦
          if block_end p == new.address
          then set_n_bytes p.address (add_uarch p.n_bytes new.n_bytes) others
          else sorted_insert new others
    ]

-- The end of `Chunk::free`
abbrev pub insert_new : ℕ → List Block → Allocation → ℕ → List Block
insert_new chunk blocks alloc by =
    sorted_insert
      (record {
        address = start alloc;
        parent = chunk;
        freed_by = by;
        n_bytes = total alloc;
        magic_is_valid = true;
      })
      blocks

-- `prevBlockEnd`, which is NULL without a block before
abbrev pub prev_end : Option Block → ℕ
prev_end none = 0
prev_end (some p) = sub_uarch (block_end p) 1

abbrev pub is_none : Option Block → Bool
is_none none = true
is_none (some p) = false

-- The loop of `Chunk::free` over the blocks that are left, with the one before; the blocks after it.
pub free_from : ℕ → List Block → Allocation → ℕ → Option Block → List Block → List Block
free_from chunk blocks alloc by prev [] = insert_new chunk blocks alloc by
free_from chunk blocks alloc by prev (b ∷ bs) =
    let rest : List Block = free_from chunk blocks alloc by (some b) bs in
    if end alloc == b.address
    then prepend_and_coalesce chunk blocks b prev alloc by
    else (if block_end b == start alloc
        then append_and_coalesce blocks b alloc
        else (if (is_none prev && ltb alloc.address b.address)
              || (ltb (prev_end prev) alloc.address && ltb alloc.address b.address)
            then insert_new chunk blocks alloc by
            else rest))

pub free : Chunk → Allocation → ℕ → Chunk
free c alloc by = record c {
  blocks = free_from c.address c.blocks alloc by none c.blocks;
  n_allocations = sub_uarch c.n_allocations 1;
}
