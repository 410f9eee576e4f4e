-- ===== src/Heap/Calls/Checks.antt =====
-- `Heap::checkBlocks` and `Heap::checkAllocations`.
use Prim.{Unit, tt}
use zambesii.Prelude.{
  ℕ, ◌+◌, ◌^◌, ◌<◌, ◌≤◌, ◌≡◌, refl, not, ◌||◌, List, [], ◌∷◌, Option, none, some, ◌==◌, leb, ltb,
  if◌then◌else◌, arith, add_uarch,
}
use zambesii.Prelude.Result.{
  Error, success, unknown, limit_overflowed, general, duplicate, fatal, is_success,
}
use zambesii.Heap.{Options, Block, Chunk, Allocation, block_end}
use zambesii.Heap.Spaced.{Spaced, add_small}
use zambesii.Heap.Calls.{Heap, parent_of, find_chunk}
use zambesii.Heap.Calls.Fits.{AllGood}

-- The tests on a block and the one before
abbrev pub check_order : Option Block → Block → Error
check_order none b = success
check_order (some p) b =
    if ltb b.address p.address
    then general
    else (if b.address == p.address
        then duplicate
        else (if leb b.address (block_end p) then unknown else success))

abbrev pub check_block : ℕ → ℕ → Option Block → Block → Error
check_block chunk chunk_end prev b =
    if not b.magic_is_valid
    then unknown
    else (if not (b.parent == chunk)
        then unknown
        else (if ltb chunk_end (block_end b) then limit_overflowed else check_order prev b))

-- The inner loop of `checkBlocks`
pub check_blocks_from : ℕ → ℕ → Option Block → List Block → Error
check_blocks_from chunk chunk_end prev [] = success
check_blocks_from chunk chunk_end prev (b ∷ bs) =
    let rest : Error = check_blocks_from chunk chunk_end (some b) bs in
    if is_success (check_block chunk chunk_end prev b)
    then rest
    else check_block chunk chunk_end prev b

pub check_chunks : Heap → List Chunk → Error
check_chunks h [] = success
check_chunks h (c ∷ cs) =
    let rest : Error = check_chunks h cs in
    let result : Error =
      check_blocks_from c.address (add_uarch c.address h.chunk_size) none c.blocks in
    if is_success result then rest else result

pub check_blocks : Heap → Error
check_blocks h = check_chunks h h.chunks

-- The loop of `checkAllocations` over the allocations, with `n` counted so far
pub check_allocs_from : Heap → ℕ → ℕ → List Allocation → Error
check_allocs_from h total n [] = if n == total then success else fatal
check_allocs_from h total n (a ∷ rest) =
    let next : Error = check_allocs_from h total (add_uarch n 1) rest in
    elim (parent_of h h.chunks a.address) [
      | none ↦ fatal
      | some detected ↦
          if not a.magic_is_valid
          then fatal
          else (if not (find_chunk h.chunks a.parent) || not (a.parent == detected)
              then fatal
              else next)
    ]

-- The first loop of `checkAllocations`: the allocations of the chunks, or none for an invalid magic
pub total_allocs : ℕ → List Chunk → Option ℕ
total_allocs n [] = some n
total_allocs n (c ∷ cs) =
    let rest : Option ℕ = total_allocs (add_uarch n c.n_allocations) cs in
    if not c.magic_is_valid then none else rest

pub check_allocations : Heap → Error
check_allocations h = elim (total_allocs 0 h.chunks) [
  | none ↦ fatal
  | some total ↦ check_allocs_from h total 0 h.allocations
]

-- The blocks end in their chunk.
abbrev pub Inside : ℕ → List Block → Type 0
Inside hi [] = Unit {0}
Inside hi (b ∷ bs) = (b.address + b.n_bytes ≤ hi) × Inside hi bs

abbrev pub AllInside : ℕ → List Chunk → Type 0
AllInside chunk_size [] = Unit {0}
AllInside chunk_size (c ∷ cs) =
    (c.address + chunk_size < 2 ^ 32)
    × Inside (c.address + chunk_size) c.blocks
    × AllInside chunk_size cs

-- The block before ends below `lo`.
abbrev EndsBelow : ℕ → Option Block → Type 0
EndsBelow lo none = Unit {0}
EndsBelow lo (some p) = p.address + p.n_bytes < lo

order-Passes :
    (lo : ℕ) (prev : Option Block) (b : Block)
    → EndsBelow lo prev
    → lo ≤ b.address
    → b.address < 2 ^ 32
    → check_order prev b ≡ success
order-Passes lo none b before le few = refl
order-Passes lo (some p) b before le few =
    rw (add_small p.address p.n_bytes (omega (arith, before, le, few))) (ground (arith, before, le))

blocks-Pass :
    (o : Options) (chunk lo hi : ℕ) (prev : Option Block) (bs : List Block)
    → Spaced o chunk lo bs
    → Inside hi bs
    → EndsBelow lo prev
    → check_blocks_from chunk hi prev bs ≡ success
unfolding check_blocks_from
blocks-Pass o chunk lo hi prev [] v inside before = refl
blocks-Pass o chunk lo hi prev (b ∷ bs) (le, fine, v) (fits, inside) before =
    let test : check_block chunk hi prev b ≡ success =
      rw (fine.magic, fine.own, add_small b.address b.n_bytes fine.bounded)
        (ground (arith, fits, order-Passes lo prev b before le (omega (arith, fine.bounded)))) in
    rw test (blocks-Pass o chunk (b.address + b.n_bytes + 1) hi (some b) bs v inside (omega arith))

-- `checkBlocks` finds nothing to complain of in a heap whose chunks have their blocks in the order
-- of their addresses with bytes in use between them, with the chunk as their parent and their
-- magic, and ending inside of the chunk.
check_blocks-Passes :
    (h : Heap)
    → AllGood h.options h.chunks
    → AllInside h.chunk_size h.chunks
    → check_blocks h ≡ success
unfolding check_blocks check_chunks
check_blocks-Passes h good inside = at h.chunks good inside
  where
    at :
        (cs : List Chunk)
        → AllGood h.options cs
        → AllInside h.chunk_size cs
        → check_chunks h cs ≡ success
    at [] good inside = refl
    at (c ∷ cs) (g, good) (few, fits, inside) =
        rw
          (
            add_small c.address h.chunk_size few,
            blocks-Pass h.options c.address c.address (c.address + h.chunk_size) none c.blocks
                g.spaced fits tt,
          )
          (at cs good inside)
