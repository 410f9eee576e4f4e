-- ===== src/Heap/Mallocs.antt =====
-- `Heap::Chunk::malloc` as a whole: the walk to the first block with room.
use Prim.{tt}
use zambesii.Prelude.{
  ℕ, ◌+◌, ◌^◌, ◌<◌, ◌≤◌, ◌≡◌, refl, sym, ◌∙◌, List, [], ◌∷◌, ◌++◌, true, false, not, arith, ◌&&◌,
  ◌||◌, ltb, ◌==◌, Option, none, some, dec_le, ◌⊎◌, inl, inr, append_snoc,
}
use zambesii.Prelude.Result.{Result, ok}
use zambesii.Heap.{
  Options, Block, Chunk, Allocation, misaligned, gap_requirement, give_block, malloc_from, malloc,
}
use zambesii.Heap.Spaced.{Fine, Spaced, Spaced-split, add_small}
use zambesii.Heap.Gives.{Sound}
use zambesii.Heap.Takes.{Finds, Grants, TooSmall, give_whole, give_part}

-- A run that returns NULL and leaves the chunk as it is when no block has room, else an allocation.
pub Outcome : Options → ℕ → Chunk → ℕ → ℕ → List Block → Result (Option Allocation × Chunk) → Type 0
Outcome o lo c sz by bs r =
    ((r ≡ ok (none, c)) × TooSmall (gap_requirement o sz + sz) bs) ⊎ Finds o lo c sz by r

tests_pass :
    (o : Options) (chunk : ℕ) (b : Block)
    → Fine o chunk b
    → (misaligned o b.address || not (b.parent == chunk) || (o.check_magic && not b.magic_is_valid))
      ≡ false
tests_pass o chunk b fine = rw (fine.aligned, fine.own, fine.magic) (ground arith)

give-Finds :
    (o : Options) (lo : ℕ) (c : Chunk) (xs : List Block) (b : Block) (ys : List Block) (sz by : ℕ)
    → c.blocks ≡ xs ++ b ∷ ys
    → Spaced o c.address lo (xs ++ b ∷ ys)
    → gap_requirement o sz + sz ≤ b.n_bytes
    → Finds o lo c sz by (give_block o c (gap_requirement o sz) sz by b)
give-Finds o lo c xs b ys sz by split v fits =
    elim (dec_le b.n_bytes (gap_requirement o sz + sz + 40)) [
      | yes small ↦ give_whole o lo c xs b ys sz by split v fits small
      | no large ↦ give_part o lo c xs b ys sz by split v (omega (arith, large))
    ]

malloc_from-Outcome :
    (o : Options) (lo : ℕ) (c : Chunk) (xs ys : List Block) (sz by : ℕ)
    → c.blocks ≡ xs ++ ys
    → Spaced o c.address lo (xs ++ ys)
    → gap_requirement o sz + sz < 2 ^ 32
    → Outcome o lo c sz by ys (malloc_from o c (gap_requirement o sz) sz by ys)
unfolding malloc_from Outcome
malloc_from-Outcome o lo c xs [] sz by split v few = inl (refl, tt)
malloc_from-Outcome o lo c xs (b ∷ ys) sz by split v few =
    let gap : ℕ = gap_requirement o sz in
    let (upto, fine, rest) = Spaced-split o c.address lo xs b ys v in
    elim (dec_le (gap + sz) b.n_bytes) [
      | yes fits ↦
          let room : ltb b.n_bytes (gap + sz) ≡ false = ground (arith, fits) in
          inr (
            rw (tests_pass o c.address b fine, add_small gap sz few, room)
              (give-Finds o lo c xs b ys sz by split v fits))
      | no short ↦
          let no_room : ltb b.n_bytes (gap + sz) ≡ true = ground (arith, short) in
          rw (tests_pass o c.address b fine, add_small gap sz few, no_room)
            (passed (omega (arith, short)) (
              malloc_from-Outcome o lo c (xs ++ b ∷ []) ys sz by (split ∙ sym (append_snoc xs b ys))
                (rw (append_snoc xs b ys) v) few))
    ]
  where
    passed :
        {r : Result (Option Allocation × Chunk)}
        → b.n_bytes < gap_requirement o sz + sz
        → Outcome o lo c sz by ys r
        → Outcome o lo c sz by (b ∷ ys) r
    passed lt (inl (e, small)) = inl (e, (lt, small))
    passed lt (inr found) = inr found

-- An allocation with room for its header, as `free` wants it
Grants-Sound :
    {o : Options} {lo sz by : ℕ} {c c' : Chunk} {alloc : Allocation}
    → 76 ≤ sz
    → Grants o lo c sz by alloc c'
    → Sound o lo alloc
Grants-Sound large g = record {
  begins = g.begins;
  above = g.above;
  large = omega (arith, large, g.sized);
  bounded = g.bounded;
  aligned = g.aligned;
}

-- In a chunk of blocks that have a header's 40 bytes at least, end below 2 ^ 32, have the chunk as
-- their parent, their magic and, with guard pages, begin on a page, and that stand in the order of
-- their addresses with bytes in use between them, and for a size that has the 76 bytes of an
-- allocation's header at least and does not wrap with its gap,
-- `Chunk::malloc` does not panic: either no block has room for the size and the gap, and it returns
-- NULL and changes nothing, or it returns an allocation of that size with at least the gap, all
-- bytes of both were free, exactly they are not free afterwards, the count of the allocations goes
-- up, the blocks stay so, and the allocation has room for its own header and is one that `free`
-- takes: its gap begins where the blocks may begin, on a page with guard pages, and it ends below
-- 2 ^ 32.
pub malloc-Outcome :
    (o : Options) (lo : ℕ) (c : Chunk) (sz by : ℕ)
    → Spaced o c.address lo c.blocks
    → 76 ≤ sz
    → gap_requirement o sz + sz < 2 ^ 32
    → ((malloc o c sz by ≡ ok (none, c)) × TooSmall (gap_requirement o sz + sz) c.blocks)
      ⊎ ((alloc : Allocation) × (c' : Chunk) × (malloc o c sz by ≡ ok (some alloc, c'))
          × Grants o lo c sz by alloc c'
          × Sound o lo alloc)
unfolding malloc Outcome Finds
malloc-Outcome o lo c sz by v large few =
    elim (malloc_from-Outcome o lo c [] c.blocks sz by refl v few) [
      | inl none_fits ↦ inl none_fits
      | inr (alloc, c', run, g) ↦ inr (alloc, c', run, g, Grants-Sound large g)
    ]
