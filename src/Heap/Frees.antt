-- ===== src/Heap/Frees.antt =====
-- `Heap::Chunk::free` as a whole: the bytes that are free afterwards.
use Prim.{tt}
use zambesii.Prelude.{
  ℕ, ◌+◌, ◌≡◌, refl, ◌∙◌, List, ◌∷◌, ◌++◌, true, false, arith, ◌||◌, none, sub_uarch, inl, inr,
  append_snoc,
}
use zambesii.Heap.{Options, Block, Chunk, Allocation, free_from, free}
use zambesii.Heap.Spaced.{
  Fine, Spaced, Upto, is_free, Upto-higher, Spaced-lower, Spaced-join, is_free-append,
}
use zambesii.Heap.Takes.{taken_by}
use zambesii.Heap.Divides.{divide, left_cases, right_cases}
use zambesii.Heap.Gives.{from, till, Sound, new_block, walk_lem, apart_lem, before_lem, last_block}
use zambesii.Heap.Appends.{after_lem, between_lem}

-- What the blocks are after `free`.
pub record Restores (o : Options) (chunk lo : ℕ) (blocks : List Block) (alloc : Allocation)
    (bs : List Block) : Type 0 where
  pub kept : Spaced o chunk lo bs
  pub freed : (i : ℕ) → is_free bs i ≡ (is_free blocks i || taken_by alloc i)

module _ (o : Options) (chunk lo : ℕ) (alloc : Allocation) (by : ℕ) (v : Sound o lo alloc) where
  abbrev merged : ℕ → Block
  merged n = new_block o chunk lo alloc by v n

  Outcome : List Block → Type 0
  Outcome blocks =
      (bs : List Block) × (free_from chunk blocks alloc by none blocks ≡ bs)
      × Restores o chunk lo blocks alloc bs

  -- The allocation goes back without a block that ends at it.
  left_apart :
      (xs ys : List Block)
      → Upto o chunk lo xs (from alloc)
      → Spaced o chunk (till alloc + 1) ys
      → Outcome (xs ++ ys)
  unfolding Outcome
  left_apart xs ys upto spaced =
      let m : Block = merged (alloc.gap_size + alloc.n_bytes) in
      let (walk, ends) = walk_lem o chunk lo alloc by v (xs ++ ys) none lo xs ys upto tt in
      (
        xs ++ m ∷ ys,
        walk ∙ apart_lem o chunk lo alloc by v (last_block none xs) xs ys upto spaced ends,
        record {
          kept = Spaced-join o chunk lo xs (from alloc) (m ∷ ys) upto (
            omega arith,
            record {
              own = refl;
              magic = refl;
              aligned = v.aligned;
              large = omega (arith, v.large);
              bounded = omega (arith, v.begins, v.bounded);
            },
            Spaced-lower o chunk (m.address + m.n_bytes + 1) (till alloc + 1) ys
                (omega (arith, v.begins)) spaced,
          );
          freed = λ i.
              rw (is_free-append xs (m ∷ ys) i, is_free-append xs ys i) (ground (arith, v.begins));
        },
      )

  left_touch :
      (xs : List Block) (y : Block) (ys : List Block)
      → Upto o chunk lo xs (from alloc)
      → y.address ≡ till alloc
      → Fine o chunk y
      → Spaced o chunk (y.address + y.n_bytes + 1) ys
      → Outcome (xs ++ y ∷ ys)
  unfolding Outcome
  left_touch xs y ys upto e fine spaced =
      let m : Block = merged (alloc.gap_size + alloc.n_bytes + y.n_bytes) in
      let (walk, ends) =
        walk_lem o chunk lo alloc by v (xs ++ y ∷ ys) none lo xs (y ∷ ys) upto tt in
      (
        xs ++ m ∷ ys,
        walk
            ∙ before_lem o chunk lo alloc by v (last_block none xs) xs y ys upto e fine spaced ends,
        record {
          kept = Spaced-join o chunk lo xs (from alloc) (m ∷ ys) upto (
            omega arith,
            record {
              own = refl;
              magic = refl;
              aligned = v.aligned;
              large = omega (arith, v.large);
              bounded = omega (arith, e, v.begins, fine.bounded);
            },
            Spaced-lower o chunk (m.address + m.n_bytes + 1) (y.address + y.n_bytes + 1) ys
                (omega (arith, e, v.begins)) spaced,
          );
          freed = λ i.
              rw (is_free-append xs (m ∷ ys) i, is_free-append xs (y ∷ ys) i)
                (ground (arith, e, v.begins, v.large));
        },
      )

  -- The block `p` ends where the allocation begins.
  module _ (xs : List Block) (p : Block) (upto : Upto o chunk lo xs p.address)
      (fine : Fine o chunk p) (e : p.address + p.n_bytes ≡ from alloc) where
    walked :
        (zs : List Block)
        → (free_from chunk (xs ++ p ∷ zs) alloc by none (xs ++ p ∷ zs)
            ≡ free_from chunk (xs ++ p ∷ zs) alloc by (last_block none xs) (p ∷ zs))
    walked zs =
        (walk_lem o chunk lo alloc by v (xs ++ p ∷ zs) none lo xs (p ∷ zs)
          (Upto-higher o chunk lo xs p.address (from alloc) (omega (arith, e)) upto) tt).0

    right_apart : (ys : List Block) → Spaced o chunk (till alloc + 1) ys → Outcome (xs ++ p ∷ ys)
    unfolding Outcome
    right_apart ys spaced =
        let m : Block = record p { n_bytes = p.n_bytes + (alloc.gap_size + alloc.n_bytes) } in
        (
          xs ++ m ∷ ys,
          walked ys
              ∙ after_lem o chunk lo alloc by v xs p upto fine e (last_block none xs) ys spaced,
          record {
            kept = Spaced-join o chunk lo xs p.address (m ∷ ys) upto (
              omega arith,
              record {
                own = fine.own;
                magic = fine.magic;
                aligned = fine.aligned;
                large = omega (arith, fine.large);
                bounded = omega (arith, e, v.begins, v.bounded);
              },
              Spaced-lower o chunk (m.address + m.n_bytes + 1) (till alloc + 1) ys
                  (omega (arith, e, v.begins)) spaced,
            );
            freed = λ i.
                rw (is_free-append xs (m ∷ ys) i, is_free-append xs (p ∷ ys) i)
                  (ground (arith, e, v.begins));
          },
        )

    both_touch :
        (y : Block) (ys : List Block)
        → y.address ≡ till alloc
        → Fine o chunk y
        → Spaced o chunk (y.address + y.n_bytes + 1) ys
        → Outcome (xs ++ p ∷ y ∷ ys)
    unfolding Outcome
    both_touch y ys e' fine' spaced =
        let m : Block = record p {
          n_bytes = p.n_bytes + (alloc.gap_size + alloc.n_bytes) + y.n_bytes;
        } in
        (
          xs ++ m ∷ ys,
          walked (y ∷ ys)
              ∙ between_lem o chunk lo alloc by v xs p upto fine e (last_block none xs) y ys e'
                  fine',
          record {
            kept = Spaced-join o chunk lo xs p.address (m ∷ ys) upto (
              omega arith,
              record {
                own = fine.own;
                magic = fine.magic;
                aligned = fine.aligned;
                large = omega (arith, fine.large);
                bounded = omega (arith, e, e', v.begins, fine'.bounded);
              },
              Spaced-lower o chunk (m.address + m.n_bytes + 1) (y.address + y.n_bytes + 1) ys
                  (omega (arith, e, e', v.begins)) spaced,
            );
            freed = λ i.
                rw (is_free-append xs (m ∷ ys) i, is_free-append xs (p ∷ y ∷ ys) i)
                  (ground (arith, e, e', v.begins, v.large));
          },
        )

outcome :
    (o : Options) (chunk lo : ℕ) (alloc : Allocation) (by : ℕ) (blocks : List Block)
    → Sound o lo alloc
    → Spaced o chunk lo blocks
    → ((i : ℕ) → taken_by alloc i ≡ true → is_free blocks i ≡ false)
    → (bs : List Block) × (free_from chunk blocks alloc by none blocks ≡ bs)
      × Restores o chunk lo blocks alloc bs
unfolding Outcome
outcome o chunk lo alloc by blocks v spaced out =
    let (xs, ys, e, upto, rest) =
      divide o chunk alloc lo blocks spaced (omega (arith, v.above)) v.begins v.large out in
    rw e (elim (left_cases o chunk alloc lo xs v.above upto) [
      | inl apart ↦ elim (right_cases o chunk alloc ys rest) [
        | inl apart' ↦ left_apart o chunk lo alloc by v xs ys apart apart'
        | inr (y, zs, e', at, fine, rest') ↦
            rw e' (left_touch o chunk lo alloc by v xs y zs apart at fine rest')
      ]
      | inr (zs, p, e', upto', fine, at) ↦ elim (right_cases o chunk alloc ys rest) [
        | inl apart' ↦
            rw (e', append_snoc zs p ys)
              (right_apart o chunk lo alloc by v zs p upto' fine at ys apart')
        | inr (y, ts, e'', at', fine', rest') ↦
            rw (e', e'', append_snoc zs p (y ∷ ts))
              (both_touch o chunk lo alloc by v zs p upto' fine at y ts at' fine' rest')
      ]
    ])

-- In a chunk of blocks that have a header's 40 bytes at least, end below 2 ^ 32, have the chunk as
-- their parent, their magic and, with guard pages, begin on a page, and that stand in the order of
-- their addresses with bytes in use between them, and for an allocation of 76 bytes at least that
-- lies with its gap above the start of the blocks and below 2 ^ 32, with guard pages begins on a
-- page, and has no byte that is free, `Chunk::free` makes exactly the bytes of the gap and of the
-- allocation free, joins them with the block that ends before them and the one that begins behind
-- them, so that the blocks stay so, and takes one off the count of the allocations.
pub free-Restores :
    (o : Options) (lo : ℕ) (c : Chunk) (alloc : Allocation) (by : ℕ)
    → Sound o lo alloc
    → Spaced o c.address lo c.blocks
    → ((i : ℕ) → taken_by alloc i ≡ true → is_free c.blocks i ≡ false)
    → Restores o c.address lo c.blocks alloc (free c alloc by).blocks
      × ((free c alloc by).n_allocations ≡ sub_uarch c.n_allocations 1)
unfolding free
free-Restores o lo c alloc by v spaced out =
    let (bs, run, restores) = outcome o c.address lo alloc by c.blocks v spaced out in
    (rw run restores, refl)
