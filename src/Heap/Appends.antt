-- ===== src/Heap/Appends.antt =====
-- `Heap::Chunk::free` of an allocation that begins where a block ends.
use zambesii.Prelude.{
  ℕ, ◌+◌, ◌≡◌, refl, ap, ◌∙◌, List, [], ◌∷◌, ◌++◌, true, false, arith, ◌==◌, Option, add_uarch,
}
use zambesii.Heap.{
  Options, Block, Allocation, start, end, total, block_end, append_and_coalesce, coalesce,
  free_from,
}
use zambesii.Heap.Spaced.{Fine, Spaced, Upto, add_small}
use zambesii.Heap.Links.{set_n_bytes-middle, remove-after, next_item-last, next_item-middle}
use zambesii.Heap.Gives.{from, till, Sound, start_lem, end_lem, total_lem, bytes}

module _ (o : Options) (chunk lo : ℕ) (alloc : Allocation) (by : ℕ) (v : Sound o lo alloc) where
  -- The allocation begins where the block `p` ends.
  module _ (xs : List Block) (p : Block) (upto : Upto o chunk lo xs p.address)
      (fine : Fine o chunk p) (e : p.address + p.n_bytes ≡ from alloc) where
    abbrev pub longer : ℕ → Block
    longer n = record p { n_bytes = n }

    grows : add_uarch p.n_bytes (total alloc) ≡ p.n_bytes + (bytes o chunk lo alloc by v)
    grows =
        ap (add_uarch p.n_bytes) (total_lem o chunk lo alloc by v)
        ∙ add_small p.n_bytes (bytes o chunk lo alloc by v) (omega (arith, e, v.begins, v.bounded))

    new_end : add_uarch p.address (p.n_bytes + (bytes o chunk lo alloc by v)) ≡ till alloc
    new_end =
        add_small p.address (p.n_bytes + (bytes o chunk lo alloc by v))
          (omega (arith, e, v.begins, v.bounded))
        ∙ omega (arith, e, v.begins)

    appends :
        (prev : Option Block) (ys : List Block)
        → free_from chunk (xs ++ p ∷ ys) alloc by prev (p ∷ ys)
          ≡ append_and_coalesce (xs ++ p ∷ ys) p alloc
    unfolding free_from
    appends prev ys =
        let not_before : (end alloc == p.address) ≡ false =
          ap (λ t. t == p.address) (end_lem o chunk lo alloc by v) ∙ ground (arith, e, v.large) in
        let after : (block_end p == start alloc) ≡ true =
          rw (start_lem o chunk lo alloc by v, add_small p.address p.n_bytes fine.bounded)
            (ground (arith, e)) in
        rw (not_before, after) refl

    pub after_lem :
        (prev : Option Block) (ys : List Block)
        → Spaced o chunk (till alloc + 1) ys
        → free_from chunk (xs ++ p ∷ ys) alloc by prev (p ∷ ys)
          ≡ xs ++ longer (p.n_bytes + (bytes o chunk lo alloc by v)) ∷ ys
    unfolding append_and_coalesce coalesce
    after_lem prev [] spaced =
        appends prev []
        ∙ rw
            (
              grows,
              set_n_bytes-middle o chunk lo xs p (p.n_bytes + (bytes o chunk lo alloc by v)) []
                  upto,
              next_item-last o chunk lo xs (longer (p.n_bytes + (bytes o chunk lo alloc by v)))
                  upto,
            )
            refl
    after_lem prev (y ∷ ys) (le, fine', rest) =
        let apart : (till alloc == y.address) ≡ false = ground (arith, le) in
        appends prev (y ∷ ys)
        ∙ rw
            (
              grows,
              set_n_bytes-middle o chunk lo xs p (p.n_bytes + (bytes o chunk lo alloc by v))
                  (y ∷ ys) upto,
              next_item-middle o chunk lo xs (longer (p.n_bytes + (bytes o chunk lo alloc by v))) y
                  ys upto,
              new_end,
              apart,
            )
            refl

    pub between_lem :
        (prev : Option Block) (y : Block) (ys : List Block)
        → y.address ≡ till alloc
        → Fine o chunk y
        → free_from chunk (xs ++ p ∷ y ∷ ys) alloc by prev (p ∷ y ∷ ys)
          ≡ xs ++ longer (p.n_bytes + (bytes o chunk lo alloc by v) + y.n_bytes) ∷ ys
    unfolding append_and_coalesce coalesce
    between_lem prev y ys e' fine' =
        let n : ℕ = p.n_bytes + (bytes o chunk lo alloc by v) in
        let touches : (till alloc == y.address) ≡ true = ground (arith, e') in
        let merged : add_uarch n y.n_bytes ≡ n + y.n_bytes =
          add_small n y.n_bytes (omega (arith, e, e', v.begins, fine'.bounded)) in
        appends prev (y ∷ ys)
        ∙ rw
            (
              grows,
              set_n_bytes-middle o chunk lo xs p n (y ∷ ys) upto,
              next_item-middle o chunk lo xs (longer n) y ys upto,
              new_end,
              touches,
              merged,
              set_n_bytes-middle o chunk lo xs (longer n) (n + y.n_bytes) (y ∷ ys) upto,
              remove-after o chunk lo xs (longer (n + y.n_bytes)) y ys upto
                  (omega (arith, e, e', v.begins, v.large)),
            )
            refl
