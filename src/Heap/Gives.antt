-- ===== src/Heap/Gives.antt =====
-- `Heap::Chunk::free`: where an allocation goes back among the blocks.
use Prim.{Unit}
use zambesii.Prelude.{
  ℕ, ◌+◌, ◌-◌, ◌^◌, ◌<◌, ◌≤◌, ◌≡◌, refl, ap, ◌∙◌, List, [], ◌∷◌, ◌++◌, true, false, arith, ◌&&◌,
  ◌||◌, ltb, ◌==◌, if◌then◌else◌, Option, none, some, add_uarch, sub_uarch,
}
use zambesii.Heap.{
  Options, Block, Allocation, misaligned, sorted_insert, remove, start, end, total, block_end,
  prepend_and_coalesce, insert_new, prev_end, is_none, free_from,
}
use zambesii.Heap.Spaced.{
  Fine, Spaced, Upto, Upto-le, Upto-higher, Spaced-lower, add_small, sub_small, remove-middle,
  sorted_insert-middle,
}

-- The bounds of an allocation that is given back, without its wrap-around
abbrev pub from : Allocation → ℕ
from alloc = alloc.address - alloc.gap_size

abbrev pub till : Allocation → ℕ
till alloc = alloc.address + alloc.n_bytes

pub record Sound (o : Options) (lo : ℕ) (alloc : Allocation) : Type 0 where
  pub begins : alloc.gap_size ≤ alloc.address
  pub above : lo ≤ from alloc
  pub large : 76 ≤ alloc.n_bytes
  pub bounded : till alloc < 2 ^ 32
  pub aligned : misaligned o (from alloc) ≡ false

-- A block with these bytes
abbrev pub block_at : ℕ → ℕ → ℕ → ℕ → Block
block_at chunk by address n = record {
  address = address;
  parent = chunk;
  freed_by = by;
  n_bytes = n;
  magic_is_valid = true;
}

-- The block before ends before the address, if there is one.
abbrev pub EndsBefore : ℕ → Option Block → Type 0
EndsBefore a none = Unit {0}
EndsBefore a (some p) = (p.address + p.n_bytes < a) × (40 ≤ p.n_bytes)

abbrev pub last_block : Option Block → List Block → Option Block
last_block prev [] = prev
last_block prev (b ∷ bs) = last_block (some b) bs

module _ (o : Options) (chunk lo : ℕ) (alloc : Allocation) (by : ℕ) (v : Sound o lo alloc) where
  pub start_lem : start alloc ≡ from alloc
  start_lem = sub_small alloc.address alloc.gap_size v.begins (omega (arith, v.bounded))

  pub end_lem : end alloc ≡ till alloc
  end_lem = add_small alloc.address alloc.n_bytes v.bounded

  pub total_lem : total alloc ≡ alloc.gap_size + alloc.n_bytes
  total_lem = add_small alloc.gap_size alloc.n_bytes (omega (arith, v.begins, v.bounded))

  -- The walk over the blocks that end before the allocation.
  pub walk_lem :
      (blocks : List Block) (prev : Option Block) (low : ℕ) (xs zs : List Block)
      → Upto o chunk low xs (from alloc)
      → EndsBefore (from alloc) prev
      → (free_from chunk blocks alloc by prev (xs ++ zs)
          ≡ free_from chunk blocks alloc by (last_block prev xs) zs)
        × EndsBefore (from alloc) (last_block prev xs)
  unfolding free_from
  walk_lem blocks prev low [] zs upto ends = (refl, ends)
  walk_lem blocks prev low (b ∷ xs) zs (le, fine, upto) ends =
      let stop : b.address + b.n_bytes + 1 ≤ from alloc =
        Upto-le o chunk (b.address + b.n_bytes + 1) xs (from alloc) upto in
      let (same, ends') =
        walk_lem blocks (some b) (b.address + b.n_bytes + 1) xs zs upto
          (omega (arith, stop), fine.large) in
      let not_before : (end alloc == b.address) ≡ false =
        ap (λ e. e == b.address) end_lem ∙ ground (arith, stop) in
      let not_after : (block_end b == start alloc) ≡ false =
        rw (start_lem, add_small b.address b.n_bytes fine.bounded) (ground (arith, stop)) in
      let on : ltb alloc.address b.address ≡ false = ground (arith, stop) in
      (rw (not_before, not_after, on) (passes prev same), ends')
    where
      passes :
          {r t : List Block} (prev : Option Block)
          → r ≡ t
          → (if (is_none prev && false) || (ltb (prev_end prev) alloc.address && false)
              then insert_new chunk blocks alloc by
              else r)
            ≡ t
      passes prev e = ground (arith, e)

  -- The bytes that are given back, and the header that is written for them.
  abbrev pub bytes : ℕ
  bytes = alloc.gap_size + alloc.n_bytes

  abbrev pub new_block : ℕ → Block
  new_block n = block_at chunk by (from alloc) n

  insert_lem :
      (xs ys : List Block)
      → Upto o chunk lo xs (from alloc)
      → Spaced o chunk (till alloc + 1) ys
      → insert_new chunk (xs ++ ys) alloc by ≡ xs ++ new_block bytes ∷ ys
  insert_lem xs ys upto spaced =
      rw (start_lem, total_lem)
        (sorted_insert-middle o chunk lo xs (new_block bytes) ys upto
          (Spaced-lower o chunk (from alloc) (till alloc + 1) ys (omega arith) spaced))

  -- The block before does not touch the allocation.
  prev_apart :
      (prev : Option Block) (a : ℕ)
      → EndsBefore (from alloc) prev
      → alloc.address < a
      → ((is_none prev && ltb alloc.address a)
          || (ltb (prev_end prev) alloc.address && ltb alloc.address a))
        ≡ true
  prev_apart none a ends lt = ground (arith, lt)
  prev_apart (some p) a (ends, large) lt =
      let e : block_end p ≡ p.address + p.n_bytes =
        add_small p.address p.n_bytes (omega (arith, ends, v.bounded)) in
      let f : sub_uarch (p.address + p.n_bytes) 1 ≡ p.address + p.n_bytes - 1 =
        sub_small (p.address + p.n_bytes) 1 (omega (arith, large))
          (omega (arith, ends, v.bounded)) in
      rw (e, f) (ground (arith, lt, ends, large))

  -- No block touches the allocation.
  pub apart_lem :
      (prev : Option Block) (xs ys : List Block)
      → Upto o chunk lo xs (from alloc)
      → Spaced o chunk (till alloc + 1) ys
      → EndsBefore (from alloc) prev
      → free_from chunk (xs ++ ys) alloc by prev ys ≡ xs ++ new_block bytes ∷ ys
  unfolding free_from
  apart_lem prev xs [] upto spaced ends = insert_lem xs [] upto spaced
  apart_lem prev xs (y ∷ ys) upto (le, fine, spaced) ends =
      let not_before : (end alloc == y.address) ≡ false =
        ap (λ e. e == y.address) end_lem ∙ ground (arith, le) in
      let not_after : (block_end y == start alloc) ≡ false =
        rw (start_lem, add_small y.address y.n_bytes fine.bounded) (ground (arith, le)) in
      rw (not_before, not_after, prev_apart prev y.address ends (omega (arith, le, v.large)))
        (insert_lem xs (y ∷ ys) upto (le, fine, spaced))

  prepend_lem :
      (prev : Option Block) (xs : List Block) (y : Block) (ys : List Block)
      → Upto o chunk lo xs (from alloc)
      → y.address ≡ till alloc
      → Fine o chunk y
      → Spaced o chunk (y.address + y.n_bytes + 1) ys
      → EndsBefore (from alloc) prev
      → prepend_and_coalesce chunk (xs ++ y ∷ ys) y prev alloc by
        ≡ xs ++ new_block (bytes + y.n_bytes) ∷ ys
  unfolding prepend_and_coalesce
  prepend_lem prev xs y ys upto e fine spaced ends = at prev ends
    where
      written : add_uarch (total alloc) y.n_bytes ≡ bytes + y.n_bytes
      written =
          ap (λ t. add_uarch t y.n_bytes) total_lem
          ∙ add_small bytes y.n_bytes (omega (arith, e, fine.bounded, v.begins))

      removed : remove y.address (xs ++ y ∷ ys) ≡ xs ++ ys
      removed =
          remove-middle o chunk lo xs y ys
            (Upto-higher o chunk lo xs (from alloc) y.address (omega (arith, e)) upto)

      inserted :
          sorted_insert (new_block (bytes + y.n_bytes)) (xs ++ ys)
          ≡ xs ++ new_block (bytes + y.n_bytes) ∷ ys
      inserted = sorted_insert-middle o chunk lo xs (new_block (bytes + y.n_bytes)) ys upto (
          Spaced-lower o chunk (from alloc) (y.address + y.n_bytes + 1) ys (omega (arith, e))
            spaced)

      at :
          (prev : Option Block)
          → EndsBefore (from alloc) prev
          → prepend_and_coalesce chunk (xs ++ y ∷ ys) y prev alloc by
            ≡ xs ++ new_block (bytes + y.n_bytes) ∷ ys
      at none ends = rw (start_lem, written, removed) inserted
      at (some p) (lt, large) =
          let other : (block_end p == from alloc) ≡ false =
            rw (add_small p.address p.n_bytes (omega (arith, lt, v.bounded)))
              (ground (arith, lt)) in
          rw (start_lem, other, written, removed) inserted

  -- The allocation ends where a block begins.
  pub before_lem :
      (prev : Option Block) (xs : List Block) (y : Block) (ys : List Block)
      → Upto o chunk lo xs (from alloc)
      → y.address ≡ till alloc
      → Fine o chunk y
      → Spaced o chunk (y.address + y.n_bytes + 1) ys
      → EndsBefore (from alloc) prev
      → free_from chunk (xs ++ y ∷ ys) alloc by prev (y ∷ ys)
        ≡ xs ++ new_block (bytes + y.n_bytes) ∷ ys
  unfolding free_from
  before_lem prev xs y ys upto e fine spaced ends =
      let touches : (end alloc == y.address) ≡ true =
        ap (λ t. t == y.address) end_lem ∙ ground (arith, e) in
      rw touches (prepend_lem prev xs y ys upto e fine spaced ends)
