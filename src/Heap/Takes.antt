-- ===== src/Heap/Takes.antt =====
-- `Heap::Chunk::malloc`: what is taken out of the blocks of a chunk.
use Prim.{Unit}
use zambesii.Prelude.{
  ℕ, ◌+◌, ◌-◌, ◌^◌, ◌<◌, ◌≤◌, ◌≡◌, refl, List, [], ◌∷◌, ◌++◌, Bool, true, false, not, arith, ◌&&◌,
  leb, ltb, Option, some, add_uarch,
}
use zambesii.Prelude.Result.{Result, ok}
use zambesii.Heap.{Options, Block, Chunk, Allocation, misaligned, gap_requirement, give_block}
use zambesii.Heap.Spaced.{
  Spaced, within, is_free, Upto-le, Upto-higher, Spaced-split, Spaced-join, Spaced-lower, Upto-free,
  Spaced-free, remove-middle, sorted_insert-middle, is_free-append, add_small, sub_small,
}

-- The byte is in the gap of the allocation or in the allocation.
abbrev pub taken_by : Allocation → ℕ → Bool
taken_by alloc i = leb alloc.address (i + alloc.gap_size) && ltb i (alloc.address + alloc.n_bytes)

-- What `malloc` returns from a chunk with the blocks `bs`, and the blocks that are left.
pub record Grants (o : Options) (lo : ℕ) (c : Chunk) (sz by : ℕ) (alloc : Allocation) (c' : Chunk)
    : Type 0 where
  pub sized : alloc.n_bytes ≡ sz
  pub gapped : gap_requirement o sz ≤ alloc.gap_size
  pub begins : alloc.gap_size ≤ alloc.address
  pub above : lo ≤ alloc.address - alloc.gap_size
  pub aligned : misaligned o (alloc.address - alloc.gap_size) ≡ false
  pub bounded : alloc.address + alloc.n_bytes < 2 ^ 32
  pub own : alloc.parent ≡ c.address
  pub counted : c'.n_allocations ≡ add_uarch c.n_allocations 1
  pub same : c'.address ≡ c.address
  pub magic : c'.magic_is_valid ≡ c.magic_is_valid
  pub kept : Spaced o c.address lo c'.blocks
  pub was_free : (i : ℕ) → taken_by alloc i ≡ true → is_free c.blocks i ≡ true
  pub left : (i : ℕ) → is_free c'.blocks i ≡ (is_free c.blocks i && not (taken_by alloc i))

-- A block between two parts of a list, and the bytes of the others.
around :
    (o : Options) (chunk lo : ℕ) (xs : List Block) (b : Block) (ys : List Block) (i : ℕ)
    → Spaced o chunk lo (xs ++ b ∷ ys)
    → within b i ≡ true
    → (is_free xs i ≡ false) × (is_free ys i ≡ false)
around o chunk lo xs b ys i v h =
    let (upto, fine, rest) = Spaced-split o chunk lo xs b ys v in
    (
      Upto-free o chunk lo xs b.address i upto (ground (arith, h)),
      Spaced-free o chunk (b.address + b.n_bytes + 1) ys i rest (ground (arith, h)),
    )

add_sub : (a b : ℕ) → a + b - b ≡ a
add_sub a b = omega arith

-- The whole block is given away.
whole-Grants :
    (o : Options) (lo : ℕ) (c : Chunk) (xs : List Block) (b : Block) (ys : List Block)
    (sz by all : ℕ)
    → c.blocks ≡ xs ++ b ∷ ys
    → Spaced o c.address lo (xs ++ b ∷ ys)
    → gap_requirement o sz ≤ all
    → all + sz ≡ b.n_bytes
    → Grants o lo c sz by
        (record {
          address = b.address + all;
          parent = c.address;
          allocated_by = by;
          n_bytes = sz;
          gap_size = all;
          magic_is_valid = true;
        })
        (record c { blocks = xs ++ ys; n_allocations = add_uarch c.n_allocations 1 })
whole-Grants o lo c xs b ys sz by all split v le e =
    let (upto, fine, rest) = Spaced-split o c.address lo xs b ys v in
    record {
      sized = refl;
      gapped = le;
      begins = omega arith;
      above = omega (arith, Upto-le o c.address lo xs b.address upto);
      aligned = rw (add_sub b.address all) fine.aligned;
      bounded = omega (arith, fine.bounded, e);
      own = refl;
      counted = refl;
      same = refl;
      magic = refl;
      kept =
          Spaced-join o c.address lo xs b.address ys upto
            (Spaced-lower o c.address b.address (b.address + b.n_bytes + 1) ys (omega arith) rest);
      was_free = λ i h. rw (split, is_free-append xs (b ∷ ys) i) (ground (arith, h, e));
      left = λ i.
          rw (split, is_free-append xs (b ∷ ys) i, is_free-append xs ys i)
            (ground (arith, e, around o c.address lo xs b ys i v));
    }

-- What is left of a block from which `size` bytes are taken
abbrev rest_of : ℕ → Block → ℕ → Block
rest_of chunk b size = record {
  address = b.address + size;
  parent = chunk;
  freed_by = b.freed_by;
  n_bytes = b.n_bytes - size;
  magic_is_valid = true;
}

-- The front of a block is given away.
part-Grants :
    (o : Options) (lo : ℕ) (c : Chunk) (xs : List Block) (b : Block) (ys : List Block)
    (sz by gap : ℕ)
    → c.blocks ≡ xs ++ b ∷ ys
    → Spaced o c.address lo (xs ++ b ∷ ys)
    → gap_requirement o sz ≤ gap
    → gap + sz + 40 < b.n_bytes
    → misaligned o (b.address + (gap + sz)) ≡ false
    → Grants o lo c sz by
        (record {
          address = b.address + gap;
          parent = c.address;
          allocated_by = by;
          n_bytes = sz;
          gap_size = gap;
          magic_is_valid = true;
        })
        (record c {
          blocks = xs ++ rest_of c.address b (gap + sz) ∷ ys;
          n_allocations = add_uarch c.n_allocations 1;
        })
part-Grants o lo c xs b ys sz by gap split v le large aligned =
    let (upto, fine, rest) = Spaced-split o c.address lo xs b ys v in
    let left : Block = rest_of c.address b (gap + sz) in
    record {
      sized = refl;
      gapped = le;
      begins = omega arith;
      above = omega (arith, Upto-le o c.address lo xs b.address upto);
      aligned = rw (add_sub b.address gap) fine.aligned;
      bounded = omega (arith, fine.bounded, large);
      own = refl;
      counted = refl;
      same = refl;
      magic = refl;
      kept =
          Spaced-join o c.address lo xs left.address (left ∷ ys)
            (Upto-higher o c.address lo xs b.address left.address (omega arith) upto)
            (
              omega arith,
              record {
                own = refl;
                magic = refl;
                aligned = aligned;
                large = omega (arith, large);
                bounded = omega (arith, large, fine.bounded);
              },
              Spaced-lower o c.address (left.address + left.n_bytes + 1) (b.address + b.n_bytes + 1)
                  ys (omega (arith, large)) rest,
            );
      was_free = λ i h. rw (split, is_free-append xs (b ∷ ys) i) (ground (arith, h, large));
      left = λ i.
          rw (split, is_free-append xs (b ∷ ys) i, is_free-append xs (left ∷ ys) i)
            (ground (arith, large, around o c.address lo xs b ys i v));
    }

aligned-after :
    (o : Options) (address sz : ℕ)
    → misaligned o address ≡ false
    → gap_requirement o sz + sz < 2 ^ 32
    → misaligned o (address + (gap_requirement o sz + sz)) ≡ false
aligned-after o address sz h few = ground (arith, h, few)

-- A run that returns an allocation out of the blocks.
unfoldable pub Finds : Options → ℕ → Chunk → ℕ → ℕ → Result (Option Allocation × Chunk) → Type 0
Finds o lo c sz by r =
    (alloc : Allocation) × (c' : Chunk) × (r ≡ ok (some alloc, c')) × Grants o lo c sz by alloc c'

pub give_whole :
    (o : Options) (lo : ℕ) (c : Chunk) (xs : List Block) (b : Block) (ys : List Block) (sz by : ℕ)
    → c.blocks ≡ xs ++ b ∷ ys
    → Spaced o c.address lo (xs ++ b ∷ ys)
    → gap_requirement o sz + sz ≤ b.n_bytes
    → b.n_bytes ≤ gap_requirement o sz + sz + 40
    → Finds o lo c sz by (give_block o c (gap_requirement o sz) sz by b)
unfolding give_block Finds
give_whole o lo c xs b ys sz by split v fits small =
    let gap : ℕ = gap_requirement o sz in
    let (upto, fine, rest) = Spaced-split o c.address lo xs b ys v in
    let few : b.n_bytes < 2 ^ 32 = omega (arith, fine.bounded) in
    let all : ℕ = gap + (b.n_bytes - (gap + sz)) in
    let e : all + sz ≡ b.n_bytes = omega (arith, fits) in
    let test : leb (b.n_bytes - 40) (gap + sz) ≡ true = ground (arith, small) in
    (
      _,
      _,
      rw
          (
            add_small gap sz (omega (arith, few, fits)),
            sub_small b.n_bytes 40 fine.large few,
            test,
            sub_small b.n_bytes (gap + sz) fits few,
            add_small gap (b.n_bytes - (gap + sz)) (omega (arith, few, fits)),
            add_small b.address all (omega (arith, e, fine.bounded)),
            split,
            remove-middle o c.address lo xs b ys upto,
          )
          refl,
      whole-Grants o lo c xs b ys sz by all split v (omega arith) e,
    )

pub give_part :
    (o : Options) (lo : ℕ) (c : Chunk) (xs : List Block) (b : Block) (ys : List Block) (sz by : ℕ)
    → c.blocks ≡ xs ++ b ∷ ys
    → Spaced o c.address lo (xs ++ b ∷ ys)
    → gap_requirement o sz + sz + 40 < b.n_bytes
    → Finds o lo c sz by (give_block o c (gap_requirement o sz) sz by b)
unfolding give_block Finds
give_part o lo c xs b ys sz by split v large =
    let gap : ℕ = gap_requirement o sz in
    let (upto, fine, rest) = Spaced-split o c.address lo xs b ys v in
    let few : b.n_bytes < 2 ^ 32 = omega (arith, fine.bounded) in
    let test : leb (b.n_bytes - 40) (gap + sz) ≡ false = ground (arith, large) in
    let fit : misaligned o (b.address + (gap + sz)) ≡ false =
      aligned-after o b.address sz fine.aligned (omega (arith, few, large)) in
    let left : Block = rest_of c.address b (gap + sz) in
    let after : Spaced o c.address left.address ys =
      Spaced-lower o c.address left.address (b.address + b.n_bytes + 1) ys (omega (arith, large))
        rest in
    let bytes : b.n_bytes - gap - sz ≡ b.n_bytes - (gap + sz) = omega arith in
    (
      _,
      _,
      rw
          (
            add_small gap sz (omega (arith, few, large)),
            sub_small b.n_bytes 40 fine.large few,
            test,
            add_small b.address (gap + sz) (omega (arith, large, fine.bounded)),
            fit,
            add_small b.address gap (omega (arith, large, fine.bounded)),
            sub_small b.n_bytes gap (omega (arith, large)) few,
            sub_small (b.n_bytes - gap) sz (omega (arith, large)) (omega (arith, few)),
            bytes,
            split,
            remove-middle o c.address lo xs b ys upto,
            sorted_insert-middle o c.address lo xs left ys
                (Upto-higher o c.address lo xs b.address left.address (omega arith) upto) after,
          )
          refl,
      part-Grants o lo c xs b ys sz by gap split v (omega arith) large fit,
    )

-- None of the blocks has room.
abbrev pub TooSmall : ℕ → List Block → Type 0
TooSmall n [] = Unit {0}
TooSmall n (b ∷ bs) = (b.n_bytes < n) × TooSmall n bs
