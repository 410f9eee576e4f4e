-- ===== src/Heap/Divides.antt =====
-- The blocks of a chunk before an allocation that is given back, and behind it.
use Prim.{tt}
use zambesii.Prelude.{
  ℕ, ◌+◌, ◌≤◌, ◌≡◌, refl, ap, List, [], ◌∷◌, ◌++◌, true, false, arith, dec_le, ℕ_discrete, ◌⊎◌, inl,
  inr,
}
use zambesii.Heap.{Options, Block, Allocation}
use zambesii.Heap.Spaced.{Fine, Spaced, Upto, is_free, Upto-le}
use zambesii.Heap.Takes.{taken_by}
use zambesii.Heap.Gives.{from, till}

module _ (o : Options) (chunk : ℕ) (alloc : Allocation) where
  -- The blocks that end before the allocation or at it, and the others.
  pub divide :
      (lo : ℕ) (blocks : List Block)
      → Spaced o chunk lo blocks
      → lo ≤ from alloc + 1
      → alloc.gap_size ≤ alloc.address
      → 76 ≤ alloc.n_bytes
      → ((i : ℕ) → taken_by alloc i ≡ true → is_free blocks i ≡ false)
      → (xs ys : List Block) × (blocks ≡ xs ++ ys)
        × Upto o chunk lo xs (from alloc + 1)
        × Spaced o chunk (till alloc) ys
  divide lo [] v le begins large out = ([], [], refl, le, tt)
  divide lo (b ∷ bs) (lo_le, fine, v) le begins large out = elim (dec_le (till alloc) b.address) [
    | yes behind ↦ ([], b ∷ bs, refl, le, (behind, fine, v))
    | no ahead ↦ elim (dec_le (b.address + b.n_bytes) (from alloc)) [
      | yes ends ↦
          let (xs, ys, e, upto, rest) =
            divide (b.address + b.n_bytes + 1) bs v (omega (arith, ends)) begins large
              (λ i h. ground (arith, out i h)) in
          (b ∷ xs, ys, ap (λ zs. b ∷ zs) e, (lo_le, fine, upto), rest)
      | no overlaps ↦ elim (dec_le b.address (from alloc)) [
        | yes first ↦ absurd (ground (arith, out (from alloc), first, overlaps, begins, large))
        | no later ↦ absurd (ground (arith, out b.address, later, ahead, begins, fine.large))
      ]
    ]
  ]

  pub left_cases :
      (lo : ℕ) (xs : List Block)
      → lo ≤ from alloc
      → Upto o chunk lo xs (from alloc + 1)
      → Upto o chunk lo xs (from alloc)
        ⊎ ((zs : List Block) × (p : Block) × (xs ≡ zs ++ p ∷ [])
            × Upto o chunk lo zs p.address
            × Fine o chunk p
            × (p.address + p.n_bytes ≡ from alloc))
  left_cases lo [] h upto = inl h
  left_cases lo (b ∷ xs) h (le, fine, upto) =
      elim (dec_le (b.address + b.n_bytes + 1) (from alloc)) [
        | yes before ↦ elim (left_cases (b.address + b.n_bytes + 1) xs before upto) [
          | inl upto' ↦ inl (le, fine, upto')
          | inr (zs, p, e, upto', fine', rest) ↦
              inr (b ∷ zs, p, ap (λ ts. b ∷ ts) e, (le, fine, upto'), fine', rest)
        ]
        | no touches ↦ at xs upto (omega (arith, touches))
      ]
    where
      at :
          (xs : List Block)
          → Upto o chunk (b.address + b.n_bytes + 1) xs (from alloc + 1)
          → from alloc ≤ b.address + b.n_bytes
          → Upto o chunk lo (b ∷ xs) (from alloc)
            ⊎ ((zs : List Block) × (p : Block) × (b ∷ xs ≡ zs ++ p ∷ [])
                × Upto o chunk lo zs p.address
                × Fine o chunk p
                × (p.address + p.n_bytes ≡ from alloc))
      at [] last touches = inr ([], b, refl, le, fine, omega (arith, last, touches))
      at (c ∷ xs) (le', fine', upto') touches = absurd (
          ground (
            arith,
            touches,
            le',
            fine'.large,
            Upto-le o chunk (c.address + c.n_bytes + 1) xs (from alloc + 1) upto',
          ))

  pub right_cases :
      (ys : List Block)
      → Spaced o chunk (till alloc) ys
      → Spaced o chunk (till alloc + 1) ys
        ⊎ ((y : Block) × (zs : List Block) × (ys ≡ y ∷ zs)
            × (y.address ≡ till alloc)
            × Fine o chunk y
            × Spaced o chunk (y.address + y.n_bytes + 1) zs)
  right_cases [] v = inl tt
  right_cases (y ∷ ys) (le, fine, v) = elim (ℕ_discrete y.address (till alloc)) [
    | yes e ↦ inr (y, ys, refl, e, fine, v)
    | no ne ↦ inl (omega (arith, ne, le), fine, v)
  ]
