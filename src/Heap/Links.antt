-- ===== src/Heap/Links.antt =====
-- Writes to one block of a list, at its address.
use zambesii.Prelude.{ℕ, ◌+◌, ◌<◌, ◌≡◌, refl, List, [], ◌∷◌, ◌++◌, arith, none, some}
use zambesii.Heap.{Options, Block, remove, next_item, set_n_bytes}
use zambesii.Heap.Spaced.{Upto, Upto-le}

-- The addresses before a block are less than its own.
before :
    (o : Options) (chunk lo : ℕ) (a : Block) (xs : List Block) (hi : ℕ)
    → Upto o chunk lo (a ∷ xs) hi
    → a.address < hi
before o chunk lo a xs hi (le, fine, v) =
    omega (arith, Upto-le o chunk (a.address + a.n_bytes + 1) xs hi v)

module _ (o : Options) (chunk : ℕ) where
  pub set_n_bytes-middle :
      (lo : ℕ) (xs : List Block) (p : Block) (n : ℕ) (ys : List Block)
      → Upto o chunk lo xs p.address
      → set_n_bytes p.address n (xs ++ p ∷ ys) ≡ xs ++ record p { n_bytes = n } ∷ ys
  unfolding set_n_bytes
  set_n_bytes-middle lo [] p n ys v = ground arith
  set_n_bytes-middle lo (a ∷ xs) p n ys v = ground (
    arith,
    before o chunk lo a xs p.address v,
    set_n_bytes-middle (a.address + a.n_bytes + 1) xs p n ys v.2,
  )

  pub remove-after :
      (lo : ℕ) (xs : List Block) (p y : Block) (ys : List Block)
      → Upto o chunk lo xs p.address
      → p.address < y.address
      → remove y.address (xs ++ p ∷ y ∷ ys) ≡ xs ++ p ∷ ys
  unfolding remove
  remove-after lo [] p y ys v lt = ground (arith, lt)
  remove-after lo (a ∷ xs) p y ys v lt = ground (
    arith,
    before o chunk lo a xs p.address v,
    lt,
    remove-after (a.address + a.n_bytes + 1) xs p y ys v.2 lt,
  )

  pub next_item-last :
      (lo : ℕ) (xs : List Block) (p : Block)
      → Upto o chunk lo xs p.address
      → next_item p.address (xs ++ p ∷ []) ≡ none
  unfolding next_item
  next_item-last lo [] p v = refl
  next_item-last lo (a ∷ []) p v = ground (arith, before o chunk lo a [] p.address v)
  next_item-last lo (a ∷ c ∷ xs) p v = ground (
    arith,
    before o chunk lo a (c ∷ xs) p.address v,
    next_item-last (a.address + a.n_bytes + 1) (c ∷ xs) p v.2,
  )

  pub next_item-middle :
      (lo : ℕ) (xs : List Block) (p y : Block) (ys : List Block)
      → Upto o chunk lo xs p.address
      → next_item p.address (xs ++ p ∷ y ∷ ys) ≡ some y
  unfolding next_item
  next_item-middle lo [] p y ys v = ground arith
  next_item-middle lo (a ∷ []) p y ys v = ground (arith, before o chunk lo a [] p.address v)
  next_item-middle lo (a ∷ c ∷ xs) p y ys v = ground (
    arith,
    before o chunk lo a (c ∷ xs) p.address v,
    next_item-middle (a.address + a.n_bytes + 1) (c ∷ xs) p y ys v.2,
  )
