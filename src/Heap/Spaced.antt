-- ===== src/Heap/Spaced.antt =====
-- The blocks of a chunk in the order of their addresses, with bytes in use between them.
use Prim.{Unit, tt}
use zambesii.Prelude.{
  ℕ, ◌+◌, ◌-◌, add_uarch, sub_uarch, ◌^◌, ◌<◌, ◌≤◌, ◌≡◌, refl, List, [], ◌∷◌, ◌++◌, Bool, true,
  false, arith, ◌&&◌, ◌||◌, leb, ltb,
}
use zambesii.Heap.{Options, Block, sorted_insert, remove, misaligned}

-- A block of the chunk at `chunk`
pub record Fine (o : Options) (chunk : ℕ) (b : Block) : Type 0 where
  pub own : b.parent ≡ chunk
  pub magic : b.magic_is_valid ≡ true
  pub aligned : misaligned o b.address ≡ false
  pub large : 40 ≤ b.n_bytes
  pub bounded : b.address + b.n_bytes < 2 ^ 32

-- The blocks go up from `lo`, and there is a byte between two of them at least.
abbrev pub Spaced : Options → ℕ → ℕ → List Block → Type 0
Spaced o chunk lo [] = Unit {0}
Spaced o chunk lo (b ∷ bs) =
    (lo ≤ b.address) × Fine o chunk b × Spaced o chunk (b.address + b.n_bytes + 1) bs

-- The same, with a byte at least between the last one and `hi`.
abbrev pub Upto : Options → ℕ → ℕ → List Block → ℕ → Type 0
Upto o chunk lo [] hi = lo ≤ hi
Upto o chunk lo (b ∷ bs) hi =
    (lo ≤ b.address) × Fine o chunk b × Upto o chunk (b.address + b.n_bytes + 1) bs hi

abbrev pub within : Block → ℕ → Bool
within b i = leb b.address i && ltb i (b.address + b.n_bytes)

-- The byte is in one of the blocks.
abbrev pub is_free : List Block → ℕ → Bool
is_free [] i = false
is_free (b ∷ bs) i = within b i || is_free bs i

module _ (o : Options) (chunk : ℕ) where
  pub Upto-le : (lo : ℕ) (xs : List Block) (hi : ℕ) → Upto o chunk lo xs hi → lo ≤ hi
  Upto-le lo [] hi v = v
  Upto-le lo (b ∷ xs) hi (le, fine, v) =
      omega (arith, le, Upto-le (b.address + b.n_bytes + 1) xs hi v)

  pub Spaced-split :
      (lo : ℕ) (xs : List Block) (b : Block) (ys : List Block)
      → Spaced o chunk lo (xs ++ b ∷ ys)
      → Upto o chunk lo xs b.address
        × Fine o chunk b
        × Spaced o chunk (b.address + b.n_bytes + 1) ys
  Spaced-split lo [] b ys (le, fine, v) = (le, fine, v)
  Spaced-split lo (a ∷ xs) b ys (le, fine, v) =
      let (upto, middle, rest) = Spaced-split (a.address + a.n_bytes + 1) xs b ys v in
      ((le, fine, upto), middle, rest)

  pub Spaced-join :
      (lo : ℕ) (xs : List Block) (hi : ℕ) (ys : List Block)
      → Upto o chunk lo xs hi
      → Spaced o chunk hi ys
      → Spaced o chunk lo (xs ++ ys)
  Spaced-join lo [] hi [] le v = tt
  Spaced-join lo [] hi (b ∷ ys) le (le', fine, v) = (omega (arith, le, le'), fine, v)
  Spaced-join lo (a ∷ xs) hi ys (le, fine, upto) v =
      (le, fine, Spaced-join (a.address + a.n_bytes + 1) xs hi ys upto v)

  pub Spaced-lower :
      (lo lo' : ℕ) (ys : List Block) → lo ≤ lo' → Spaced o chunk lo' ys → Spaced o chunk lo ys
  Spaced-lower lo lo' [] h v = tt
  Spaced-lower lo lo' (b ∷ ys) h (le, fine, v) = (omega (arith, le, h), fine, v)

  pub Upto-higher :
      (lo : ℕ) (xs : List Block) (hi hi' : ℕ)
      → hi ≤ hi'
      → Upto o chunk lo xs hi
      → Upto o chunk lo xs hi'
  Upto-higher lo [] hi hi' h v = omega (arith, v, h)
  Upto-higher lo (b ∷ xs) hi hi' h (le, fine, v) =
      (le, fine, Upto-higher (b.address + b.n_bytes + 1) xs hi hi' h v)

  -- No byte from the bound on is in the blocks before it.
  pub Upto-free :
      (lo : ℕ) (xs : List Block) (hi i : ℕ) → Upto o chunk lo xs hi → hi ≤ i → is_free xs i ≡ false
  Upto-free lo [] hi i v h = refl
  Upto-free lo (b ∷ xs) hi i (le, fine, v) h = ground (
    arith,
    h,
    Upto-le (b.address + b.n_bytes + 1) xs hi v,
    Upto-free (b.address + b.n_bytes + 1) xs hi i v h,
  )

  pub Spaced-free :
      (lo : ℕ) (ys : List Block) (i : ℕ) → Spaced o chunk lo ys → i < lo → is_free ys i ≡ false
  Spaced-free lo [] i v h = refl
  Spaced-free lo (b ∷ ys) i (le, fine, v) h =
      ground (arith, le, h, Spaced-free (b.address + b.n_bytes + 1) ys i v (omega (arith, le, h)))

  pub remove-middle :
      (lo : ℕ) (xs : List Block) (b : Block) (ys : List Block)
      → Upto o chunk lo xs b.address
      → remove b.address (xs ++ b ∷ ys) ≡ xs ++ ys
  unfolding remove
  remove-middle lo [] b ys v = ground arith
  remove-middle lo (a ∷ xs) b ys (le, fine, v) = ground (
    arith,
    Upto-le (a.address + a.n_bytes + 1) xs b.address v,
    remove-middle (a.address + a.n_bytes + 1) xs b ys v,
  )

  pub sorted_insert-middle :
      (lo : ℕ) (xs : List Block) (b : Block) (ys : List Block)
      → Upto o chunk lo xs b.address
      → Spaced o chunk b.address ys
      → sorted_insert b (xs ++ ys) ≡ xs ++ b ∷ ys
  unfolding sorted_insert
  sorted_insert-middle lo [] b [] v w = refl
  sorted_insert-middle lo [] b (c ∷ ys) v (le, fine, w) = ground (arith, le)
  sorted_insert-middle lo (a ∷ xs) b ys (le, fine, v) w = ground (
    arith,
    Upto-le (a.address + a.n_bytes + 1) xs b.address v,
    sorted_insert-middle (a.address + a.n_bytes + 1) xs b ys v w,
  )

pub is_free-append :
    (xs ys : List Block) (i : ℕ) → is_free (xs ++ ys) i ≡ (is_free xs i || is_free ys i)
is_free-append [] ys i = refl
is_free-append (b ∷ xs) ys i = ground (arith, is_free-append xs ys i)

pub add_small : (a b : ℕ) → a + b < 2 ^ 32 → add_uarch a b ≡ a + b
add_small a b h = omega (arith, h)

pub sub_small : (a b : ℕ) → b ≤ a → a < 2 ^ 32 → sub_uarch a b ≡ a - b
sub_small a b h h' = omega (arith, h, h')
