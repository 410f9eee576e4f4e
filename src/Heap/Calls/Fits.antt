-- ===== src/Heap/Calls/Fits.antt =====
-- One pass of `Heap::malloc` over the chunks, and a new chunk.
use Prim.{Unit, tt}
use zambesii.Prelude.{
  ℕ, ◌+◌, ◌%◌, ◌^◌, ◌<◌, ◌≤◌, ◌≡◌, refl, ap, ◌∙◌, List, [], ◌∷◌, ◌++◌, true, false, not, arith,
  Option, none, some, ◌⊎◌, inl, inr,
}
use zambesii.Prelude.Result.{Result, ok}
use zambesii.Heap.{Options, Chunk, Allocation, gap_requirement, malloc, sorted_insert}
use zambesii.Heap.Spaced.{Spaced}
use zambesii.Heap.Mallocs.{malloc-Outcome}
use zambesii.Heap.Calls.{first_fit, new_chunk}

-- A chunk with its magic and with its blocks in order
pub record Good (o : Options) (c : Chunk) : Type 0 where
  pub magic : c.magic_is_valid ≡ true
  pub spaced : Spaced o c.address c.address c.blocks

abbrev pub AllGood : Options → List Chunk → Type 0
AllGood o [] = Unit {0}
AllGood o (c ∷ cs) = Good o c × AllGood o cs

pub AllGood-join :
    (o : Options) (cs ds : List Chunk) → AllGood o cs → AllGood o ds → AllGood o (cs ++ ds)
AllGood-join o [] ds good good' = good'
AllGood-join o (c ∷ cs) ds (g, good) good' = (g, AllGood-join o cs ds good good')

-- One chunk of the list gives the allocation.
unfoldable pub FirstFit :
    Options → ℕ → ℕ → List Chunk → Result (Option Allocation × List Chunk) → Type 0
FirstFit o sz by cs r =
    (r ≡ ok (none, cs))
    ⊎ ((alloc : Allocation) × (cs' : List Chunk) × (r ≡ ok (some alloc, cs'))
        × AllGood o cs'
        × (alloc.n_bytes ≡ sz))

passed :
    (o : Options) (sz by : ℕ) (c : Chunk) (cs cs' : List Chunk) (a : Option Allocation)
    → c.magic_is_valid ≡ true
    → malloc o c sz by ≡ ok (none, c)
    → first_fit o sz by cs ≡ ok (a, cs')
    → first_fit o sz by (c ∷ cs) ≡ ok (a, c ∷ cs')
unfolding first_fit
passed o sz by c cs cs' a magic run rest =
    let valid : not c.magic_is_valid ≡ false = ap not magic in rw (valid, run, rest) refl

hit :
    (o : Options) (sz by : ℕ) (c c' : Chunk) (cs : List Chunk) (alloc : Allocation)
    → c.magic_is_valid ≡ true
    → malloc o c sz by ≡ ok (some alloc, c')
    → first_fit o sz by (c ∷ cs) ≡ ok (some alloc, c' ∷ cs)
unfolding first_fit
hit o sz by c c' cs alloc magic run =
    let valid : not c.magic_is_valid ≡ false = ap not magic in rw (valid, run) refl

first_fit_nil : (o : Options) (sz by : ℕ) → first_fit o sz by [] ≡ ok (none, [])
unfolding first_fit
first_fit_nil o sz by = refl

pub first_fit-Fits :
    (o : Options) (sz by : ℕ) (cs : List Chunk)
    → AllGood o cs
    → 76 ≤ sz
    → gap_requirement o sz + sz < 2 ^ 32
    → FirstFit o sz by cs (first_fit o sz by cs)
unfolding FirstFit
first_fit-Fits o sz by [] good large few = inl (first_fit_nil o sz by)
first_fit-Fits o sz by (c ∷ cs) (g, good) large few =
    elim (malloc-Outcome o c.address c sz by g.spaced large few) [
      | inl (run, small) ↦ elim (first_fit-Fits o sz by cs good large few) [
        | inl e ↦ inl (passed o sz by c cs cs none g.magic run e)
        | inr (alloc, cs', e, good', sized) ↦
            inr (
              alloc,
              c ∷ cs',
              passed o sz by c cs cs' (some alloc) g.magic run e,
              (g, good'),
              sized,
            )
      ]
      | inr (alloc, c', run, grants, sound) ↦
          let g' : Good o c' = record {
            magic = grants.magic ∙ g.magic;
            spaced = rw grants.same grants.kept;
          } in
          inr (alloc, c' ∷ cs, hit o sz by c c' cs alloc g.magic run, (g', good), grants.sized)
    ]

-- Memory for a chunk: it begins on a page, and is large enough for a header and a block.
abbrev pub GoodMemory : ℕ → ℕ → Option ℕ → Type 0
GoodMemory sizeof_chunk chunk_size none = Unit {0}
GoodMemory sizeof_chunk chunk_size (some a) =
    (a % 4096 ≡ 0) × (a + chunk_size < 2 ^ 32) × (sizeof_chunk + 4096 + 40 ≤ chunk_size)

pub new_chunk-Good :
    (o : Options) (sizeof_chunk chunk_size a : ℕ)
    → GoodMemory sizeof_chunk chunk_size (some a)
    → Good o (new_chunk o sizeof_chunk chunk_size a)
unfolding new_chunk sorted_insert
new_chunk-Good o sizeof_chunk chunk_size a (page, bounded, large) = record {
  magic = refl;
  spaced = (
    ground (arith, page, bounded, large),
    record {
      own = refl;
      magic = refl;
      aligned = ground (arith, page, bounded, large);
      large = ground (arith, page, bounded, large);
      bounded = ground (arith, page, bounded, large);
    },
    tt,
  );
}

abbrev pub Memories : ℕ → ℕ → List (Option ℕ) → Type 0
Memories sizeof_chunk chunk_size [] = Unit {0}
Memories sizeof_chunk chunk_size (m ∷ ms) =
    GoodMemory sizeof_chunk chunk_size m × Memories sizeof_chunk chunk_size ms
