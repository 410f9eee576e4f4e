-- ===== src/SlamCache/Objects.antt =====
-- The objects of a page of a `SlamCache`, and the state that links the free ones.
use Prim.{Unit, tt}
use mathlib.Core.Path.{subst}
use native.Mathlib.Nat.{suc-mul, zero-mul, le-mul_of_pos_right, div-mul-le_self, lt-div-mul-add}
use zambesii.Prelude.{
  ◌*◌, ◌/◌, ltb, false, ℕ, zero, suc, ◌+◌, ◌-◌, ◌^◌, ◌<◌, ◌≤◌, ◌≡◌, refl, sym, ap, ◌∙◌, List, [],
  ◌∷◌, Option, none, some, arith, add_uarch,
}
use zambesii.Prelude.Put.{put, put_same, put_other}
use zambesii.Prelude.Distinct.{NotIn, Distinct}
use zambesii.DoubleLinks.{first, Nexts}
use zambesii.SlamCache.{SlamCache, new, break_up}

-- `n` objects of the size from an address on
abbrev pub objects : ℕ → ℕ → ℕ → List ℕ
objects a size zero = []
objects a size (suc n) = a ∷ objects (a + size) size n

-- They and one more end at `hi` at most.
abbrev pub Fits : ℕ → ℕ → ℕ → ℕ → Type 0
Fits a size zero hi = a + size ≤ hi
Fits a size (suc n) hi = Fits (a + size) size n hi

-- The free objects are linked, each once, and no free page is left over.
pub record Holds (c : SlamCache) (xs : List ℕ) : Type 0 where
  pub nexts : Nexts c.next xs none
  pub distinct : Distinct xs
  pub first_first : c.partial_list ≡ first none xs
  pub no_pages : c.free_list ≡ none

-- A page at `p` has room for the objects of the cache.
pub record Roomy (c : SlamCache) (p : ℕ) : Type 0 where
  pub positive : 0 < c.s_objectize
  pub some_blocks : 0 < c.per_page_blocks
  pub few_blocks : c.per_page_blocks < 2 ^ 32
  pub fits : Fits p c.s_objectize (c.per_page_blocks - 1) (p + 4096)
  pub page_end : p + 4096 < 2 ^ 32

Fits-le : (a size n hi : ℕ) → Fits a size n hi → a + size ≤ hi
Fits-le a size zero hi fits = fits
Fits-le a size (suc n) hi fits = omega (arith, Fits-le (a + size) size n hi fits)

objects-NotIn : (j a size n : ℕ) → j < a → NotIn j (objects a size n)
objects-NotIn j a size zero h = tt
objects-NotIn j a size (suc n) h =
    (omega (arith, h), objects-NotIn j (a + size) size n (omega (arith, h)))

pub objects-Distinct : (a size n : ℕ) → 0 < size → Distinct (objects a size n)
objects-Distinct a size zero h = tt
objects-Distinct a size (suc n) h =
    (objects-NotIn a (a + size) size n (omega (arith, h)), objects-Distinct (a + size) size n h)

last_round : (next : ℕ → Option ℕ) (p size : ℕ) → break_up next p size zero ≡ put next p none
unfolding break_up
last_round next p size = refl

one_round :
    (next : ℕ → Option ℕ) (p size n : ℕ)
    → p + size < 2 ^ 32
    → break_up next p size (suc n) ≡ break_up (put next p (some (p + size))) (p + size) size n
unfolding break_up
one_round next p size n few =
    let e : add_uarch p size ≡ p + size = omega (arith, few) in
    ap (λ t. break_up (put next p (some t)) t size n) e

-- The loop links the objects and leaves what is before them.
pub break_lem :
    (next : ℕ → Option ℕ) (p size n hi : ℕ)
    → Fits p size n hi
    → hi < 2 ^ 32
    → 0 < size
    → Nexts (break_up next p size n) (objects p size (suc n)) none
      × ((j : ℕ) → j < p → break_up next p size n j ≡ next j)
break_lem next p size zero hi fits few positive =
    rw (last_round next p size)
      ((put_same next p none, tt), λ j h. put_other next p j none (omega (arith, h)))
break_lem next p size (suc n) hi fits few positive =
    let q : ℕ = p + size in
    let inside : p + size < 2 ^ 32 = omega (arith, Fits-le q size n hi fits, few) in
    let (links, low) = break_lem (put next p (some q)) q size n hi fits few positive in
    subst (λ f. Nexts f (objects p size (suc (suc n))) none × ((j : ℕ) → j < p → f j ≡ next j))
      (sym (one_round next p size n inside))
      (
        (low p (omega (arith, positive)) ∙ put_same next p (some q), links),
        λ j h. low j (omega (arith, h)) ∙ put_other next p j (some q) (omega (arith, h)),
      )

-- Each of the objects lies between the two addresses.
abbrev pub Between : ℕ → ℕ → ℕ → List ℕ → Type 0
Between lo hi size [] = Unit {0}
Between lo hi size (a ∷ xs) = (lo ≤ a) × (a + size ≤ hi) × Between lo hi size xs

pub objects-Between :
    (lo a size n hi : ℕ) → lo ≤ a → Fits a size n hi → Between lo hi size (objects a size (suc n))
objects-Between lo a size zero hi le fits = (le, fits, tt)
objects-Between lo a size (suc n) hi le fits = (
  le,
  Fits-le a size (suc n) hi fits,
  objects-Between lo (a + size) size n hi (omega (arith, le)) fits,
)

Fits-mul : (a size n hi : ℕ) → a + n * size + size ≤ hi → Fits a size n hi
Fits-mul a size zero hi h = omega (arith, h)
Fits-mul a size (suc n) hi h = Fits-mul (a + size) size n hi (omega (arith, h, suc-mul n size))

blocks-Roomy :
    (size n p : ℕ)
    → 4 ≤ size
    → n * size ≤ 4096
    → 4096 < n * size + size
    → size ≤ 4096
    → (0 < n) × (n < 2 ^ 32) × Fits p size (n - 1) (p + 4096)
blocks-Roomy size zero p large fits tight small =
    absurd (omega (arith, tight, small, zero-mul size))
blocks-Roomy size (suc m) p large fits tight small =
    let e : suc m - 1 ≡ m = omega arith in
    (
      omega arith,
      omega (arith, fits, le-mul_of_pos_right {m = size} (suc m) (omega (arith, large))),
      rw e (Fits-mul p size m (p + 4096) (omega (arith, fits, suc-mul m size))),
    )

-- A cache that is set up for objects of a page at most has room for them in every page.
new-Roomy : (size p : ℕ) → 4 ≤ size → size ≤ 4096 → p + 4096 < 2 ^ 32 → Roomy (new size) p
unfolding new
new-Roomy size p large small few =
    let e : ltb size 4 ≡ false = ground (arith, large) in
    let (some_blocks, few_blocks, fits) =
      blocks-Roomy size (4096 / size) p large (div-mul-le_self 4096 size)
        (lt-div-mul-add {a = 4096} (omega (arith, large))) small in
    rw e (record {
      positive = omega (arith, large);
      some_blocks = some_blocks;
      few_blocks = few_blocks;
      fits = fits;
      page_end = few;
    })
