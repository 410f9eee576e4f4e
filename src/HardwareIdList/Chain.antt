-- ===== src/HardwareIdList/Chain.antt =====
-- The chain of the indices in use of a `HardwareIdList`, in ascending order.
use Prim.{Unit, tt}
use zambesii.Prelude.{
  ℕ, suc, ◌+◌, ◌<◌, ◌≤◌, ◌≡◌, refl, ap, List, [], ◌∷◌, ◌++◌, none, length, Bool, true, false, arith,
  ◌==◌, if◌then◌else◌, ◌⊎◌, inl, inr, ℕ_discrete, dec_lt,
}
use zambesii.Prelude.Distinct.{NotIn, Distinct, last_or}
use zambesii.DoubleLinks.{first, last_from, Nexts}
use zambesii.HardwareIdList.{IdList, n_nodes}

-- Each of the indices is greater than `a`.
abbrev pub Above : ℕ → List ℕ → Type 0
Above a [] = Unit {0}
Above a (b ∷ xs) = (a < b) × Above a xs

-- Each of the indices is less than `n`.
abbrev pub Below : ℕ → List ℕ → Type 0
Below n [] = Unit {0}
Below n (a ∷ xs) = (a < n) × Below n xs

abbrev pub Ascending : List ℕ → Type 0
Ascending [] = Unit {0}
Ascending (a ∷ xs) = Above a xs × Ascending xs

abbrev pub has : ℕ → List ℕ → Bool
has i [] = false
has i (a ∷ xs) = if i == a then true else has i xs

-- The indices `xs` are linked from the first to the greatest, in ascending order, inside of the
-- array, and they are the ones whose flag is set.
pub record Holds (s : IdList) (xs : List ℕ) : Type 0 where
  pub nexts : Nexts s.nodes.next xs none
  pub ascending : Ascending xs
  pub inside : Below (n_nodes s) xs
  pub first_first : s.first_valid_index ≡ first none xs
  pub max_last : s.max_index ≡ last_from none xs
  pub flagged : (i : ℕ) → i < n_nodes s → s.nodes.valid i ≡ has i xs

pub Above-NotIn : (a : ℕ) (xs : List ℕ) → Above a xs → NotIn a xs
Above-NotIn a [] h = tt
Above-NotIn a (b ∷ xs) (lt, h) = (omega (arith, lt), Above-NotIn a xs h)

pub Below-NotIn : (a : ℕ) (xs : List ℕ) → Below a xs → NotIn a xs
Below-NotIn a [] h = tt
Below-NotIn a (b ∷ xs) (lt, h) = (omega (arith, lt), Below-NotIn a xs h)

pub Ascending-Distinct : (xs : List ℕ) → Ascending xs → Distinct xs
Ascending-Distinct [] h = tt
Ascending-Distinct (a ∷ xs) (above, h) = (Above-NotIn a xs above, Ascending-Distinct xs h)

pub NotIn-has : (i : ℕ) (xs : List ℕ) → NotIn i xs → has i xs ≡ false
NotIn-has i [] away = refl
NotIn-has i (a ∷ xs) (ne, away) = ground (arith, NotIn-has i xs away)

pub Above-trans : (a b : ℕ) (xs : List ℕ) → a < b → Above b xs → Above a xs
Above-trans a b [] h above = tt
Above-trans a b (c ∷ xs) h (lt, above) = (omega (arith, lt), Above-trans a b xs h above)

pub Below-trans : (m n : ℕ) (xs : List ℕ) → m ≤ n → Below m xs → Below n xs
Below-trans m n [] h below = tt
Below-trans m n (c ∷ xs) h (lt, below) = (omega (arith, lt), Below-trans m n xs h below)

pub Below-left : (n : ℕ) (xs ys : List ℕ) → Below n (xs ++ ys) → Below n xs
Below-left n [] ys h = tt
Below-left n (a ∷ xs) ys (lt, h) = (lt, Below-left n xs ys h)

pub Below-right : (n : ℕ) (xs ys : List ℕ) → Below n (xs ++ ys) → Below n ys
Below-right n [] ys h = h
Below-right n (a ∷ xs) ys (lt, h) = Below-right n xs ys h

pub Below-join : (n : ℕ) (xs ys : List ℕ) → Below n xs → Below n ys → Below n (xs ++ ys)
Below-join n [] ys left right = right
Below-join n (a ∷ xs) ys (lt, left) right = (lt, Below-join n xs ys left right)

Above-left : (a : ℕ) (xs ys : List ℕ) → Above a (xs ++ ys) → Above a xs
Above-left a [] ys h = tt
Above-left a (b ∷ xs) ys (lt, h) = (lt, Above-left a xs ys h)

Above-join : (a : ℕ) (xs ys : List ℕ) → Above a xs → Above a ys → Above a (xs ++ ys)
Above-join a [] ys left right = right
Above-join a (b ∷ xs) ys (lt, left) right = (lt, Above-join a xs ys left right)

Above-right : (a : ℕ) (xs ys : List ℕ) → Above a (xs ++ ys) → Above a ys
Above-right a [] ys h = h
Above-right a (b ∷ xs) ys (lt, h) = Above-right a xs ys h

-- An index put between the smaller ones and the greater ones, and taken out.
pub Ascending-with :
    (ys : List ℕ) (a : ℕ) (zs : List ℕ)
    → Ascending (ys ++ zs)
    → Below a ys
    → Above a zs
    → Ascending (ys ++ a ∷ zs)
Ascending-with [] a zs h below above = (above, h)
Ascending-with (b ∷ ys) a zs (over, h) (lt, below) above = (
  Above-join b ys (a ∷ zs) (Above-left b ys zs over) (lt, Above-right b ys zs over),
  Ascending-with ys a zs h below above,
)

pub Ascending-without :
    (ys : List ℕ) (a : ℕ) (zs : List ℕ) → Ascending (ys ++ a ∷ zs) → Ascending (ys ++ zs)
Ascending-without [] a zs (above, h) = h
Ascending-without (b ∷ ys) a zs (over, h) = (
  Above-join b ys zs (Above-left b ys (a ∷ zs) over) (Above-right b ys (a ∷ zs) over).1,
  Ascending-without ys a zs h,
)

-- Where an index stands in a chain, or would stand.
unfoldable pub Splits : ℕ → List ℕ → Type 0
Splits a xs = (ys zs : List ℕ) × ((xs ≡ ys ++ zs) ⊎ (xs ≡ ys ++ a ∷ zs)) × Below a ys × Above a zs

pub find_place : (a : ℕ) (xs : List ℕ) → Ascending xs → Splits a xs
unfolding Splits
find_place a [] h = ([], [], inl refl, tt, tt)
find_place a (b ∷ xs) (above, h) = elim (ℕ_discrete a b) [
  | yes e ↦ ([], xs, inr (rw e refl), tt, rw e above)
  | no ne ↦ elim (dec_lt a b) [
    | yes lt ↦ ([], b ∷ xs, inl refl, tt, (lt, Above-trans a b xs lt above))
    | no ge ↦
        let (ys, zs, split, below, over) = find_place a xs h in
        (
          b ∷ ys,
          zs,
          elim split [ inl e ↦ inl (ap (λ ts. b ∷ ts) e) | inr e ↦ inr (ap (λ ts. b ∷ ts) e) ],
          (omega (arith, ne, ge), below),
          over,
        )
  ]
]

-- A chain is not longer than the array.
length-room :
    (a : ℕ) (xs : List ℕ) (n : ℕ)
    → Above a xs
    → Ascending xs
    → Below n xs
    → a < n
    → suc a + length xs ≤ n
length-room a [] n above h below lt = omega (arith, lt)
length-room a (b ∷ xs) n (ab, above) (over, h) (bn, below) lt =
    omega (arith, ab, length-room b xs n over h below bn)

pub length-bound : (xs : List ℕ) (n : ℕ) → Ascending xs → Below n xs → length xs ≤ n
length-bound [] n h below = omega arith
length-bound (a ∷ xs) n (above, h) (lt, below) = omega (arith, length-room a xs n above h below lt)

pub last_or-Below : (n a : ℕ) (xs : List ℕ) → Below n (a ∷ xs) → last_or a xs < n
last_or-Below n a [] (lt, h) = lt
last_or-Below n a (b ∷ xs) (lt, h) = last_or-Below n b xs h

pub last_or-Above : (n a : ℕ) (xs : List ℕ) → Above n (a ∷ xs) → n < last_or a xs
last_or-Above n a [] (lt, h) = lt
last_or-Above n a (b ∷ xs) (lt, h) = last_or-Above n b xs h
