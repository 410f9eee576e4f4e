-- ===== src/DoubleLinks.antt =====
-- Nodes with links to both sides, in a store by address, as the doubly linked lists of the kernel
-- have them. A pointer is `none` where it is NULL. Each field of the nodes is a function of the
-- address, so that a write changes one field of one node.
pub mod Relink
use Prim.{Unit, tt}
use zambesii.Prelude.{
  ℕ, ◌≡◌, ◌≢◌, refl, sym, List, [], ◌∷◌, ◌++◌, Option, none, some, ◌==◌, if◌then◌else◌,
}
use zambesii.Prelude.Put.{put, put_at, put_same, put_other}
use zambesii.Prelude.Distinct.{
  NotIn, Distinct, last_or, last, NotIn-last, NotIn-left, NotIn-right, Distinct-left,
  Distinct-right, Distinct-middle, Distinct-without, Distinct-with, Distinct-last,
}

-- The address that a list goes on with: its own first one, or `r` behind it.
abbrev pub first : Option ℕ → List ℕ → Option ℕ
first r [] = r
first r (a ∷ xs) = some a

abbrev pub last_from : Option ℕ → List ℕ → Option ℕ
last_from l [] = l
last_from l (a ∷ xs) = some (last_or a xs)

-- The links forward go through these addresses and then to `r`.
abbrev pub Nexts : (ℕ → Option ℕ) → List ℕ → Option ℕ → Type 0
Nexts next [] r = Unit {0}
Nexts next (a ∷ xs) r = (next a ≡ first r xs) × Nexts next xs r

-- The links backward go through these addresses and then to `l`.
abbrev pub Prevs : (ℕ → Option ℕ) → Option ℕ → List ℕ → Type 0
Prevs prev l [] = Unit {0}
Prevs prev l (a ∷ xs) = (prev a ≡ l) × Prevs prev (some a) xs

-- A list with these addresses, its two ends and its links.
pub record Linked (next prev : ℕ → Option ℕ) (head tail : Option ℕ) (xs : List ℕ) : Type 0 where
  pub nexts : Nexts next xs none
  pub prevs : Prevs prev none xs
  pub distinct : Distinct xs
  pub head_first : head ≡ first none xs
  pub tail_last : tail ≡ last_from none xs

pub Nexts-put :
    (next : ℕ → Option ℕ) (a : ℕ) (v : Option ℕ) (xs : List ℕ) (r : Option ℕ)
    → NotIn a xs
    → Nexts next xs r
    → Nexts (put next a v) xs r
Nexts-put next a v [] r away links = tt
Nexts-put next a v (b ∷ xs) r (ne, away) (e, links) =
    (rw (put_other next a b v (λ same. ne (sym same))) e, Nexts-put next a v xs r away links)

pub Prevs-put :
    (prev : ℕ → Option ℕ) (a : ℕ) (v l : Option ℕ) (xs : List ℕ)
    → NotIn a xs
    → Prevs prev l xs
    → Prevs (put prev a v) l xs
Prevs-put prev a v l [] away links = tt
Prevs-put prev a v l (b ∷ xs) (ne, away) (e, links) =
    (rw (put_other prev a b v (λ same. ne (sym same))) e, Prevs-put prev a v (some b) xs away links)

pub first-append : (r : Option ℕ) (xs ys : List ℕ) → first r (xs ++ ys) ≡ first (first r ys) xs
first-append r [] ys = refl
first-append r (a ∷ xs) ys = refl

pub Nexts-left :
    (next : ℕ → Option ℕ) (xs ys : List ℕ) (r : Option ℕ)
    → Nexts next (xs ++ ys) r
    → Nexts next xs (first r ys)
Nexts-left next [] ys r links = tt
Nexts-left next (a ∷ xs) ys r (e, links) =
    (rw (← first-append r xs ys) e, Nexts-left next xs ys r links)

pub Nexts-right :
    (next : ℕ → Option ℕ) (xs ys : List ℕ) (r : Option ℕ)
    → Nexts next (xs ++ ys) r
    → Nexts next ys r
Nexts-right next [] ys r links = links
Nexts-right next (a ∷ xs) ys r (e, links) = Nexts-right next xs ys r links

pub Nexts-join :
    (next : ℕ → Option ℕ) (xs ys : List ℕ) (r : Option ℕ)
    → Nexts next xs (first r ys)
    → Nexts next ys r
    → Nexts next (xs ++ ys) r
Nexts-join next [] ys r left right = right
Nexts-join next (a ∷ xs) ys r (e, left) right =
    (rw (first-append r xs ys) e, Nexts-join next xs ys r left right)

pub Prevs-left :
    (prev : ℕ → Option ℕ) (l : Option ℕ) (xs ys : List ℕ)
    → Prevs prev l (xs ++ ys)
    → Prevs prev l xs
Prevs-left prev l [] ys links = tt
Prevs-left prev l (a ∷ xs) ys (e, links) = (e, Prevs-left prev (some a) xs ys links)

pub Prevs-right :
    (prev : ℕ → Option ℕ) (l : Option ℕ) (xs ys : List ℕ)
    → Prevs prev l (xs ++ ys)
    → Prevs prev (last_from l xs) ys
Prevs-right prev l [] ys links = links
Prevs-right prev l (a ∷ []) ys (e, links) = links
Prevs-right prev l (a ∷ b ∷ xs) ys (e, links) = Prevs-right prev (some a) (b ∷ xs) ys links

pub Prevs-join :
    (prev : ℕ → Option ℕ) (l : Option ℕ) (xs ys : List ℕ)
    → Prevs prev l xs
    → Prevs prev (last_from l xs) ys
    → Prevs prev l (xs ++ ys)
Prevs-join prev l [] ys left right = right
Prevs-join prev l (a ∷ []) ys (e, left) right = (e, right)
Prevs-join prev l (a ∷ b ∷ xs) ys (e, left) right =
    (e, Prevs-join prev (some a) (b ∷ xs) ys left right)

-- A write of the link of the last node.
pub Nexts-relast :
    (next : ℕ → Option ℕ) (a : ℕ) (xs : List ℕ) (r v : Option ℕ)
    → Distinct (a ∷ xs)
    → Nexts next (a ∷ xs) r
    → Nexts (put next (last_or a xs) v) (a ∷ xs) v
Nexts-relast next a [] r v d links = (put_same next a v, tt)
Nexts-relast next a (b ∷ xs) r v (away, d) (e, links) = (
  rw (put_other next (last_or b xs) a v (NotIn-last a b xs away)) e,
  Nexts-relast next b xs r v d links,
)
