-- ===== src/HardwareIdList/Pairs.antt =====
-- A map from ids to items, as a list of pairs in ascending order of the ids.
use zambesii.Prelude.{
  ℕ, ◌≡◌, refl, ◌∙◌, sym, List, [], ◌∷◌, ◌++◌, map, Option, none, arith, ◌==◌, ltb, if◌then◌else◌,
  map-append,
}
use zambesii.Prelude.Put.{put, put_same, put_other}
use zambesii.Prelude.Distinct.{NotIn}
use zambesii.HardwareIdList.Chain.{Above, Below, Above-NotIn, Below-NotIn}

abbrev pub Pairs : Type 0
Pairs = List (ℕ × Option ℕ)

pub put_pair : ℕ → Option ℕ → Pairs → Pairs
put_pair id p [] = (id, p) ∷ []
put_pair id p ((i, q) ∷ es) =
    if ltb id i
    then (id, p) ∷ (i, q) ∷ es
    else (if id == i then (id, p) ∷ es else (i, q) ∷ put_pair id p es)

pub drop_pair : ℕ → Pairs → Pairs
drop_pair id [] = []
drop_pair id ((i, q) ∷ es) = if id == i then es else (i, q) ∷ drop_pair id es

unfoldable pub look_up : ℕ → Pairs → Option ℕ
look_up id [] = none
look_up id ((i, q) ∷ es) = if id == i then q else look_up id es

-- The pairs of the indices `xs`
abbrev pub pairs : (ℕ → Option ℕ) → List ℕ → Pairs
pairs item xs = map (λ i. (i, item i)) xs

pub put_pair-new :
    (item : ℕ → Option ℕ) (id : ℕ) (p : Option ℕ) (ys zs : List ℕ)
    → Below id ys
    → Above id zs
    → put_pair id p (pairs item (ys ++ zs)) ≡ pairs item ys ++ (id, p) ∷ pairs item zs
unfolding put_pair
put_pair-new item id p [] [] below above = refl
put_pair-new item id p [] (b ∷ zs) below (lt, above) = ground (arith, lt)
put_pair-new item id p (a ∷ ys) zs (lt, below) above =
    ground (arith, lt, put_pair-new item id p ys zs below above)

pub put_pair-old :
    (item : ℕ → Option ℕ) (id : ℕ) (p : Option ℕ) (ys zs : List ℕ)
    → Below id ys
    → Above id zs
    → put_pair id p (pairs item (ys ++ id ∷ zs)) ≡ pairs item ys ++ (id, p) ∷ pairs item zs
unfolding put_pair
put_pair-old item id p [] zs below above = ground arith
put_pair-old item id p (a ∷ ys) zs (lt, below) above =
    ground (arith, lt, put_pair-old item id p ys zs below above)

pub drop_pair-old :
    (item : ℕ → Option ℕ) (id : ℕ) (ys zs : List ℕ)
    → Below id ys
    → drop_pair id (pairs item (ys ++ id ∷ zs)) ≡ pairs item (ys ++ zs)
unfolding drop_pair
drop_pair-old item id [] zs below = ground arith
drop_pair-old item id (a ∷ ys) zs (lt, below) =
    ground (arith, lt, drop_pair-old item id ys zs below)

pub drop_pair-none :
    (item : ℕ → Option ℕ) (id : ℕ) (xs : List ℕ)
    → NotIn id xs
    → drop_pair id (pairs item xs) ≡ pairs item xs
unfolding drop_pair
drop_pair-none item id [] away = refl
drop_pair-none item id (a ∷ xs) (ne, away) = ground (arith, ne, drop_pair-none item id xs away)

pairs-put :
    (item : ℕ → Option ℕ) (id : ℕ) (p : Option ℕ) (xs : List ℕ)
    → NotIn id xs
    → pairs (put item id p) xs ≡ pairs item xs
pairs-put item id p [] away = refl
pairs-put item id p (a ∷ xs) (ne, away) =
    rw (put_other item id a p (λ e. ne (sym e)), pairs-put item id p xs away) refl

pub pairs-with :
    (item : ℕ → Option ℕ) (id : ℕ) (p : Option ℕ) (ys zs : List ℕ)
    → Below id ys
    → Above id zs
    → pairs (put item id p) (ys ++ id ∷ zs) ≡ pairs item ys ++ (id, p) ∷ pairs item zs
pairs-with item id p ys zs below above =
    map-append (λ i. (i, put item id p i)) ys (id ∷ zs)
    ∙ rw
        (
          pairs-put item id p ys (Below-NotIn id ys below),
          pairs-put item id p zs (Above-NotIn id zs above),
          put_same item id p,
        )
        refl
