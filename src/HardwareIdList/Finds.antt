-- ===== src/HardwareIdList/Finds.antt =====
-- `HardwareIdList::getItem` and `HardwareIdList::findFreeIndex` against the map.
use Prim.{tt}
use zambesii.Prelude.{
  ℕ, zero, suc, ◌+◌, ◌<◌, ◌≤◌, ◌≡◌, refl, ap, ◌∙◌, List, [], ◌∷◌, Option, none, some, Bool, true,
  false, arith, sym, Bool-cases, if◌then◌else◌, ltb, ◌||◌, dec_lt, inl, inr,
}
use zambesii.Prelude.Distinct.{last_or}
use zambesii.Prelude.Result.{ok, success, general}
use zambesii.HardwareIdList.{
  IdList, n_nodes, is_above, is_below, get_item, free_from, find_free_index,
}
use zambesii.HardwareIdList.Chain.{
  Below, Holds, Ascending, has, NotIn-has, Above-NotIn, Below-NotIn, Above-trans, Below-trans,
  last_or-Below,
}
use zambesii.HardwareIdList.Pairs.{pairs, look_up}
use zambesii.HardwareIdList.Spec.{has_pair, unused}
use zambesii.HardwareIdList.Removes.{in_array_lem}

look_up-pairs :
    (item : ℕ → Option ℕ) (id : ℕ) (xs : List ℕ)
    → look_up id (pairs item xs) ≡ (if has id xs then item id else none)
unfolding look_up
look_up-pairs item id [] = refl
look_up-pairs item id (a ∷ xs) = ground (arith, look_up-pairs item id xs)

has_pair-pairs :
    (item : ℕ → Option ℕ) (id : ℕ) (xs : List ℕ) → has_pair id (pairs item xs) ≡ has id xs
unfolding has_pair
has_pair-pairs item id [] = refl
has_pair-pairs item id (a ∷ xs) = ground (arith, has_pair-pairs item id xs)

Ascending-last : (a : ℕ) (xs : List ℕ) → Ascending (a ∷ xs) → Below (suc (last_or a xs)) (a ∷ xs)
Ascending-last a [] h = (omega arith, tt)
Ascending-last a (b ∷ xs) (above, h) =
    let (lt, below) = Ascending-last b xs h in (omega (arith, lt, above.0), (lt, below))

unused-same :
    (s : IdList) (xs : List ℕ) (i n : ℕ)
    → Holds s xs
    → i + n ≤ n_nodes s
    → free_from s i n ≡ unused (pairs s.nodes.item xs) i n
unfolding free_from unused
unused-same s xs i zero v h = refl
unused-same s xs i (suc n) v h =
    rw
      (
        v.flagged i (omega (arith, h)),
        has_pair-pairs s.nodes.item i xs,
        unused-same s xs (suc i) n v (omega (arith, h)),
      )
      refl

pub find_free_index_lem :
    (s : IdList) (xs : List ℕ)
    → Holds s xs
    → find_free_index s ≡ (elim (unused (pairs s.nodes.item xs) 0 (n_nodes s)) [
      | none ↦ (general, none)
      | some i ↦ (success, some i)
    ])
unfolding find_free_index
find_free_index_lem s xs v =
    ap (λ o. elim o [ none ↦ (general, none) | some i ↦ (success, some i) ])
      (unused-same s xs 0 (n_nodes s) v (omega arith))

-- The test of `getItem` on the ends of a chain
outside : IdList → ℕ → Bool
outside s id = is_above id s.max_index || is_below id s.first_valid_index

outside-ends :
    (s : IdList) (id a : ℕ) (xs : List ℕ)
    → Holds s (a ∷ xs)
    → outside s id ≡ (ltb (last_or a xs) id || ltb id a)
unfolding outside
outside-ends s id a xs v = rw (v.max_last, v.first_first) refl

outside-has :
    (id a : ℕ) (xs : List ℕ)
    → Ascending (a ∷ xs)
    → (ltb (last_or a xs) id || ltb id a) ≡ true
    → has id (a ∷ xs) ≡ false
outside-has id a xs (above, h) out = elim (dec_lt id a) [
  | yes lt ↦ NotIn-has id (a ∷ xs) (Above-NotIn id (a ∷ xs) (lt, Above-trans id a xs lt above))
  | no ge ↦
      let behind : last_or a xs < id = ground (arith, out, ge) in
      NotIn-has id (a ∷ xs) (
        Below-NotIn id (a ∷ xs)
          (Below-trans (suc (last_or a xs)) id (a ∷ xs) behind (Ascending-last a xs (above, h))))
]

get_item-in :
    (s : IdList) (id a : ℕ) (xs : List ℕ)
    → Holds s (a ∷ xs)
    → get_item s id ≡ ok (if has id (a ∷ xs) then s.nodes.item id else none)
unfolding get_item outside
get_item-in s id a xs v =
    let ends : (is_above id s.max_index || is_below id s.first_valid_index)
        ≡ (ltb (last_or a xs) id || ltb id a) =
      outside-ends s id a xs v in
    elim (Bool-cases (ltb (last_or a xs) id || ltb id a)) [
      | inl e ↦ rw (ends, e, outside-has id a xs v.ascending e) refl
      | inr e ↦
          let lt : id < n_nodes s = ground (arith, e, last_or-Below (n_nodes s) a xs v.inside) in
          rw (ends, e, in_array_lem s id lt, v.flagged id lt) refl
    ]

pub get_item_lem :
    (s : IdList) (id : ℕ) (xs : List ℕ)
    → Holds s xs
    → get_item s id ≡ ok (look_up id (pairs s.nodes.item xs))
unfolding get_item look_up
get_item_lem s id [] v = rw v.max_last refl
get_item_lem s id (a ∷ xs) v =
    get_item-in s id a xs v ∙ ap ok (sym (look_up-pairs s.nodes.item id (a ∷ xs)))
