-- ===== src/HardwareIdList/Growth.antt =====
-- The array of a `HardwareIdList` after it is resized.
use Prim.{tt}
use zambesii.Prelude.{
  ℕ, suc, ◌<◌, ◌≤◌, ◌≡◌, refl, sym, ◌∙◌, List, [], ◌∷◌, none, some, true, false, arith,
  Option-cases, inl, inr, dec_lt,
}
use zambesii.DoubleLinks.{Nexts}
use zambesii.HardwareIdList.{IdList, Nodes, n_nodes, copy, is_above}
use zambesii.HardwareIdList.Chain.{Holds, Below, Below-trans, Below-NotIn, NotIn-has}
use zambesii.HardwareIdList.Pairs.{pairs}

-- The list with an array of `id + 1` nodes, before it gets the new index.
abbrev pub larger : IdList → Nodes → ℕ → IdList
larger s fresh id = record s { nodes = copy s fresh; max_allocated_index = some id }

-- No flag is set in the memory of the `n` nodes.
unfoldable pub Clear : Nodes → ℕ → Type 0
Clear nodes n = (i : ℕ) → i < n → nodes.valid i ≡ false

pub above_allocated :
    (s : IdList) (id : ℕ) → n_nodes s ≤ id → is_above id s.max_allocated_index ≡ true
above_allocated s id h = elim (Option-cases s.max_allocated_index) [
  | inl e ↦ ground (arith, e)
  | inr (m, e) ↦ ground (arith, e, h)
]

pub within_allocated :
    (s : IdList) (id : ℕ) → id < n_nodes s → is_above id s.max_allocated_index ≡ false
within_allocated s id h = elim (Option-cases s.max_allocated_index) [
  | inl e ↦ ground (arith, e, h)
  | inr (m, e) ↦ ground (arith, e, h)
]

copy-old :
    (s : IdList) (fresh : Nodes) (i : ℕ)
    → i < n_nodes s
    → ((copy s fresh).next i ≡ s.nodes.next i)
      × ((copy s fresh).item i ≡ s.nodes.item i)
      × ((copy s fresh).valid i ≡ s.nodes.valid i)
copy-old s fresh i h = elim (Option-cases s.max_allocated_index) [
  | inl e ↦ ground (arith, e, h)
  | inr (m, e) ↦ ground (arith, e, h)
]

copy-fresh :
    (s : IdList) (fresh : Nodes) (i : ℕ)
    → n_nodes s ≤ i
    → ((copy s fresh).item i ≡ fresh.item i) × ((copy s fresh).valid i ≡ fresh.valid i)
copy-fresh s fresh i h = elim (Option-cases s.max_allocated_index) [
  | inl e ↦ ground (arith, e, h)
  | inr (m, e) ↦ ground (arith, e, h)
]

copy-Nexts :
    (s : IdList) (fresh : Nodes) (xs : List ℕ)
    → Below (n_nodes s) xs
    → Nexts s.nodes.next xs none
    → Nexts (copy s fresh).next xs none
copy-Nexts s fresh [] inside links = tt
copy-Nexts s fresh (a ∷ xs) (lt, inside) (e, links) =
    ((copy-old s fresh a lt).0 ∙ e, copy-Nexts s fresh xs inside links)

pub copy-pairs :
    (s : IdList) (fresh : Nodes) (xs : List ℕ)
    → Below (n_nodes s) xs
    → pairs (copy s fresh).item xs ≡ pairs s.nodes.item xs
copy-pairs s fresh [] inside = refl
copy-pairs s fresh (a ∷ xs) (lt, inside) =
    rw ((copy-old s fresh a lt).1, copy-pairs s fresh xs inside) refl

pub larger-Holds :
    (s : IdList) (fresh : Nodes) (id : ℕ) (xs : List ℕ)
    → Holds s xs
    → n_nodes s ≤ id
    → Clear fresh (suc id)
    → Holds (larger s fresh id) xs
unfolding Clear
larger-Holds s fresh id xs v h clear = record {
  nexts = copy-Nexts s fresh xs v.inside v.nexts;
  ascending = v.ascending;
  inside = Below-trans (n_nodes s) (suc id) xs (omega (arith, h)) v.inside;
  first_first = v.first_first;
  max_last = v.max_last;
  flagged = λ i lt. elim (dec_lt i (n_nodes s)) [
    | yes in_old ↦ (copy-old s fresh i in_old).2 ∙ v.flagged i in_old
    | no ge ↦
        (copy-fresh s fresh i (omega (arith, ge))).1
        ∙ clear i lt
        ∙ sym (
            NotIn-has i xs
              (Below-NotIn i xs (Below-trans (n_nodes s) i xs (omega (arith, ge)) v.inside)))
  ];
}
