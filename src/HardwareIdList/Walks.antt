-- ===== src/HardwareIdList/Walks.antt =====
-- The iterator of a `HardwareIdList`: `begin`, `end`, `++` and `getNextItem`; and the flags of nodes
-- that were never written.
use zambesii.Prelude.{
  ℕ, zero, suc, ◌+◌, ◌<◌, ◌≤◌, ◌≡◌, refl, ap, List, [], ◌∷◌, Option, none, some, true, length,
  arith,
}
use zambesii.Prelude.Put.{put}
use zambesii.Prelude.Result.{Result, ok, fault, no_rounds, success, general, ◌>>=◌}
use zambesii.DoubleLinks.{Nexts}
use zambesii.HardwareIdList.{
  IdList, Nodes, new, n_nodes, get_next_item, add_item, grow, link_behind, link_only, set_item,
  find_free_index, free_from,
}
use zambesii.HardwareIdList.Chain.{Below, Holds, length-bound}
use zambesii.HardwareIdList.Pairs.{Pairs, pairs}
use zambesii.HardwareIdList.Removes.{in_array_lem}
use zambesii.HardwareIdList.Kept.{having, set_item-having}

-- The cursors and the items that a loop from `begin` to `end` visits, from the cursor of the last one,
-- with at most `fuel` calls of `getNextItem`; the end is reached with an item that is NULL.
pub iterate : IdList → ℕ → Option ℕ → Result (List (Option ℕ × ℕ))
iterate s zero cursor = fault no_rounds
iterate s (suc fuel) cursor = get_next_item s cursor >>= λ (p, c). elim p [
  | none ↦ ok []
  | some item ↦ iterate s fuel c >>= λ rest. ok ((c, item) ∷ rest)
]

-- The pairs before the first one whose item is NULL
pub visited : Pairs → List (Option ℕ × ℕ)
visited [] = []
visited ((i, none) ∷ es) = []
visited ((i, some item) ∷ es) = (some i, item) ∷ visited es

next_first :
    (s : IdList) (a : ℕ) (xs : List ℕ)
    → Holds s (a ∷ xs)
    → get_next_item s none ≡ ok (s.nodes.item a, some a)
unfolding get_next_item
next_first s a xs v = rw (v.first_first, in_array_lem s a v.inside.0) refl

next_later :
    (s : IdList) (a b : ℕ)
    → a < n_nodes s
    → s.nodes.next a ≡ some b
    → b < n_nodes s
    → get_next_item s (some a) ≡ ok (s.nodes.item b, some b)
unfolding get_next_item
next_later s a b h e h' = rw (in_array_lem s a h, e, in_array_lem s b h') refl

next_end :
    (s : IdList) (a : ℕ)
    → a < n_nodes s
    → s.nodes.next a ≡ none
    → get_next_item s (some a) ≡ ok (none, some a)
unfolding get_next_item
next_end s a h e = rw (in_array_lem s a h, e) refl

-- The item that a call found, and what is visited after it.
module _ (s : IdList) where
  onward :
      (fuel : ℕ) (cursor : Option ℕ) (b : ℕ) (xs : List ℕ)
      → get_next_item s cursor ≡ ok (s.nodes.item b, some b)
      → iterate s fuel (some b) ≡ ok (visited (pairs s.nodes.item xs))
      → iterate s (suc fuel) cursor ≡ ok (visited (pairs s.nodes.item (b ∷ xs)))
  unfolding iterate visited
  onward fuel cursor b xs e rest = rw e (at (s.nodes.item b))
    where
      at :
          (p : Option ℕ)
          → (elim p [
            | none ↦ ok []
            | some item ↦ iterate s fuel (some b) >>= λ rest. ok ((some b, item) ∷ rest)
          ])
            ≡ ok (visited ((b, p) ∷ pairs s.nodes.item xs))
      at none = refl
      at (some item) = rw rest refl

  iterate-rest :
      (fuel a : ℕ) (xs : List ℕ)
      → Nexts s.nodes.next (a ∷ xs) none
      → Below (n_nodes s) (a ∷ xs)
      → length xs < fuel
      → iterate s fuel (some a) ≡ ok (visited (pairs s.nodes.item xs))
  unfolding iterate visited
  iterate-rest zero a xs links inside h = absurd (omega arith)
  iterate-rest (suc fuel) a [] links inside h = rw (next_end s a inside.0 links.0) refl
  iterate-rest (suc fuel) a (b ∷ xs) links inside h =
      onward fuel (some a) b xs (next_later s a b inside.0 links.0 inside.1.0)
        (iterate-rest fuel b xs links.1 inside.1 (omega (arith, h)))

-- A loop from `begin` to `end` over a list that links its indices in ascending order ends, after one
-- call of `getNextItem` more than there are nodes at most, touches no node outside of the array, and
-- visits the ids in use with their items, in ascending order, up to the first item that is NULL.
pub iterate-Visits :
    (s : IdList) (xs : List ℕ)
    → Holds s xs
    → iterate s (suc (n_nodes s)) none ≡ ok (visited (pairs s.nodes.item xs))
unfolding iterate visited get_next_item
iterate-Visits s [] v = rw v.first_first refl
iterate-Visits s (a ∷ xs) v = onward s (n_nodes s) none a xs (next_first s a xs v) (
    iterate-rest s (n_nodes s) a xs v.nexts v.inside
      (length-bound (a ∷ xs) (n_nodes s) v.ascending v.inside))

none_free :
    (s : IdList) (i n : ℕ)
    → ((j : ℕ) → i ≤ j → j < i + n → s.nodes.valid j ≡ true)
    → free_from s i n ≡ none
unfolding free_from
none_free s i zero taken = refl
none_free s i (suc n) taken =
    rw (taken i (omega arith) (omega arith))
      (none_free s (suc i) n (λ j lo hi. taken j (omega (arith, lo)) (omega (arith, hi))))

-- The first `addItem` of a new list takes the memory that is allocated as it is: when the flags of
-- all the nodes before the id happen to be set, `findFreeIndex` finds no free index afterwards,
-- though only one id has an item.
pub add_item-Unclean :
    (nodes fresh : Nodes) (id : ℕ) (item : Option ℕ)
    → ((i : ℕ) → i < id → fresh.valid i ≡ true)
    → (s : IdList) × (add_item (new nodes) (some fresh) id item ≡ ok (success, s))
      × (find_free_index s ≡ (general, none))
unfolding add_item new grow link_behind link_only set_item find_free_index
add_item-Unclean nodes fresh id item taken =
    let s : IdList = record (new fresh) {
      max_allocated_index = some id;
      first_valid_index = some id;
      max_index = some id;
      nodes = record fresh { next = put fresh.next id none };
    } in
    let written : set_item s id item ≡ ok (having s id item) =
      set_item-having s id item (omega arith) in
    (
      having s id item,
      ap (λ r. r >>= λ s'. ok (success, s')) written,
      ap (λ o. elim o [ none ↦ (general, none) | some i ↦ (success, some i) ])
          (none_free (having s id item) 0 (suc id) (λ j lo hi. ground (arith, taken j, hi))),
    )
