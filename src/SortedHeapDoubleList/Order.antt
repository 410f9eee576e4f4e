-- ===== src/SortedHeapDoubleList/Order.antt =====
-- When `SortedHeapDoubleList::addItem` keeps the list sorted, and what is taken from its head.
use Prim.{Unit, tt}
use zambesii.Prelude.{
  ℕ, ◌≡◌, refl, List, [], ◌∷◌, ◌++◌, some, ◌≤◌, ◌<◌, ◌+◌, ◌^◌, ◌↔◌, ◌⊎◌, inl, inr, arith, dec_le,
  length,
}
use zambesii.Prelude.Distinct.{NotIn}
use zambesii.Prelude.Result.{ok, success}
use zambesii.HeapDoubleList.Unlink.{Holds, without, unlink-Holds}
use zambesii.HeapDoubleList.Ends.{pop_from_head_lem}
use zambesii.SortedHeapDoubleList.{SortedList, add_item, pop_from_head}
use zambesii.SortedHeapDoubleList.Places.{Entry, entries, last_criterion, placed, add_item-Places}

-- The criteria go up.
abbrev pub Sorted : List Entry → Type 0
Sorted [] = Unit {0}
Sorted (x ∷ []) = Unit {0}
Sorted (x ∷ y ∷ ts) = (x.0 ≤ y.0) × Sorted (y ∷ ts)

-- The list is empty or has one entry, or the criterion is not greater than the second one or not
-- less than the last one.
abbrev pub InPlace : ℕ → List Entry → Type 0
InPlace c [] = Unit {0}
InPlace c (x ∷ []) = Unit {0}
InPlace c (x ∷ y ∷ ts) = (c ≤ y.0) ⊎ (last_criterion y ts ≤ c)

Sorted-snoc :
    (new x : Entry) (ts : List Entry)
    → Sorted (x ∷ ts)
    → last_criterion x ts ≤ new.0
    → Sorted (x ∷ ts ++ new ∷ [])
Sorted-snoc new x [] s h = (h, tt)
Sorted-snoc new x (y ∷ ts) (le, s) h = (le, Sorted-snoc new y ts s h)

Sorted-last : (x : Entry) (ts : List Entry) → Sorted (x ∷ ts) → x.0 ≤ last_criterion x ts
Sorted-last x [] s = omega arith
Sorted-last x (y ∷ ts) (le, s) = omega (arith, Sorted-last y ts s, le)

placed-Sorted :
    (new : Entry) (ts : List Entry) → Sorted ts → Sorted (placed new ts) ↔ InPlace new.0 ts
placed-Sorted new [] s = (λ h. tt, λ h. tt)
placed-Sorted new (x ∷ []) s = ground arith
placed-Sorted new (x ∷ y ∷ ts) (le, s) = elim (dec_le x.0 new.0) [
  | no gt ↦
      let e : placed new (x ∷ y ∷ ts) ≡ new ∷ x ∷ y ∷ ts = ground arith in
      rw e (λ h. inl (omega (arith, le, gt)), λ h. (omega (arith, gt), (le, s)))
  | yes le' ↦ elim (dec_le (last_criterion y ts) new.0) [
    | yes le'' ↦
        let e : placed new (x ∷ y ∷ ts) ≡ x ∷ y ∷ ts ++ new ∷ [] = ground arith in
        rw e (λ h. inr le'', λ h. Sorted-snoc new x (y ∷ ts) (le, s) le'')
    | no gt ↦
        let e : placed new (x ∷ y ∷ ts) ≡ x ∷ new ∷ y ∷ ts = ground arith in
        rw e (λ h. inl h.1.0, λ h. (le', (ground (arith, gt), s)))
  ]
]

-- `addItem` in ascending mode, with a node that is not linked yet and a count that does not wrap,
-- succeeds, and on a sorted list the list it leaves is sorted exactly when the list was empty or
-- had one entry, or the new criterion is at most the second one or at least the last one: a
-- criterion between the second and the last leaves the list out of order.
pub add_item-Sorted :
    (s : SortedList) (xs : List ℕ) (a item criterion : ℕ)
    → Holds s.list xs
    → NotIn a xs
    → length xs + 1 < 2 ^ 32
    → Sorted (entries s xs)
    → (s' : SortedList) × (ys : List ℕ) × (add_item s (some a) item criterion 0 ≡ ok (success, s'))
      × Holds s'.list ys
      × (Sorted (entries s' ys) ↔ InPlace criterion (entries s xs))
add_item-Sorted s xs a item criterion v away few sorted =
    let (s', ys, run, w, same) = add_item-Places s xs a item criterion v away few in
    (s', ys, run, w, rw same (placed-Sorted (criterion, item) (entries s xs) sorted))

Sorted-rest : (x : Entry) (ts : List Entry) → Sorted (x ∷ ts) → Sorted ts
Sorted-rest x [] s = tt
Sorted-rest x (y ∷ ts) s = s.1

-- `popFromHead` of a sorted list that is not empty takes the entry with the least criterion, and
-- keeps the list sorted.
pop_from_head-Sorted :
    (s : SortedList) (a : ℕ) (xs : List ℕ)
    → Holds s.list (a ∷ xs)
    → Sorted (entries s (a ∷ xs))
    → (s' : SortedList) × (pop_from_head s ≡ (some (s.list.item a), s'))
      × Holds s'.list xs
      × Sorted (entries s' xs)
      × (s.criterion a ≤ last_criterion (s.criterion a, s.list.item a) (entries s xs))
unfolding pop_from_head
pop_from_head-Sorted s a xs v sorted = (
  record s { list = without s.list [] xs },
  rw (pop_from_head_lem s.list a xs v) refl,
  unlink-Holds s.list [] a xs v,
  Sorted-rest (s.criterion a, s.list.item a) (entries s xs) sorted,
  Sorted-last (s.criterion a, s.list.item a) (entries s xs) sorted,
)
