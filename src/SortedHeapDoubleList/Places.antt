-- ===== src/SortedHeapDoubleList/Places.antt =====
-- Where `SortedHeapDoubleList::addItem` puts the node of a new item.
use zambesii.Prelude.{
  ℕ, suc, ◌≡◌, ◌≢◌, refl, sym, ap, ◌∙◌, List, [], ◌∷◌, ◌++◌, map, some, append_nil, map-append,
  arith, ◌<◌, ◌≤◌, ◌+◌, ◌^◌, length, leb, ltb, if◌then◌else◌, dec_le,
}
use zambesii.Prelude.Put.{put, put_same, put_other}
use zambesii.Prelude.Distinct.{NotIn, last_or, NotIn-last, last_or-append}
use zambesii.Prelude.Result.{ok, success}
use zambesii.HeapDoubleList.{DoubleList}
use zambesii.HeapDoubleList.Unlink.{Holds}
use zambesii.HeapDoubleList.Ends.{with, with-Holds}
use zambesii.SortedHeapDoubleList.{
  SortedList, link_only, link_front, link_back, link_after, insert_from, place_among, place_node,
  add_item,
}

-- A criterion and its item
abbrev pub Entry : Type 0
Entry = ℕ × ℕ

abbrev pub entry : (ℕ → ℕ) → (ℕ → ℕ) → ℕ → Entry
entry criterion item a = (criterion a, item a)

-- The entries of the nodes at these addresses
abbrev pub entries : SortedList → List ℕ → List Entry
entries s xs = map (entry s.criterion s.list.item) xs

abbrev pub last_criterion : Entry → List Entry → ℕ
last_criterion x [] = x.0
last_criterion x (y ∷ ts) = last_criterion y ts

-- Before a head that is greater, else behind a tail that is not, else behind the head.
abbrev pub placed : Entry → List Entry → List Entry
placed new [] = new ∷ []
placed new (x ∷ ts) =
    if ltb new.0 x.0
    then new ∷ x ∷ ts
    else (if leb (last_criterion x ts) new.0 then x ∷ ts ++ new ∷ [] else x ∷ new ∷ ts)

last_criterion-map :
    (criterion item : ℕ → ℕ) (b : ℕ) (ys : List ℕ)
    → last_criterion (entry criterion item b) (map (entry criterion item) ys)
      ≡ criterion (last_or b ys)
last_criterion-map criterion item b [] = refl
last_criterion-map criterion item b (c ∷ ys) = last_criterion-map criterion item c ys

-- The three ways in which a node `a` comes between two parts of a list.
front-with :
    (l : DoubleList) (a h : ℕ) (xs : List ℕ)
    → Holds l (h ∷ xs)
    → link_front l a h ≡ with l [] a (h ∷ xs)
unfolding link_front
front-with l a h xs v = rw v.links.tail_last refl

back-with :
    (l : DoubleList) (a h : ℕ) (xs : List ℕ)
    → Holds l (h ∷ xs)
    → link_back l a (last_or h xs) ≡ with l (h ∷ xs) a []
unfolding link_back
back-with l a h xs v = rw (v.links.head_first, last_or-append h xs a []) refl

after-with :
    (l : DoubleList) (a h b : ℕ) (xs : List ℕ)
    → Holds l (h ∷ b ∷ xs)
    → NotIn a (h ∷ b ∷ xs)
    → link_after l a h ≡ ok (with l (h ∷ []) a (b ∷ xs))
unfolding link_after
after-with l a h b xs v away =
    rw
      (
        put_other l.next a h (l.next h) (λ e. away.0 (sym e)),
        v.links.nexts.0,
        v.links.head_first,
        v.links.tail_last,
      )
      refl

only-with : (l : DoubleList) (a : ℕ) → Holds l [] → link_only l a ≡ with l [] a []
unfolding link_only
only-with l a v = refl

-- The list gets the node `a` in one place, the one that `placed` says.
Goes : DoubleList → (ℕ → ℕ) → (ℕ → ℕ) → List ℕ → ℕ → Type 0
Goes l criterion item xs a =
    (ys zs : List ℕ) × (xs ≡ ys ++ zs)
    × (place_node l criterion a ≡ ok (success, with l ys a zs))
    × (map (entry criterion item) (ys ++ a ∷ zs)
        ≡ placed (entry criterion item a) (map (entry criterion item) xs))

place_one-Goes :
    (l : DoubleList) (criterion item : ℕ → ℕ) (h a : ℕ)
    → Holds l (h ∷ [])
    → Goes l criterion item (h ∷ []) a
unfolding Goes place_node place_among
place_one-Goes l criterion item h a v = elim (dec_le (criterion h) (criterion a)) [
  | yes le ↦ (
    h ∷ [],
    [],
    refl,
    rw (v.links.head_first, v.links.tail_last) (ground (arith, back-with l a h [] v)),
    ground arith,
  )
  | no gt ↦ (
    [],
    h ∷ [],
    refl,
    rw (v.links.head_first, v.links.tail_last) (ground (arith, front-with l a h [] v)),
    ground arith,
  )
]

-- The first round of the loop stops at the head.
walk_lem :
    (l : DoubleList) (criterion : ℕ → ℕ) (h b : ℕ) (xs : List ℕ) (a fuel : ℕ)
    → Holds l (h ∷ b ∷ xs)
    → NotIn a (h ∷ b ∷ xs)
    → criterion h ≤ criterion a
    → insert_from l criterion a (suc fuel) (some h) ≡ ok (success, with l (h ∷ []) a (b ∷ xs))
unfolding insert_from
walk_lem l criterion h b xs a fuel v away le = ground (arith, after-with l a h b xs v away)

place_many-Goes :
    (l : DoubleList) (criterion item : ℕ → ℕ) (h b : ℕ) (xs : List ℕ) (a : ℕ)
    → Holds l (h ∷ b ∷ xs)
    → NotIn a (h ∷ b ∷ xs)
    → Goes l criterion item (h ∷ b ∷ xs) a
unfolding Goes place_node place_among
place_many-Goes l criterion item h b xs a v away =
    let apart : h ≢ last_or b xs = NotIn-last h b xs v.links.distinct.0 in
    elim (dec_le (criterion h) (criterion a)) [
      | no gt ↦ (
        [],
        h ∷ b ∷ xs,
        refl,
        rw (v.links.head_first, v.links.tail_last)
            (ground (arith, front-with l a h (b ∷ xs) v, apart)),
        ground arith,
      )
      | yes le ↦ elim (dec_le (criterion (last_or b xs)) (criterion a)) [
        | yes le' ↦ (
          h ∷ b ∷ xs,
          [],
          ap (λ ys. h ∷ b ∷ ys) (sym (append_nil xs)),
          rw (v.links.head_first, v.links.tail_last)
              (ground (arith, back-with l a h (b ∷ xs) v, apart)),
          ground (
            arith,
            last_criterion-map criterion item b xs,
            map-append (entry criterion item) xs (a ∷ []),
          ),
        )
        | no gt' ↦ (
          h ∷ [],
          b ∷ xs,
          refl,
          rw (v.links.head_first, v.links.tail_last)
              (ground (arith, walk_lem l criterion h b xs a l.n_items v away le, apart)),
          ground (arith, last_criterion-map criterion item b xs),
        )
      ]
    ]

place_node-Goes :
    (l : DoubleList) (criterion item : ℕ → ℕ) (xs : List ℕ) (a : ℕ)
    → Holds l xs
    → NotIn a xs
    → Goes l criterion item xs a
unfolding Goes place_node
place_node-Goes l criterion item [] a v away =
    ([], [], refl, rw v.links.head_first (ground (arith, only-with l a v)), refl)
place_node-Goes l criterion item (h ∷ []) a v away = place_one-Goes l criterion item h a v
place_node-Goes l criterion item (h ∷ b ∷ xs) a v away =
    place_many-Goes l criterion item h b xs a v away

pub entries-put :
    (criterion item : ℕ → ℕ) (a c i : ℕ) (xs : List ℕ)
    → NotIn a xs
    → map (entry (put criterion a c) (put item a i)) xs ≡ map (entry criterion item) xs
entries-put criterion item a c i [] away = refl
entries-put criterion item a c i (b ∷ xs) (ne, away) =
    rw
      (
        put_other criterion a b c (λ e. ne (sym e)),
        put_other item a b i (λ e. ne (sym e)),
        entries-put criterion item a c i xs away,
      )
      refl

-- In ascending mode, with a node that is not linked yet and a count that does not wrap, `addItem`
-- succeeds, writes through no NULL pointer, keeps the links in both directions, the ends and the count of the nodes true, and leaves every other entry in its
-- place: the new entry comes before a head with a greater criterion, else behind a tail with a
-- criterion that is not greater, and else right behind the head.
pub add_item-Places :
    (s : SortedList) (xs : List ℕ) (a item criterion : ℕ)
    → Holds s.list xs
    → NotIn a xs
    → length xs + 1 < 2 ^ 32
    → (s' : SortedList) × (ys : List ℕ) × (add_item s (some a) item criterion 0 ≡ ok (success, s'))
      × Holds s'.list ys
      × (entries s' ys ≡ placed (criterion, item) (entries s xs))
unfolding add_item Goes
add_item-Places s xs a item criterion v away few =
    let l : DoubleList = record s.list { item = put s.list.item a item } in
    let criteria : ℕ → ℕ = put s.criterion a criterion in
    let v' : Holds l xs = record { links = v.links; counted = v.counted; bounded = v.bounded } in
    let (ys, zs, split, run, same) = place_node-Goes l criteria l.item xs a v' away in
    (
      record { list = with l ys a zs; criterion = criteria },
      ys ++ a ∷ zs,
      rw run refl,
      with-Holds l ys a zs (rw⁻¹ split v') (rw⁻¹ split away) (rw⁻¹ split few),
      same
          ∙ rw
              (
                put_same s.criterion a criterion,
                put_same s.list.item a item,
                entries-put s.criterion s.list.item a criterion item xs away,
              )
              refl,
    )
