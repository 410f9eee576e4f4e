-- ===== src/HardwareIdList/Removes.antt =====
-- `HardwareIdList::removeItem`: the walk to the index before, and the links that are left.
use zambesii.Prelude.{
  ℕ, zero, suc, ◌<◌, ◌≡◌, ◌≢◌, refl, sym, ap, ◌∙◌, List, [], ◌∷◌, ◌++◌, Option, none, some, length,
  Bool-cases, inl, inr, true, false, arith, if◌then◌else◌, append_nil, length-append,
}
use zambesii.Prelude.Put.{put, put_at}
use zambesii.Prelude.Distinct.{NotIn, last_or, last_or-append}
use zambesii.Prelude.Result.{ok}
use zambesii.DoubleLinks.{first, last_from, Nexts, Nexts-right}
use zambesii.HardwareIdList.{
  IdList, n_nodes, is_above, in_array, same_index, unlink_from, remove_item,
}
use zambesii.HardwareIdList.Chain.{Above, Below, Holds, length-bound, last_or-Above}
use zambesii.HardwareIdList.Adds.{within_max}

-- The list with the index `id` unlinked between `ys` and `zs`.
abbrev pub without : IdList → List ℕ → ℕ → List ℕ → IdList
without s ys id zs = record s {
  nodes = record s.nodes {
    next = put_at s.nodes.next (last_from none ys) (first none zs);
    valid = put s.nodes.valid id false;
  };
  first_valid_index = first none (ys ++ zs);
  max_index = last_from none (ys ++ zs);
}

pub in_array_lem : (s : IdList) (i : ℕ) → i < n_nodes s → in_array s i ≡ true
in_array_lem s i h = ground (arith, h)

same_index-same : {p : Option ℕ} (id : ℕ) → p ≡ some id → same_index p id ≡ true
same_index-same id e = ap (λ o. same_index o id) e ∙ ground arith

same_index-other : {p : Option ℕ} (i id : ℕ) → i ≢ id → p ≡ some i → same_index p id ≡ false
same_index-other i id ne e = ap (λ o. same_index o id) e ∙ ground (arith, ne)

-- The walk passes every index before the one that is linked to `id`.
unlink_from-old :
    (s : IdList) (id fuel i : ℕ) (ys zs : List ℕ)
    → Nexts s.nodes.next (i ∷ ys ++ id ∷ zs) none
    → Below id (i ∷ ys)
    → Below (n_nodes s) (i ∷ ys ++ id ∷ zs)
    → length ys < fuel
    → unlink_from s id fuel (some i)
      ≡ ok (record s {
        max_index = if same_index s.max_index id then some (last_or i ys) else s.max_index;
        nodes = record s.nodes {
          next = put s.nodes.next (last_or i ys) (s.nodes.next id);
          valid = put s.nodes.valid id false;
        };
      })
unfolding unlink_from
unlink_from-old s id zero i ys zs links below inside h = absurd (omega arith)
unlink_from-old s id (suc fuel) i [] zs links below inside h =
    let here : in_array s i ≡ true = in_array_lem s i inside.0 in
    let there : in_array s id ≡ true = in_array_lem s id inside.1.0 in
    let same : same_index (s.nodes.next i) id ≡ true = same_index-same id links.0 in
    rw (here, same, there) refl
unlink_from-old s id (suc fuel) i (c ∷ ys) zs links below inside h =
    let here : in_array s i ≡ true = in_array_lem s i inside.0 in
    let other : same_index (s.nodes.next i) id ≡ false =
      same_index-other c id (omega (arith, below.1.0)) links.0 in
    rw (here, other)
      (ap (unlink_from s id fuel) links.0
        ∙ unlink_from-old s id fuel c ys zs links.1 below.1 inside.1 (omega (arith, h)))

-- The walk through a chain that does not have the index.
unlink_from-none :
    (s : IdList) (id fuel : ℕ) (xs : List ℕ)
    → Nexts s.nodes.next xs none
    → NotIn id xs
    → Below (n_nodes s) xs
    → length xs < fuel
    → unlink_from s id fuel (first none xs) ≡ ok s
unfolding unlink_from
unlink_from-none s id zero xs links away inside h = absurd (omega arith)
unlink_from-none s id (suc fuel) [] links away inside h = refl
unlink_from-none s id (suc fuel) (c ∷ []) links away inside h =
    let here : in_array s c ≡ true = in_array_lem s c inside.0 in
    let other : same_index (s.nodes.next c) id ≡ false = ap (λ o. same_index o id) links.0 in
    rw (here, other)
      (ap (unlink_from s id fuel) links.0
        ∙ unlink_from-none s id fuel [] links.1 away.1 inside.1 (omega (arith, h)))
unlink_from-none s id (suc fuel) (c ∷ d ∷ xs) links away inside h =
    let here : in_array s c ≡ true = in_array_lem s c inside.0 in
    let other : same_index (s.nodes.next c) id ≡ false =
      same_index-other d id (λ e. away.1.0 (sym e)) links.0 in
    rw (here, other)
      (ap (unlink_from s id fuel) links.0
        ∙ unlink_from-none s id fuel (d ∷ xs) links.1 away.1 inside.1 (omega (arith, h)))

-- The greatest index that is left.
new_max :
    {m : Option ℕ} (id : ℕ) (ys zs : List ℕ)
    → m ≡ last_from none (ys ++ id ∷ zs)
    → Above id zs
    → (if same_index m id then last_from none ys else m) ≡ last_from none (ys ++ zs)
new_max id [] [] m above = rw (same_index-same id m) refl
new_max id [] (b ∷ zs) m above = rw (same_index-other (last_or b zs) id (after id b zs above) m) m
  where
    after : (id b : ℕ) (zs : List ℕ) → Above id (b ∷ zs) → last_or b zs ≢ id
    after id b zs above = λ e. ground (arith, last_or-Above id b zs above)
new_max id (a ∷ ys) [] m above =
    rw (same_index-same id (m ∙ ap some (last_or-append a ys id [])), append_nil ys) refl
new_max id (a ∷ ys) (b ∷ zs) m above =
    let e : _ ≡ some (last_or b zs) = m ∙ ap some (last_or-append a ys id (b ∷ zs)) in
    rw (same_index-other (last_or b zs) id (λ e. ground (arith, last_or-Above id b zs above)) e)
      (e ∙ ap some (sym (last_or-append a ys b zs)))

first_out-without :
    (s : IdList) (id : ℕ) (zs : List ℕ)
    → Holds s (id ∷ zs)
    → Above id zs
    → remove_item s id ≡ ok (without s [] id zs)
unfolding remove_item
first_out-without s id zs v above =
    let here : in_array s id ≡ true = in_array_lem s id v.inside.0 in
    let same : same_index s.first_valid_index id ≡ true = same_index-same id v.first_first in
    rw (within_max s id zs v.max_last above, same, here, v.nexts.0)
      (ap
        (λ m. ok (record s {
          nodes = record s.nodes { valid = put s.nodes.valid id false };
          first_valid_index = first none zs;
          max_index = m;
        }))
        (new_max id [] zs v.max_last above))

-- The list after a removal behind the index `p`, by what is written.
abbrev after_removal : IdList → ℕ → ℕ → Option ℕ → Option ℕ → Option ℕ → IdList
after_removal s id p next max first = record s {
  nodes = record s.nodes { next = put s.nodes.next p next; valid = put s.nodes.valid id false };
  max_index = max;
  first_valid_index = first;
}

later_out-without :
    (s : IdList) (id a : ℕ) (ys zs : List ℕ)
    → Holds s (a ∷ ys ++ id ∷ zs)
    → Below id (a ∷ ys)
    → Above id zs
    → remove_item s id ≡ ok (without s (a ∷ ys) id zs)
unfolding remove_item
later_out-without s id a ys zs v below above =
    let m : s.max_index ≡ some (last_or id zs) = v.max_last ∙ ap some (last_or-append a ys id zs) in
    let other : same_index s.first_valid_index id ≡ false =
      same_index-other a id (omega (arith, below.0)) v.first_first in
    let few : length ys < suc (n_nodes s) = omega (
      arith,
      length-bound (a ∷ ys ++ id ∷ zs) (n_nodes s) v.ascending v.inside,
      length-append ys (id ∷ zs),
    ) in
    rw (within_max s id zs m above, other)
      (ap (unlink_from s id (suc (n_nodes s))) v.first_first
        ∙ unlink_from-old s id (suc (n_nodes s)) a ys zs v.nexts below v.inside few
        ∙ ap
            (λ n. ok (
              after_removal s id (last_or a ys) n
                (if same_index s.max_index id then some (last_or a ys) else s.max_index)
                s.first_valid_index))
            ((Nexts-right s.nodes.next (a ∷ ys) (id ∷ zs) none v.nexts).0)
        ∙ ap (λ m. ok (after_removal s id (last_or a ys) (first none zs) m s.first_valid_index))
            (new_max id (a ∷ ys) zs v.max_last above)
        ∙ ap
            (λ f.
              ok (
                after_removal s id (last_or a ys) (first none zs) (last_from none (a ∷ ys ++ zs))
                  f))
            v.first_first)

pub remove_item-old :
    (s : IdList) (id : ℕ) (ys zs : List ℕ)
    → Holds s (ys ++ id ∷ zs)
    → Below id ys
    → Above id zs
    → remove_item s id ≡ ok (without s ys id zs)
remove_item-old s id [] zs v below above = first_out-without s id zs v above
remove_item-old s id (a ∷ ys) zs v below above = later_out-without s id a ys zs v below above

pub remove_item-none :
    (s : IdList) (id : ℕ) (xs : List ℕ) → Holds s xs → NotIn id xs → remove_item s id ≡ ok s
unfolding remove_item
remove_item-none s id xs v away =
    let few : length xs < suc (n_nodes s) =
      omega (arith, length-bound xs (n_nodes s) v.ascending v.inside) in
    let walk : unlink_from s id (suc (n_nodes s)) s.first_valid_index ≡ ok s =
      ap (unlink_from s id (suc (n_nodes s))) v.first_first
      ∙ unlink_from-none s id (suc (n_nodes s)) xs v.nexts away v.inside few in
    elim (Bool-cases (is_above id s.max_index)) [
      | inl e ↦ rw e refl
      | inr e ↦ rw (e, not_first xs v.first_first away) walk
    ]
  where
    not_first :
        (xs : List ℕ)
        → s.first_valid_index ≡ first none xs
        → NotIn id xs
        → same_index s.first_valid_index id ≡ false
    not_first [] e away = ap (λ o. same_index o id) e
    not_first (a ∷ xs) e away = same_index-other a id (λ same. away.0 (sym same)) e
