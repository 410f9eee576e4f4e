-- ===== src/HardwareIdList/Adds.antt =====
-- `HardwareIdList::addItem`: the links of a new index, and the array that grows.
use zambesii.Prelude.{
  ℕ, zero, suc, ◌+◌, ◌<◌, ◌≤◌, ◌≡◌, ◌≢◌, refl, ap, ◌∙◌, List, [], ◌∷◌, ◌++◌, Option, none, some,
  length, true, false, arith, ◌==◌, ltb, append_nil, length-append,
}
use zambesii.Prelude.Put.{put, put_at}
use zambesii.Prelude.Distinct.{last_or, last_or-append}
use zambesii.Prelude.Result.{ok}
use zambesii.DoubleLinks.{first, last_from, Nexts}
use zambesii.HardwareIdList.{
  IdList, n_nodes, is_above, is_below, link_only, link_back, link_from, link_at, link,
}
use zambesii.HardwareIdList.Chain.{
  Above, Below, Holds, last_or-Below, last_or-Above, length-bound, Below-left,
}

-- The list with the index `id` linked between `ys` and `zs`.
abbrev pub with : IdList → List ℕ → ℕ → List ℕ → IdList
with s ys id zs = record s {
  nodes = record s.nodes {
    next = put_at (put s.nodes.next id (first none zs)) (last_from none ys) (some id);
  };
  first_valid_index = first none (ys ++ id ∷ zs);
  max_index = last_from none (ys ++ id ∷ zs);
}

-- The walk to the greatest index that is less.
link_from-new :
    (s : IdList) (id fuel i : ℕ) (ys : List ℕ) (b : ℕ) (zs : List ℕ)
    → Nexts s.nodes.next (i ∷ ys ++ b ∷ zs) none
    → Below id (i ∷ ys)
    → id < b
    → Below (n_nodes s) (i ∷ ys)
    → length ys < fuel
    → link_from s id fuel (some i)
      ≡ ok (record s {
        nodes = record s.nodes {
          next = put (put s.nodes.next id (some b)) (last_or i ys) (some id);
        };
      })
unfolding link_from
link_from-new s id zero i ys b zs links below lt inside h = absurd (omega arith)
link_from-new s id (suc fuel) i [] b zs links below lt inside h =
    rw (links.0) (ground (arith, below, lt, inside))
link_from-new s id (suc fuel) i (c ∷ ys) b zs links below lt inside h = rw (links.0) (
    ground (
      arith,
      below,
      inside,
      link_from-new s id fuel c ys b zs links.1 below.1 lt inside.1 (omega (arith, h)),
    ))

stops_at :
    (s : IdList) (id b fuel : ℕ)
    → id < n_nodes s
    → s.nodes.next id ≡ some b
    → id < b
    → link_from s id (suc fuel) (some id) ≡ ok s
unfolding link_from
stops_at s id b fuel inside e lt =
    let here : ltb id (n_nodes s) ≡ true = ground (arith, inside) in
    let less : is_below id (s.nodes.next id) ≡ true = ap (is_below id) e ∙ ground (arith, lt) in
    let same : (id == id) ≡ true = ground arith in rw (here, less, same) refl

-- The walk when the index is in use
link_from-old :
    (s : IdList) (id fuel : ℕ) (ys zs : List ℕ)
    → Nexts s.nodes.next (ys ++ id ∷ zs) none
    → Below id ys
    → Above id zs
    → Below (n_nodes s) (ys ++ id ∷ zs)
    → length ys + 1 < fuel
    → link_from s id fuel (first none (ys ++ id ∷ zs)) ≡ ok s
unfolding link_from
link_from-old s id zero ys zs links below above inside h = absurd (omega arith)
link_from-old s id (suc zero) ys zs links below above inside h = absurd (omega (arith, h))
link_from-old s id (suc (suc fuel)) [] [] links below above inside h =
    rw (links.0) (ground (arith, inside))
link_from-old s id (suc (suc fuel)) [] (b ∷ zs) links below above inside h =
    stops_at s id b (suc fuel) inside.0 links.0 above.0
link_from-old s id (suc (suc fuel)) (c ∷ []) zs links below above inside h = rw (links.0) (
    ground (
      arith,
      below,
      inside,
      link_from-old s id (suc fuel) [] zs links.1 below.1 above inside.1 (omega (arith, h)),
    ))
link_from-old s id (suc (suc fuel)) (c ∷ d ∷ ys) zs links below above inside h = rw (links.0) (
    ground (
      arith,
      below,
      inside,
      link_from-old s id (suc fuel) (d ∷ ys) zs links.1 below.1 above inside.1 (omega (arith, h)),
    ))

put_swap :
    (f : ℕ → Option ℕ) (i j : ℕ) (a b : Option ℕ)
    → i ≢ j
    → put (put f i a) j b ≡ put (put f j b) i a
put_swap f i j a b ne = λ t k. at k t
  where
    at : (k : ℕ) → put (put f i a) j b k ≡ put (put f j b) i a k
    at k = ground arith

pub link_back-with :
    (s : IdList) (id a : ℕ) (ys : List ℕ)
    → s.first_valid_index ≡ some a
    → s.max_index ≡ some (last_or a ys)
    → Below id (a ∷ ys)
    → Below (n_nodes s) (a ∷ ys)
    → link_back s id ≡ ok (with s (a ∷ ys) id [])
unfolding link_back
link_back-with s id a ys f m below inside =
    rw
      (
        m,
        put_swap s.nodes.next (last_or a ys) id (some id) none
            (λ e. ground (arith, last_or-Below id a ys below)),
        last_or-append a ys id [],
        f,
      )
      (ground (arith, last_or-Below (n_nodes s) a ys inside))

-- What `link` does to an index that is not in use, by where it belongs.
pub link-new :
    (s : IdList) (id : ℕ) (ys zs : List ℕ)
    → Holds s (ys ++ zs)
    → Below id ys
    → Above id zs
    → link s id ≡ ok (with s ys id zs)
unfolding link link_at link_only
link-new s id [] [] v below above = ap (link_at s id) v.first_first
link-new s id [] (b ∷ zs) v below above =
    let less : ltb id b ≡ true = ground (arith, above) in
    ap (link_at s id) v.first_first ∙ rw less (rw v.max_last refl)
link-new s id (a ∷ ys) [] v below above =
    let w : Holds s (a ∷ ys) = rw⁻¹ (append_nil ys) v in
    let more : ltb id a ≡ false = ground (arith, below) in
    let behind : is_above id s.max_index ≡ true =
      ap (is_above id) w.max_last ∙ ground (arith, last_or-Below id a ys below) in
    ap (link_at s id) w.first_first
    ∙ rw (more, behind) (link_back-with s id a ys w.first_first w.max_last below w.inside)
link-new s id (a ∷ ys) (b ∷ zs) v below above =
    let more : ltb id a ≡ false = ground (arith, below) in
    let m : s.max_index ≡ some (last_or b zs) = v.max_last ∙ ap some (last_or-append a ys b zs) in
    let within : is_above id s.max_index ≡ false =
      ap (is_above id) m ∙ ground (arith, last_or-Above id b zs above) in
    let few : length ys < suc (n_nodes s) = omega (
      arith,
      length-bound (a ∷ ys ++ b ∷ zs) (n_nodes s) v.ascending v.inside,
      length-append ys (b ∷ zs),
    ) in
    ap (link_at s id) v.first_first
    ∙ rw (more, within)
        (link_from-new s id (suc (n_nodes s)) a ys b zs v.nexts below above.0
            (Below-left (n_nodes s) (a ∷ ys) (b ∷ zs) v.inside) few
          ∙ rw (v.first_first, m, last_or-append a ys id (b ∷ zs)) refl)

pub last_or-from : (id : ℕ) (zs : List ℕ) → Above id zs → id ≤ last_or id zs
last_or-from id [] above = omega arith
last_or-from id (b ∷ zs) above = omega (arith, last_or-Above id b zs above)

pub within_max :
    (s : IdList) (id : ℕ) (zs : List ℕ)
    → s.max_index ≡ some (last_or id zs)
    → Above id zs
    → is_above id s.max_index ≡ false
within_max s id zs m above = ap (is_above id) m ∙ ground (arith, last_or-from id zs above)

-- What `link` does to an index that is in use.
pub link-old :
    (s : IdList) (id : ℕ) (ys zs : List ℕ)
    → Holds s (ys ++ id ∷ zs)
    → Below id ys
    → Above id zs
    → link s id ≡ ok s
unfolding link link_at
link-old s id ys zs v below above =
    ap (link_at s id) v.first_first
    ∙ at ys below v.max_last
        (link_from-old s id (suc (n_nodes s)) ys zs v.nexts below above v.inside few)
  where
    few : length ys + 1 < suc (n_nodes s)
    few = omega (
      arith,
      length-bound (ys ++ id ∷ zs) (n_nodes s) v.ascending v.inside,
      length-append ys (id ∷ zs),
    )

    at :
        (ys : List ℕ)
        → Below id ys
        → s.max_index ≡ last_from none (ys ++ id ∷ zs)
        → link_from s id (suc (n_nodes s)) (first none (ys ++ id ∷ zs)) ≡ ok s
        → link_at s id (first none (ys ++ id ∷ zs)) ≡ ok s
    at [] below m walk =
        let more : ltb id id ≡ false = ground arith in rw (more, within_max s id zs m above) walk
    at (a ∷ ys) below m walk =
        let more : ltb id a ≡ false = ground (arith, below) in
        rw (more, within_max s id zs (m ∙ ap some (last_or-append a ys id zs)) above) walk
