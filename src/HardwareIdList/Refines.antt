-- ===== src/HardwareIdList/Refines.antt =====
-- Every call of a `HardwareIdList` against a map from ids to items.
use Prim.{tt}
use zambesii.Prelude.{
  ℕ, suc, ◌<◌, ◌≤◌, ◌≡◌, refl, ap, ◌∙◌, List, [], ◌∷◌, ◌++◌, Option, none, some, arith, append_nil,
  inl, inr, dec_lt,
}
use zambesii.Prelude.Distinct.{NotIn}
use zambesii.Prelude.Result.{ok, success, memory_nomem, ◌>>=◌}
use zambesii.HardwareIdList.{
  IdList, Nodes, n_nodes, copy, link_only, grow, add_item, set_item, link, link_behind,
  find_free_index,
}
use zambesii.HardwareIdList.Chain.{Below, Holds, find_place, Splits, Below-trans}
use zambesii.HardwareIdList.Pairs.{
  pairs, look_up, put_pair-new, put_pair-old, pairs-with, drop_pair-old, drop_pair-none,
}
use zambesii.HardwareIdList.Spec.{
  Op, adds, removes, asks, asks_free, Reply, error, void, pointer, free, step, spec_step, Agrees,
  Cleared,
}
use zambesii.HardwareIdList.Growth.{
  larger, Clear, above_allocated, within_allocated, copy-pairs, larger-Holds,
}
use zambesii.HardwareIdList.Adds.{with, link-new, link-old, link_back-with}
use zambesii.HardwareIdList.Removes.{without, remove_item-old, remove_item-none}
use zambesii.HardwareIdList.Finds.{get_item_lem, find_free_index_lem}
use zambesii.HardwareIdList.Kept.{
  having, set_item-having, new-Holds, old-Holds, removed-Holds, NotIn-around,
}

-- The writes of `link` and of `set_item` when the array is large enough.
add_within :
    (s s' : IdList) (fresh : Option Nodes) (id : ℕ) (p : Option ℕ)
    → id < n_nodes s
    → link s id ≡ ok s'
    → id < n_nodes s'
    → add_item s fresh id p ≡ ok (success, having s' id p)
unfolding add_item
add_within s s' fresh id p h linked h' =
    rw (within_allocated s id h, linked, set_item-having s' id p h') refl

grow-with :
    (s : IdList) (fresh : Nodes) (id : ℕ) (p : Option ℕ) (xs : List ℕ)
    → Holds s xs
    → Holds (larger s fresh id) xs
    → n_nodes s ≤ id
    → grow s fresh id p ≡ ok (having (with (larger s fresh id) xs id []) id p)
unfolding grow link_behind link_only
grow-with s fresh id p [] v w h =
    ap (λ m. link_behind (larger s fresh id) id m >>= λ s'. set_item s' id p) v.max_last
    ∙ set_item-having (link_only (larger s fresh id) id) id p (omega arith)
grow-with s fresh id p (a ∷ ys) v w h =
    let below : Below id (a ∷ ys) = Below-trans (n_nodes s) id (a ∷ ys) h v.inside in
    ap (λ m. link_behind (larger s fresh id) id m >>= λ s'. set_item s' id p) v.max_last
    ∙ ap (λ r. r >>= λ s'. set_item s' id p)
        (link_back-with (larger s fresh id) id a ys w.first_first w.max_last below w.inside)
    ∙ set_item-having (with (larger s fresh id) (a ∷ ys) id []) id p (omega arith)

add_within-Agrees :
    (s : IdList) (xs : List ℕ) (fresh : Option Nodes) (id : ℕ) (p : Option ℕ)
    → Holds s xs
    → id < n_nodes s
    → Splits id xs
    → Agrees s xs (adds fresh id p)
unfolding Agrees Splits step spec_step
add_within-Agrees s xs fresh id p v h (ys, zs, inl e, below, above) =
    let w : Holds s (ys ++ zs) = rw⁻¹ e v in
    (
      error success,
      having (with s ys id zs) id p,
      ys ++ id ∷ zs,
      ap (λ r. r >>= λ (e, s'). ok (error e, s'))
          (add_within s (with s ys id zs) fresh id p h (link-new s id ys zs w below above) h),
      new-Holds s id p ys zs w below above h,
      rw (pairs-with s.nodes.item id p ys zs below above, e)
          (ground (arith, h, put_pair-new s.nodes.item id p ys zs below above)),
    )
add_within-Agrees s xs fresh id p v h (ys, zs, inr e, below, above) =
    let w : Holds s (ys ++ id ∷ zs) = rw⁻¹ e v in
    (
      error success,
      having s id p,
      ys ++ id ∷ zs,
      ap (λ r. r >>= λ (e, s'). ok (error e, s'))
          (add_within s s fresh id p h (link-old s id ys zs w below above) h),
      old-Holds s id p ys zs w,
      rw (pairs-with s.nodes.item id p ys zs below above, e)
          (ground (arith, h, put_pair-old s.nodes.item id p ys zs below above)),
    )

add_behind-Agrees :
    (s : IdList) (xs : List ℕ) (fresh : Nodes) (id : ℕ) (p : Option ℕ)
    → Holds s xs
    → n_nodes s ≤ id
    → Clear fresh (suc id)
    → Agrees s xs (adds (some fresh) id p)
unfolding Agrees step spec_step add_item
add_behind-Agrees s xs fresh id p v h clear =
    let w : Holds (larger s fresh id) xs = larger-Holds s fresh id xs v h clear in
    let w' : Holds (larger s fresh id) (xs ++ []) = rw (append_nil xs) w in
    let below : Below id xs = Below-trans (n_nodes s) id xs h v.inside in
    (
      error success,
      having (with (larger s fresh id) xs id []) id p,
      xs ++ id ∷ [],
      rw (above_allocated s id h, grow-with s fresh id p xs v w h) refl,
      new-Holds (larger s fresh id) id p xs [] w' below tt (omega arith),
      rw (pairs-with (copy s fresh).item id p xs [] below tt, copy-pairs s fresh xs v.inside)
          (ground (arith, h, put_pair-new s.nodes.item id p xs [] below tt, append_nil xs)),
    )

add-Agrees :
    (s : IdList) (xs : List ℕ) (fresh : Option Nodes) (id : ℕ) (p : Option ℕ)
    → Holds s xs
    → Cleared (adds fresh id p)
    → Agrees s xs (adds fresh id p)
unfolding Agrees step spec_step add_item Cleared
add-Agrees s xs fresh id p v clear = elim (dec_lt id (n_nodes s)) [
  | yes lt ↦ add_within-Agrees s xs fresh id p v lt (find_place id xs v.ascending)
  | no ge ↦ at fresh clear (omega (arith, ge))
]
  where
    at :
        (fresh : Option Nodes)
        → Cleared (adds fresh id p)
        → n_nodes s ≤ id
        → Agrees s xs (adds fresh id p)
    at none clear h =
        (error memory_nomem, s, xs, rw (above_allocated s id h) refl, v, ground (arith, h))
    at (some nodes) clear h = add_behind-Agrees s xs nodes id p v h clear

remove-Agrees :
    (s : IdList) (xs : List ℕ) (id : ℕ) → Holds s xs → Splits id xs → Agrees s xs (removes id)
unfolding Agrees Splits step spec_step
remove-Agrees s xs id v (ys, zs, inl e, below, above) =
    let away : NotIn id xs = rw e (NotIn-around id ys zs below above) in
    (
      void,
      s,
      xs,
      ap (λ r. r >>= λ s'. ok (void, s')) (remove_item-none s id xs v away),
      v,
      rw (drop_pair-none s.nodes.item id xs away) refl,
    )
remove-Agrees s xs id v (ys, zs, inr e, below, above) =
    let w : Holds s (ys ++ id ∷ zs) = rw⁻¹ e v in
    (
      void,
      without s ys id zs,
      ys ++ zs,
      ap (λ r. r >>= λ s'. ok (void, s')) (remove_item-old s id ys zs w below above),
      removed-Holds s id ys zs w below above,
      rw (e, drop_pair-old s.nodes.item id ys zs below) refl,
    )

-- Every call of `addItem`, `removeItem`, `getItem` and `findFreeIndex` on a list that links its
-- indices in ascending order, with their flags and only theirs set, ends, touches no node outside of
-- the array, keeps the list so, and does and replies what a map from ids to items does: `addItem`
-- adds an item or replaces the one that the id had, and fails only when the array is too small and
-- no memory is allocated, `removeItem` drops the id, `getItem` looks it up, `findFreeIndex` finds
-- the least id that has no item. It is assumed that no flag is set in the memory that is allocated.
pub calls_refine :
    (s : IdList) (xs : List ℕ) (op : Op)
    → Holds s xs
    → Cleared op
    → (reply : Reply) × (s' : IdList) × (ys : List ℕ) × (step s op ≡ ok (reply, s'))
      × Holds s' ys
      × ((reply, pairs s'.nodes.item ys, n_nodes s')
          ≡ spec_step (pairs s.nodes.item xs, n_nodes s) op)
unfolding Agrees step spec_step
calls_refine s xs (adds fresh id p) v clear = add-Agrees s xs fresh id p v clear
calls_refine s xs (removes id) v clear = remove-Agrees s xs id v (find_place id xs v.ascending)
calls_refine s xs (asks id) v clear =
    let p : Option ℕ = look_up id (pairs s.nodes.item xs) in
    (pointer p, s, xs, ap (λ r. r >>= λ p. ok (pointer p, s)) (get_item_lem s id xs v), v, refl)
calls_refine s xs asks_free v clear = (
  free (find_free_index s),
  s,
  xs,
  refl,
  v,
  ap (λ r. (free r, pairs s.nodes.item xs, n_nodes s)) (find_free_index_lem s xs v),
)
