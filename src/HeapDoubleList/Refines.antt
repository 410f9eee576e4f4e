-- ===== src/HeapDoubleList/Refines.antt =====
-- Every operation of a `HeapDoubleList` against a list of items.
use zambesii.Prelude.{
  snoc_cases, ℕ, suc, ◌+◌, ◌^◌, ◌<◌, ◌≡◌, ◌≢◌, refl, ap, ◌∙◌, List, [], ◌∷◌, ◌++◌, map, none, some,
  length, append_nil, map-append, arith, ◌⊎◌, inl, inr,
}
use zambesii.Prelude.Put.{put, put_same}
use zambesii.Prelude.Distinct.{NotIn}
use zambesii.Prelude.Result.{ok, Error, success, memory_nomem, invalid_arg, ◌>>=◌}
use zambesii.HeapDoubleList.{
  DoubleList, add_item, remove_from, remove_item, get_head, get_tail, get_n_items,
}
use zambesii.HeapDoubleList.Unlink.{Holds, without, unlink-Holds, remove_from-Holds}
use zambesii.HeapDoubleList.Spec.{
  Op, adds, removes, pops_head, pops_tail, asks_head, asks_tail, asks_n_items, Reply, error, void,
  pointer, number, step, tail_of, but_tail, spec_step, Fresh, Agrees,
}
use zambesii.HeapDoubleList.Ends.{
  with, with-Holds, add_head_lem, add_tail_lem, items-put, length-map, head-same, tail-same,
  pop_from_head-empty, pop_from_tail-empty, pop_from_head_lem, pop_from_tail_lem,
}

pop_head-Agrees : (l : DoubleList) (xs : List ℕ) → Holds l xs → Agrees l xs pops_head
unfolding Agrees step spec_step
pop_head-Agrees l [] v =
    (pointer none, l, [], ap (λ (p, l'). ok (pointer p, l')) (pop_from_head-empty l v), v, refl)
pop_head-Agrees l (a ∷ xs) v = (
  pointer (some (l.item a)),
  without l [] xs,
  xs,
  ap (λ (p, l'). ok (pointer p, l')) (pop_from_head_lem l a xs v),
  unlink-Holds l [] a xs v,
  refl,
)

tail_of-append : (is : List ℕ) (i : ℕ) → tail_of (is ++ i ∷ []) ≡ some i
tail_of-append [] i = refl
tail_of-append (j ∷ []) i = refl
tail_of-append (j ∷ k ∷ is) i = tail_of-append (k ∷ is) i

but_tail-append : (is : List ℕ) (i : ℕ) → but_tail (is ++ i ∷ []) ≡ is
but_tail-append [] i = refl
but_tail-append (j ∷ []) i = refl
but_tail-append (j ∷ k ∷ is) i = ap (λ is'. j ∷ is') (but_tail-append (k ∷ is) i)

pop_tail-Agrees :
    (l : DoubleList) (xs : List ℕ)
    → Holds l xs
    → (xs ≡ []) ⊎ ((ys : List ℕ) × (a : ℕ) × (xs ≡ ys ++ a ∷ []))
    → Agrees l xs pops_tail
unfolding Agrees step spec_step
pop_tail-Agrees l [] v (inl e) =
    (pointer none, l, [], ap (λ (p, l'). ok (pointer p, l')) (pop_from_tail-empty l v), v, refl)
pop_tail-Agrees l (b ∷ xs) v (inl e) = absurd (ground arith)
pop_tail-Agrees l xs v (inr (ys, a, e)) =
    let w : Holds l (ys ++ a ∷ []) = rw⁻¹ e v in
    (
      pointer (some (l.item a)),
      without l ys [],
      ys ++ [],
      ap (λ (p, l'). ok (pointer p, l')) (pop_from_tail_lem l ys a w),
      unlink-Holds l ys a [] w,
      rw
          (
            e,
            map-append l.item ys (a ∷ []),
            tail_of-append (map l.item ys) (l.item a),
            but_tail-append (map l.item ys) (l.item a),
            append_nil ys,
          )
          refl,
    )

remove-Agrees : (l : DoubleList) (xs : List ℕ) (item : ℕ) → Holds l xs → Agrees l xs (removes item)
unfolding Agrees step spec_step remove_item
remove-Agrees l xs item v =
    let (l', zs, run, w, same) =
      remove_from-Holds l item [] xs (suc l.n_items) v (omega (arith, v.counted)) in
    (
      void,
      l',
      zs,
      ap (λ r. r >>= λ l''. ok (void, l''))
          (ap (λ p. remove_from l (suc l.n_items) p item) v.links.head_first ∙ run),
      w,
      ap (λ is. (void, is)) same,
    )

mode_cases : (mode : ℕ) → (mode ≡ 0) ⊎ (mode ≡ 1) ⊎ ((mode ≢ 0) × (mode ≢ 1))
mode_cases mode = ground arith

item-Holds :
    {l : DoubleList} {xs : List ℕ} (item : ℕ → ℕ) → Holds l xs → Holds (record l { item = item }) xs
item-Holds item v = record { links = v.links; counted = v.counted; bounded = v.bounded }

-- A node that is allocated and gets its item is linked at the end that the mode says, or lost.
add_item-Holds :
    (l : DoubleList) (xs : List ℕ) (a item mode : ℕ)
    → Holds l xs
    → NotIn a xs
    → length xs + 1 < 2 ^ 32
    → (mode ≡ 0) ⊎ (mode ≡ 1) ⊎ ((mode ≢ 0) × (mode ≢ 1))
    → (e : Error) × (l' : DoubleList) × (ys : List ℕ) × (add_item l (some a) item mode ≡ (e, l'))
      × Holds l' ys
      × ((error e, map l'.item ys) ≡ spec_step (map l.item xs) (adds (some a) item mode))
unfolding spec_step add_item
add_item-Holds l xs a item mode v away few (inl e) =
    let l0 : DoubleList = record l { item = put l.item a item } in
    let v0 : Holds l0 xs = item-Holds (put l.item a item) v in
    (
      success,
      with l0 [] a xs,
      a ∷ xs,
      rw (e, add_head_lem l0 xs a v0) refl,
      with-Holds l0 [] a xs v0 away few,
      rw (e, put_same l.item a item, items-put l.item a item xs away) refl,
    )
add_item-Holds l xs a item mode v away few (inr (inl e)) =
    let l0 : DoubleList = record l { item = put l.item a item } in
    let v0 : Holds l0 (xs ++ []) = rw (append_nil xs) (item-Holds (put l.item a item) v) in
    (
      success,
      with l0 xs a [],
      xs ++ a ∷ [],
      rw (e, add_tail_lem l0 xs a (item-Holds (put l.item a item) v)) refl,
      with-Holds l0 xs a [] v0 (rw (append_nil xs) away) (rw (append_nil xs) few),
      rw
          (
            e,
            map-append l0.item xs (a ∷ []),
            put_same l.item a item,
            items-put l.item a item xs away,
          )
          refl,
    )
add_item-Holds l xs a item mode v away few (inr (inr (no_head, no_tail))) = (
  invalid_arg,
  record l { item = put l.item a item },
  xs,
  ground arith,
  item-Holds (put l.item a item) v,
  ap (λ is. (error invalid_arg, is)) (items-put l.item a item xs away) ∙ ground arith,
)

add-Agrees :
    (l : DoubleList) (xs : List ℕ) (a item mode : ℕ)
    → Holds l xs
    → NotIn a xs
    → length xs + 1 < 2 ^ 32
    → Agrees l xs (adds (some a) item mode)
unfolding Agrees step
add-Agrees l xs a item mode v away few =
    let (e, l', ys, run, w, same) = add_item-Holds l xs a item mode v away few (mode_cases mode) in
    (error e, l', ys, ap (λ (e, l'). ok (error e, l')) run, w, same)

-- Every call of a `HeapDoubleList`, `addItem` at both ends and with a wrong mode, `removeItem`, the
-- pops, `getHead`, `getTail` and `getNItems`, ends, writes through no NULL pointer, keeps the links
-- in both directions, the two ends and the count of the nodes true, and replies as a list of items
-- does; a node that is added has to be unlinked before, and the count must not wrap.
pub step_refines :
    {l : DoubleList} {xs : List ℕ} (op : Op)
    → Holds l xs
    → Fresh xs op
    → (reply : Reply) × (l' : DoubleList) × (ys : List ℕ) × (step l op ≡ ok (reply, l'))
      × Holds l' ys
      × ((reply, map l'.item ys) ≡ spec_step (map l.item xs) op)
unfolding Agrees Fresh step spec_step add_item get_n_items
step_refines {l = l} {xs = xs} (adds none item mode) v fresh =
    (error memory_nomem, l, xs, refl, v, refl)
step_refines {l = l} {xs = xs} (adds (some a) item mode) v (away, few) =
    add-Agrees l xs a item mode v away few
step_refines {l = l} {xs = xs} (removes item) v fresh = remove-Agrees l xs item v
step_refines {l = l} {xs = xs} pops_head v fresh = pop_head-Agrees l xs v
step_refines {l = l} {xs = xs} pops_tail v fresh = pop_tail-Agrees l xs v (snoc_cases xs)
step_refines {l = l} {xs = xs} asks_head v fresh =
    (pointer (get_head l), l, xs, refl, v, ap (λ p. (pointer p, map l.item xs)) (head-same l xs v))
step_refines {l = l} {xs = xs} asks_tail v fresh =
    (pointer (get_tail l), l, xs, refl, v, ap (λ p. (pointer p, map l.item xs)) (tail-same l xs v))
step_refines {l = l} {xs = xs} asks_n_items v fresh = (
  number l.n_items,
  l,
  xs,
  refl,
  v,
  ap (λ n. (number n, map l.item xs)) (v.counted ∙ length-map l.item xs),
)
