-- ===== src/HeapDoubleList/Unlink.antt =====
-- `HeapDoubleList::removeItem`: the writes that unlink a node, and the walk to it.
use zambesii.Prelude.{
  ℕ, zero, suc, ◌^◌, ◌<◌, ◌≡◌, ◌≢◌, refl, sym, ap, ◌∙◌, List, [], ◌∷◌, ◌++◌, map, Option, none,
  some, length, remove_first, append_snoc, append_nil, arith, ℕ_discrete, sub_uarch, length-append,
  map-append,
}
use zambesii.Prelude.Put.{put, put_at, put_other, put-put}
use zambesii.Prelude.Distinct.{
  last_or-append, NotIn, last_or, Distinct-middle, NotIn-last, Distinct-right,
}
use zambesii.Prelude.Result.{ok}
use zambesii.DoubleLinks.{first, last_from, Linked, Nexts-right, Prevs-right}
use zambesii.DoubleLinks.Relink.{unlink-Linked}
use zambesii.HeapDoubleList.{DoubleList, unlink_front, unlink_back, unlink, remove_from}

-- The list links the nodes at these addresses, and counts them.
pub record Holds (l : DoubleList) (xs : List ℕ) : Type 0 where
  pub links : Linked l.next l.prev l.head l.tail xs
  pub counted : l.n_items ≡ length xs
  pub bounded : length xs < 2 ^ 32

-- The list with the node `a` unlinked between the nodes `xs` and `ys`.
abbrev pub without : DoubleList → List ℕ → List ℕ → DoubleList
without l xs ys = record l {
  next = put_at l.next (last_from none xs) (first none ys);
  prev = put_at l.prev (first none ys) (last_from none xs);
  head = first none (xs ++ ys);
  tail = last_from none (xs ++ ys);
  n_items = sub_uarch l.n_items 1;
}

front_head :
    (l : DoubleList) (a : ℕ) {n : Option ℕ}
    → l.head ≡ some a
    → l.next a ≡ n
    → unlink_front l a ≡ ok (record l { head = n; prev = put_at l.prev n none })
unfolding unlink_front
front_head l a h e = rw (h, e) (ground arith)

front_inner :
    (l : DoubleList) (a : ℕ) {b c : ℕ} {n : Option ℕ}
    → l.head ≡ some b
    → b ≢ a
    → l.prev a ≡ some c
    → l.next a ≡ n
    → unlink_front l a ≡ ok (record l { next = put l.next c n })
unfolding unlink_front
front_inner l a h ne p e = rw (h, p, e) (ground arith)

back_tail :
    (l : DoubleList) (a : ℕ) {p : Option ℕ}
    → l.tail ≡ some a
    → l.prev a ≡ p
    → unlink_back l a ≡ ok (record l { tail = p; next = put_at l.next p none })
unfolding unlink_back
back_tail l a t e = rw (t, e) (ground arith)

back_inner :
    (l : DoubleList) (a : ℕ) {b c : ℕ} {p : Option ℕ}
    → l.tail ≡ some b
    → b ≢ a
    → l.next a ≡ some c
    → l.prev a ≡ p
    → unlink_back l a ≡ ok (record l { prev = put l.prev c p })
unfolding unlink_back
back_inner l a t ne n e = rw (t, n, e) (ground arith)

two_steps :
    (l l' l'' : DoubleList) (a : ℕ)
    → unlink_front l a ≡ ok l'
    → unlink_back l' a ≡ ok l''
    → unlink l a ≡ ok (record l'' { n_items = sub_uarch l''.n_items 1 })
unfolding unlink
two_steps l l' l'' a front back = rw (front, back) refl

unlink-without :
    (l : DoubleList) (xs : List ℕ) (a : ℕ) (ys : List ℕ)
    → Linked l.next l.prev l.head l.tail (xs ++ a ∷ ys)
    → unlink l a ≡ ok (without l xs ys)
unlink-without l [] a [] v =
    two_steps l _ _ a (front_head l a v.head_first v.nexts.0) (back_tail _ a v.tail_last v.prevs.0)
unlink-without l [] a (c ∷ ys) v =
    two_steps l _ _ a (front_head l a v.head_first v.nexts.0) (
      back_inner _ a v.tail_last (λ e. NotIn-last a c ys v.distinct.0 (sym e)) v.nexts.0
        (put_other l.prev c a none v.distinct.0.0 ∙ v.prevs.0))
    ∙ rw (put-put l.prev c none, v.tail_last) refl
unlink-without l (b ∷ xs) a [] v =
    let out : NotIn a (b ∷ xs) = Distinct-middle (b ∷ xs) a [] v.distinct in
    two_steps l _ _ a
      (front_inner l a v.head_first (λ e. out.0 (sym e))
        (Prevs-right l.prev none (b ∷ xs) (a ∷ []) v.prevs).0
        (Nexts-right l.next (b ∷ xs) (a ∷ []) none v.nexts).0)
      (back_tail _ a (v.tail_last ∙ ap some (last_or-append b xs a []))
        (Prevs-right l.prev none (b ∷ xs) (a ∷ []) v.prevs).0)
    ∙ rw (put-put l.next (last_or b xs) none, v.head_first, append_nil xs) refl
unlink-without l (b ∷ xs) a (c ∷ ys) v =
    let out : NotIn a (b ∷ xs) = Distinct-middle (b ∷ xs) a (c ∷ ys) v.distinct in
    let e : l.next a ≡ some c = (Nexts-right l.next (b ∷ xs) (a ∷ c ∷ ys) none v.nexts).0 in
    let p : l.prev a ≡ some (last_or b xs) =
      (Prevs-right l.prev none (b ∷ xs) (a ∷ c ∷ ys) v.prevs).0 in
    two_steps l _ _ a (front_inner l a v.head_first (λ e. out.0 (sym e)) p e) (
      back_inner _ a (v.tail_last ∙ ap some (last_or-append b xs a (c ∷ ys)))
        (λ same. NotIn-last a c ys (Distinct-right (b ∷ xs) (a ∷ c ∷ ys) v.distinct).0 (sym same))
        (put_other l.next (last_or b xs) a (some c) (NotIn-last a b xs out) ∙ e) p)
    ∙ rw (v.head_first, v.tail_last, last_or-append b xs a (c ∷ ys), last_or-append b xs c ys) refl

pub unlink-Holds :
    (l : DoubleList) (xs : List ℕ) (a : ℕ) (ys : List ℕ)
    → Holds l (xs ++ a ∷ ys)
    → Holds (without l xs ys) (xs ++ ys)
unlink-Holds l xs a ys v = record {
  links = unlink-Linked xs a ys v.links;
  counted = ground (arith, v.counted, v.bounded, length-append xs (a ∷ ys), length-append xs ys);
  bounded = omega (arith, v.bounded, length-append xs (a ∷ ys), length-append xs ys);
}

remove_first-other :
    (items : ℕ → ℕ) (item : ℕ) (xs : List ℕ) (a : ℕ) (ys : List ℕ)
    → items a ≢ item
    → map items (xs ++ a ∷ []) ++ remove_first item (map items ys)
      ≡ map items xs ++ remove_first item (map items (a ∷ ys))
unfolding remove_first
remove_first-other items item xs a ys ne =
    ap (λ is. is ++ remove_first item (map items ys)) (map-append items xs (a ∷ []))
    ∙ append_snoc (map items xs) (items a) (remove_first item (map items ys))
    ∙ ap (λ is. map items xs ++ is) (ground arith)

-- The walk from a node of the list to the first one with the item.
pub remove_from-Holds :
    (l : DoubleList) (item : ℕ) (xs ys : List ℕ) (fuel : ℕ)
    → Holds l (xs ++ ys)
    → length ys < fuel
    → (l' : DoubleList) × (zs : List ℕ) × (remove_from l fuel (first none ys) item ≡ ok l')
      × Holds l' (xs ++ zs)
      × (map l'.item (xs ++ zs) ≡ map l.item xs ++ remove_first item (map l.item ys))
unfolding remove_from remove_first
remove_from-Holds l item xs ys zero v h = absurd (omega arith)
remove_from-Holds l item xs [] (suc fuel) v h = (l, [], refl, v, map-append l.item xs [])
remove_from-Holds l item xs (a ∷ ys) (suc fuel) v h = elim (ℕ_discrete (l.item a) item) [
  | yes e ↦ (
    without l xs ys,
    ys,
    ground (arith, unlink-without l xs a ys v.links),
    unlink-Holds l xs a ys v,
    map-append l.item xs ys ∙ ap (λ is. map l.item xs ++ is) (ground arith),
  )
  | no ne ↦
      let (l', zs, step, w, same) =
        remove_from-Holds l item (xs ++ a ∷ []) ys fuel (rw (append_snoc xs a ys) v)
          (omega (arith, h)) in
      (
        l',
        a ∷ zs,
        rw ((Nexts-right l.next xs (a ∷ ys) none v.links.nexts).0) (ground (arith, step)),
        rw (← append_snoc xs a zs) w,
        ap (map l'.item) (sym (append_snoc xs a zs))
            ∙ same
            ∙ remove_first-other l.item item xs a ys ne,
      )
]
