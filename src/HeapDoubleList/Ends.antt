-- ===== src/HeapDoubleList/Ends.antt =====
-- Nodes put in and taken out at the ends of a `HeapDoubleList`.
use zambesii.Prelude.{
  ℕ, suc, ◌+◌, ◌^◌, ◌<◌, ◌≡◌, refl, sym, ap, ◌∙◌, List, [], ◌∷◌, ◌++◌, map, none, some, length,
  append_nil, length-append, arith, add_uarch,
}
use zambesii.Prelude.Put.{put, put_at, put_other}
use zambesii.Prelude.Distinct.{last_or-append, NotIn, last_or, NotIn-last, Distinct-middle}
use zambesii.DoubleLinks.{first, last_from, Prevs-right}
use zambesii.DoubleLinks.Relink.{link-Linked}
use zambesii.HeapDoubleList.{
  DoubleList, add_head, add_tail, pop_from_head, pop_from_tail, get_head, get_tail,
}
use zambesii.HeapDoubleList.Unlink.{Holds, without}
use zambesii.HeapDoubleList.Spec.{head_of, tail_of}

-- The list with the node `a` linked between the nodes `xs` and `ys`.
abbrev pub with : DoubleList → List ℕ → ℕ → List ℕ → DoubleList
with l xs a ys = record l {
  next = put_at (put l.next a (first none ys)) (last_from none xs) (some a);
  prev = put_at (put l.prev a (last_from none xs)) (first none ys) (some a);
  head = first none (xs ++ a ∷ ys);
  tail = last_from none (xs ++ a ∷ ys);
  n_items = add_uarch l.n_items 1;
}

pub with-Holds :
    (l : DoubleList) (xs : List ℕ) (a : ℕ) (ys : List ℕ)
    → Holds l (xs ++ ys)
    → NotIn a (xs ++ ys)
    → length (xs ++ ys) + 1 < 2 ^ 32
    → Holds (with l xs a ys) (xs ++ a ∷ ys)
with-Holds l xs a ys v away few = record {
  links = link-Linked xs a ys v.links away;
  counted = ground (arith, v.counted, few, length-append xs ys, length-append xs (a ∷ ys));
  bounded = omega (arith, few, length-append xs ys, length-append xs (a ∷ ys));
}

pub add_head_lem :
    (l : DoubleList) (xs : List ℕ) (a : ℕ) → Holds l xs → add_head l a ≡ with l [] a xs
unfolding add_head
add_head_lem l [] a v = rw v.links.head_first refl
add_head_lem l (b ∷ xs) a v = rw (v.links.head_first, v.links.tail_last) refl

pub add_tail_lem :
    (l : DoubleList) (xs : List ℕ) (a : ℕ) → Holds l xs → add_tail l a ≡ with l xs a []
unfolding add_tail
add_tail_lem l [] a v = rw v.links.tail_last refl
add_tail_lem l (b ∷ xs) a v =
    rw (v.links.tail_last, v.links.head_first, last_or-append b xs a []) refl

pub items-put :
    (item : ℕ → ℕ) (a i : ℕ) (xs : List ℕ) → NotIn a xs → map (put item a i) xs ≡ map item xs
items-put item a i [] away = refl
items-put item a i (b ∷ xs) (ne, away) =
    rw (put_other item a b i (λ e. ne (sym e)), items-put item a i xs away) refl

pub length-map : (f : ℕ → ℕ) (xs : List ℕ) → length xs ≡ length (map f xs)
length-map f [] = refl
length-map f (x ∷ xs) = ap suc (length-map f xs)

pub head-same : (l : DoubleList) (xs : List ℕ) → Holds l xs → get_head l ≡ head_of (map l.item xs)
unfolding get_head
head-same l [] v = rw v.links.head_first refl
head-same l (a ∷ xs) v = rw v.links.head_first refl

pub tail_of-map :
    (item : ℕ → ℕ) (a : ℕ) (xs : List ℕ) → tail_of (map item (a ∷ xs)) ≡ some (item (last_or a xs))
tail_of-map item a [] = refl
tail_of-map item a (b ∷ xs) = tail_of-map item b xs

pub tail-same : (l : DoubleList) (xs : List ℕ) → Holds l xs → get_tail l ≡ tail_of (map l.item xs)
unfolding get_tail
tail-same l [] v = rw v.links.tail_last refl
tail-same l (a ∷ xs) v = rw v.links.tail_last (sym (tail_of-map l.item a xs))

pub pop_from_head-empty : (l : DoubleList) → Holds l [] → pop_from_head l ≡ (none, l)
unfolding pop_from_head
pop_from_head-empty l v = rw (v.links.head_first, v.links.tail_last) refl

pub pop_from_tail-empty : (l : DoubleList) → Holds l [] → pop_from_tail l ≡ (none, l)
unfolding pop_from_tail
pop_from_tail-empty l v = rw (v.links.tail_last, v.links.head_first) refl

pub pop_from_head_lem :
    (l : DoubleList) (a : ℕ) (xs : List ℕ)
    → Holds l (a ∷ xs)
    → pop_from_head l ≡ (some (l.item a), without l [] xs)
unfolding pop_from_head
pop_from_head_lem l a [] v =
    rw (v.links.head_first, v.links.tail_last, v.links.nexts.0) (ground arith)
pop_from_head_lem l a (b ∷ xs) v =
    rw (v.links.head_first, v.links.tail_last, v.links.nexts.0)
      (ground (arith, NotIn-last a b xs v.links.distinct.0))

pub pop_from_tail_lem :
    (l : DoubleList) (xs : List ℕ) (a : ℕ)
    → Holds l (xs ++ a ∷ [])
    → pop_from_tail l ≡ (some (l.item a), without l xs [])
unfolding pop_from_tail
pop_from_tail_lem l [] a v =
    rw (v.links.head_first, v.links.tail_last, v.links.prevs.0) (ground arith)
pop_from_tail_lem l (b ∷ xs) a v =
    let t : l.tail ≡ some a = v.links.tail_last ∙ ap some (last_or-append b xs a []) in
    let p : l.prev a ≡ some (last_or b xs) =
      (Prevs-right l.prev none (b ∷ xs) (a ∷ []) v.links.prevs).0 in
    rw (v.links.head_first, t, p, append_nil xs)
      (ground (arith, Distinct-middle (b ∷ xs) a [] v.links.distinct))
