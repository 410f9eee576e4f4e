-- ===== src/PrioQueue/Queue/Remove.antt =====
-- `PrioQueue::Queue::remove`: the walk along the links, and the links after it.
use Prim.{tt}
use zambesii.Prelude.{
  ℕ, zero, suc, ◌+◌, ◌≤◌, ◌<◌, ◌^◌, ◌≡◌, ◌≢◌, inl, inr, refl, sym, ap, ◌∙◌, List, [], ◌∷◌, Option,
  none, some, ◌==◌, remove_first, if◌then◌else◌, length, arith, ℕ_discrete, Bool-cases,
}
use zambesii.Prelude.Result.{ok}
use zambesii.PrioQueue.Queue.{Node, QueueState, unlink, remove_from, remove}
use zambesii.PrioQueue.Queue.Chain.{
  NotIn, Distinct, Chain, last_or, last, items, Links, update_same, update_other, Chain-update,
  items-relink,
}

-- The addresses without the first one whose node has the item.
abbrev cut : (ℕ → Node) → ℕ → List ℕ → List ℕ
cut nodes item [] = []
cut nodes item (a ∷ xs) = if (nodes a).item == item then xs else a ∷ cut nodes item xs

items-cut :
    (nodes : ℕ → Node) (item : ℕ) (xs : List ℕ)
    → items nodes (cut nodes item xs) ≡ remove_first item (items nodes xs)
unfolding remove_first
items-cut nodes item [] = refl
items-cut nodes item (a ∷ xs) = elim (ℕ_discrete (nodes a).item item) [
  | yes e ↦ ground arith
  | no ne ↦ ground (arith, items-cut nodes item xs)
]

NotIn-cut : (nodes : ℕ → Node) (item x : ℕ) (xs : List ℕ) → NotIn x xs → NotIn x (cut nodes item xs)
NotIn-cut nodes item x [] away = tt
NotIn-cut nodes item x (a ∷ xs) (ne, away) = elim (Bool-cases ((nodes a).item == item)) [
  | inl e ↦ rw e away
  | inr e ↦ rw e (ne, NotIn-cut nodes item x xs away)
]

Distinct-cut :
    (nodes : ℕ → Node) (item : ℕ) (xs : List ℕ) → Distinct xs → Distinct (cut nodes item xs)
Distinct-cut nodes item [] d = tt
Distinct-cut nodes item (a ∷ xs) (away, d) = elim (Bool-cases ((nodes a).item == item)) [
  | inl e ↦ rw e d
  | inr e ↦ rw e (NotIn-cut nodes item a xs away, Distinct-cut nodes item xs d)
]

length-cut : (nodes : ℕ → Node) (item : ℕ) (xs : List ℕ) → length (cut nodes item xs) ≤ length xs
length-cut nodes item [] = omega arith
length-cut nodes item (a ∷ xs) = elim (Bool-cases ((nodes a).item == item)) [
  | inl e ↦ rw e (omega arith)
  | inr e ↦ rw e (omega (arith, length-cut nodes item xs))
]

-- A walk over the links `xs` behind the node `p` that leaves the links `ys`.
record Walked (q : QueueState) (p : ℕ) (xs ys : List ℕ) (q' : QueueState) : Type 0 where
  chain : Chain q'.nodes (q'.nodes p).next ys
  same_head : q'.head ≡ q.head
  tail_last : q'.tail ≡ some (last_or p ys)
  counted : q'.n_items + length xs ≡ q.n_items + length ys
  same_items : (zs : List ℕ) → items q'.nodes zs ≡ items q.nodes zs
  frame : (x : ℕ) → NotIn x (p ∷ xs) → q'.nodes x ≡ q.nodes x

cut_found :
    (nodes : ℕ → Node) (item a : ℕ) (xs : List ℕ)
    → (nodes a).item ≡ item
    → cut nodes item (a ∷ xs) ≡ xs
cut_found nodes item a xs e = ground arith

cut_other :
    (nodes : ℕ → Node) (item a : ℕ) (xs : List ℕ)
    → (nodes a).item ≢ item
    → cut nodes item (a ∷ xs) ≡ a ∷ cut nodes item xs
cut_other nodes item a xs ne = ground arith

remove_from-some :
    (q : QueueState) (fuel : ℕ) (prev p : Option ℕ) (a item : ℕ)
    → p ≡ some a
    → remove_from q (suc fuel) prev p item ≡ (
        if (q.nodes a).item == item
        then ok (unlink q prev a)
        else remove_from q fuel (some a) (q.nodes a).next item)
unfolding remove_from
remove_from-some q fuel prev p a item e = rw e refl

unlink_tail :
    (nodes : ℕ → Node) (p a : ℕ) (next : Option ℕ) (xs : List ℕ) (tail : Option ℕ)
    → Chain nodes next xs
    → tail ≡ some (last_or a xs)
    → elim next [ none ↦ some p | some n ↦ tail ] ≡ some (last_or p xs)
unlink_tail nodes p a next [] tail c e = rw c refl
unlink_tail nodes p a next (b ∷ xs) tail (c, _) e = rw c e

unlink-Walked :
    (q : QueueState) (p a : ℕ) (xs : List ℕ)
    → Chain q.nodes (q.nodes a).next xs
    → NotIn p (a ∷ xs)
    → q.tail ≡ some (last_or a xs)
    → length (a ∷ xs) ≤ q.n_items
    → q.n_items < 2 ^ 32
    → Walked q p (a ∷ xs) xs (unlink q (some p) a)
unfolding unlink
unlink-Walked q p a xs c (ne, away) e h b =
    let n : Node = record { item = (q.nodes p).item; next = (q.nodes a).next } in
    record {
      chain = rw (update_same q.nodes p n) (Chain-update q.nodes p n (q.nodes a).next xs away c);
      same_head = refl;
      tail_last = unlink_tail q.nodes p a (q.nodes a).next xs q.tail c e;
      counted = ground (arith, h, b);
      same_items = λ ys. items-relink q.nodes p (q.nodes a).next ys;
      frame = λ x (ne', _). update_other q.nodes p x n (λ e. ne' (sym e));
    }

remove_from-Walked :
    (q : QueueState) (item p : ℕ) (xs : List ℕ) (fuel : ℕ)
    → Chain q.nodes (q.nodes p).next xs
    → Distinct (p ∷ xs)
    → q.tail ≡ some (last_or p xs)
    → length xs ≤ q.n_items
    → q.n_items < 2 ^ 32
    → length xs < fuel
    → (q' : QueueState) × (remove_from q fuel (some p) (q.nodes p).next item ≡ ok q')
      × Walked q p xs (cut q.nodes item xs) q'
unfolding remove_from
remove_from-Walked q item p xs zero c d e h b f = absurd (omega arith)
remove_from-Walked q item p [] (suc fuel) c d e h b f = (
  q,
  rw c refl,
  record {
    chain = c;
    same_head = refl;
    tail_last = e;
    counted = refl;
    same_items = λ ys. refl;
    frame = λ x out. refl;
  },
)
remove_from-Walked q item p (a ∷ xs) (suc fuel) (c, cs) ((ne, away), d) e h b f =
    let rest = remove_from-Walked q item a xs fuel cs d e (omega (arith, h)) b (omega (arith, f)) in
    elim (ℕ_discrete (q.nodes a).item item) [
      | yes m ↦ (
        unlink q (some p) a,
        remove_from-some q fuel (some p) (q.nodes p).next a item c ∙ ground arith,
        rw (cut_found q.nodes item a xs m) (unlink-Walked q p a xs cs (ne, away) e h b),
      )
      | no m ↦
          let (q', step, w) = rest in
          (
            q',
            remove_from-some q fuel (some p) (q.nodes p).next a item c ∙ ground (arith, step),
            rw (cut_other q.nodes item a xs m) record {
              chain = (ap (λ (n : Node). n.next) (w.frame p (ne, away)) ∙ c, w.chain);
              same_head = w.same_head;
              tail_last = w.tail_last;
              counted = ground (arith, w.counted);
              same_items = w.same_items;
              frame = λ x (_, out). w.frame x out;
            },
          )
    ]

first_tail :
    (nodes : ℕ → Node) (a : ℕ) (next : Option ℕ) (xs : List ℕ) (tail : Option ℕ)
    → Chain nodes next xs
    → tail ≡ some (last_or a xs)
    → elim next [ none ↦ none | some n ↦ tail ] ≡ last xs
first_tail nodes a next [] tail c e = rw c refl
first_tail nodes a next (b ∷ xs) tail (c, _) e = rw c e

unlink_first-Links :
    (q : QueueState) (a : ℕ) (xs : List ℕ) → Links q (a ∷ xs) → Links (unlink q none a) xs
unfolding unlink
unlink_first-Links q a xs v = record {
  chain = v.chain.1;
  distinct = v.distinct.1;
  tail_last = first_tail q.nodes a (q.nodes a).next xs q.tail v.chain.1 v.tail_last;
  counted = ground (arith, v.counted, v.bounded);
  bounded = omega (arith, v.bounded);
}

Walked-Links :
    {q q' : QueueState} (item : ℕ) {a : ℕ} {xs : List ℕ}
    → Links q (a ∷ xs)
    → Walked q a xs (cut q.nodes item xs) q'
    → Links q' (a ∷ cut q.nodes item xs)
Walked-Links {q = q} item {a = a} {xs = xs} v w = record {
  chain = (w.same_head ∙ v.chain.0, w.chain);
  distinct = (NotIn-cut q.nodes item a xs v.distinct.0, Distinct-cut q.nodes item xs v.distinct.1);
  tail_last = w.tail_last;
  counted = omega (arith, w.counted, v.counted);
  bounded = omega (arith, v.bounded, length-cut q.nodes item xs);
}

-- The loop of `remove` has rounds enough, and the queue then links the nodes of its items without
-- the first one that is the item; a queue without the item is left as it is.
pub remove_refines :
    {q : QueueState} {xs : List ℕ} (item : ℕ)
    → Links q xs
    → (q' : QueueState) × (ys : List ℕ) × (remove q item ≡ ok q')
      × Links q' ys
      × (items q'.nodes ys ≡ remove_first item (items q.nodes xs))
unfolding remove remove_from remove_first unlink
remove_refines {q = q} {xs = []} item v = (q, [], rw v.chain refl, v, refl)
remove_refines {q = q} {xs = a ∷ xs} item v = elim (ℕ_discrete (q.nodes a).item item) [
  | yes m ↦ (
    unlink q none a,
    xs,
    remove_from-some q q.n_items none q.head a item v.chain.0 ∙ ground arith,
    unlink_first-Links q a xs v,
    ap (items q.nodes) (sym (cut_found q.nodes item a xs m)) ∙ items-cut q.nodes item (a ∷ xs),
  )
  | no m ↦
      let (q', step, w) =
        remove_from-Walked q item a xs q.n_items v.chain.1 v.distinct v.tail_last
          (omega (arith, v.counted)) (omega (arith, v.counted, v.bounded))
          (omega (arith, v.counted)) in
      (
        q',
        a ∷ cut q.nodes item xs,
        remove_from-some q q.n_items none q.head a item v.chain.0 ∙ ground (arith, step),
        Walked-Links item v w,
        w.same_items (a ∷ cut q.nodes item xs)
            ∙ ap (items q.nodes) (sym (cut_other q.nodes item a xs m))
            ∙ items-cut q.nodes item (a ∷ xs),
      )
]
