-- ===== src/PrioQueue/Queue/Take.antt =====
-- `pop`, `remove` and `find` of `PrioQueue::Queue`.
use Prim.{tt}
use zambesii.Prelude.{
  ℕ, zero, suc, ◌<◌, ◌≡◌, inl, inr, refl, List, [], ◌∷◌, Option, none, some, Bool, true, false,
  ◌==◌, if◌then◌else◌, length, arith, Bool-cases, sub_uarch,
}
use zambesii.Prelude.Result.{ok}
use zambesii.PrioQueue.Queue.{QueueState, same_pointer, pop, find_from, find}
use zambesii.PrioQueue.Queue.Chain.{Distinct, Chain, last_or, last, items, Links, NotIn-last}

-- The list of items, with the first one taken.
unfoldable pub spec_pop : List ℕ → Option ℕ × List ℕ
spec_pop [] = (none, [])
spec_pop (i ∷ is) = (some i, is)

-- The tail after the first node is taken.
pop_tail :
    (a : ℕ) (xs : List ℕ)
    → Distinct (a ∷ xs)
    → (if same_pointer (some a) (some (last_or a xs)) then none else some (last_or a xs)) ≡ last xs
pop_tail a [] d = ground arith
pop_tail a (b ∷ xs) (away, d) = ground (arith, NotIn-last a b xs away)

-- A pop takes the node at the head and answers its item, and NULL from an empty queue, which it
-- leaves as it is.
pub pop_refines :
    {q : QueueState} {xs : List ℕ}
    → Links q xs
    → (item : Option ℕ) × (q' : QueueState) × (ys : List ℕ) × (pop q ≡ (item, q'))
      × Links q' ys
      × ((item, items q'.nodes ys) ≡ spec_pop (items q.nodes xs))
unfolding pop spec_pop
pop_refines {q = q} {xs = []} v = (
  none,
  record q { tail = none },
  [],
  rw (v.chain, v.tail_last) refl,
  record {
    chain = v.chain;
    distinct = tt;
    tail_last = refl;
    counted = v.counted;
    bounded = v.bounded;
  },
  refl,
)
pop_refines {q = q} {xs = a ∷ xs} v = (
  some (q.nodes a).item,
  record q { head = (q.nodes a).next; tail = last xs; n_items = sub_uarch q.n_items 1 },
  xs,
  rw (v.chain.0, v.tail_last, ← pop_tail a xs v.distinct) refl,
  record {
    chain = v.chain.1;
    distinct = v.distinct.1;
    tail_last = refl;
    counted = ground (arith, v.counted, v.bounded);
    bounded = omega (arith, v.bounded);
  },
  refl,
)

abbrev pub member : ℕ → List ℕ → Bool
member item [] = false
member item (i ∷ is) = if i == item then true else member item is

find_from-member :
    (q : QueueState) (item : ℕ) (p : Option ℕ) (xs : List ℕ) (fuel : ℕ)
    → Chain q.nodes p xs
    → length xs < fuel
    → find_from q fuel p item ≡ ok (member item (items q.nodes xs))
unfolding find_from
find_from-member q item p xs zero c h = absurd (omega arith)
find_from-member q item p [] (suc fuel) c h = rw c refl
find_from-member q item p (a ∷ xs) (suc fuel) (e, c) h =
    rw (e, find_from-member q item (q.nodes a).next xs fuel c (omega (arith, h)))
      (elim (Bool-cases ((q.nodes a).item == item)) [ inl m ↦ rw m refl | inr m ↦ rw m refl ])

-- The loop of `find` has rounds enough, and it answers whether the item is in the queue.
pub find_refines :
    {q : QueueState} {xs : List ℕ} (item : ℕ)
    → Links q xs
    → find q item ≡ ok (member item (items q.nodes xs))
unfolding find
find_refines {q = q} {xs = xs} item v =
    find_from-member q item q.head xs (suc q.n_items) v.chain (omega (arith, v.counted))
