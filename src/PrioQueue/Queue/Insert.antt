-- ===== src/PrioQueue/Queue/Insert.antt =====
-- `PrioQueue::Queue::insert`: the links after it.
use Prim.{tt}
use mathlib.Core.Path.{subst}
use zambesii.Prelude.{
  ℕ, ◌+◌, ◌<◌, ◌^◌, ◌≡◌, refl, sym, ap, ◌∙◌, List, [], ◌∷◌, ◌++◌, Option, none, some, Bool, true,
  false, if◌then◌else◌, length, length-append, arith,
}
use zambesii.PrioQueue.Queue.{Node, QueueState, update, link_front, link_behind, link_back, insert}
use zambesii.Prelude.Result.{success, memory_nomem}
use zambesii.PrioQueue.Queue.Chain.{
  NotIn, Distinct, Chain, last_or, last, items, Links, update_same, update_other, Chain-update,
  items-update, items-relink, NotIn-last, Distinct-append,
}

pub Chain-append :
    (nodes : ℕ → Node) (tmp : ℕ) (p : Option ℕ) (a : ℕ) (xs : List ℕ)
    → Distinct (a ∷ xs)
    → NotIn tmp (a ∷ xs)
    → (nodes tmp).next ≡ none
    → Chain nodes p (a ∷ xs)
    → Chain
        (update nodes
          (last_or a xs)
          (record { item = (nodes (last_or a xs)).item; next = some tmp }))
        p
        ((a ∷ xs) ++ tmp ∷ [])
Chain-append nodes tmp p a [] d (ne, _) e (c, _) = (
  c,
  (
    ground (arith, update_same nodes a (record { item = (nodes a).item; next = some tmp })),
    rw
        (update_other nodes a tmp (record { item = (nodes a).item; next = some tmp })
          (λ e. ne (sym e)))
        e,
  ),
)
Chain-append nodes tmp p a (b ∷ xs) (out, d) (ne, away) e (c, cs) = (
  c,
  rw (update_other nodes (last_or b xs) a _ (λ e. NotIn-last a b xs out (sym e)))
      (Chain-append nodes tmp (nodes a).next b xs d away e cs),
)

items-append :
    (nodes : ℕ → Node) (xs ys : List ℕ) → items nodes (xs ++ ys) ≡ items nodes xs ++ items nodes ys
items-append nodes [] ys = refl
items-append nodes (x ∷ xs) ys = ap (λ is. (nodes x).item ∷ is) (items-append nodes xs ys)

last_or-append : (d a : ℕ) (xs : List ℕ) → last_or d (xs ++ a ∷ []) ≡ a
last_or-append d a [] = refl
last_or-append d a (x ∷ xs) = last_or-append x a xs

front_tail :
    (tmp : ℕ) (tail : Option ℕ) (xs : List ℕ)
    → tail ≡ last xs
    → elim tail [ none ↦ some tmp | some t ↦ some t ] ≡ some (last_or tmp xs)
front_tail tmp tail [] e = rw e refl
front_tail tmp tail (x ∷ xs) e = rw e refl

module _ (q : QueueState) (tmp item : ℕ) where
  link_front-Links :
      {xs : List ℕ}
      → Links q xs
      → NotIn tmp xs
      → length xs + 1 < 2 ^ 32
      → Links (link_front q tmp item) (tmp ∷ xs)
  unfolding link_front
  link_front-Links {xs = xs} v away room = record {
    chain = (
      refl,
      rw (update_same q.nodes tmp (record { item = item; next = q.head }))
          (Chain-update q.nodes tmp (record { item = item; next = q.head }) q.head xs away v.chain),
    );
    distinct = (away, v.distinct);
    tail_last = front_tail tmp q.tail xs v.tail_last;
    counted = ground (arith, v.counted);
    bounded = omega (arith, room);
  }

  items-link_front :
      (xs : List ℕ)
      → NotIn tmp xs
      → items (link_front q tmp item).nodes (tmp ∷ xs) ≡ item ∷ items q.nodes xs
  unfolding link_front
  items-link_front xs away =
      rw
        (
          update_same q.nodes tmp (record { item = item; next = q.head }),
          items-update q.nodes tmp (record { item = item; next = q.head }) xs away,
        )
        refl

  -- The links after the node is written, before it is linked.
  abbrev written : ℕ → Node
  written = update q.nodes tmp (record { item = item; next = none })

  written_next : (written tmp).next ≡ none
  written_next =
      ap (λ (n : Node). n.next) (update_same q.nodes tmp (record { item = item; next = none }))

  link_back-Links :
      {xs : List ℕ}
      → Links q xs
      → NotIn tmp xs
      → length xs + 1 < 2 ^ 32
      → Links (link_back q tmp item) (xs ++ tmp ∷ [])
  unfolding link_back
  link_back-Links {xs = []} v away room =
      subst (λ t. Links (link_behind q tmp written t) (tmp ∷ [])) (sym v.tail_last)
        record {
          chain = (refl, written_next);
          distinct = (tt, tt);
          tail_last = refl;
          counted = ground (arith, v.counted);
          bounded = omega (arith, room);
        }
  link_back-Links {xs = a ∷ xs} v away room =
      subst (λ t. Links (link_behind q tmp written t) ((a ∷ xs) ++ tmp ∷ [])) (sym v.tail_last)
        record {
          chain = Chain-append written tmp q.head a xs v.distinct away written_next (
              Chain-update q.nodes tmp (record { item = item; next = none }) q.head (a ∷ xs) away
                v.chain);
          distinct = Distinct-append tmp (a ∷ xs) v.distinct away;
          tail_last = ap some (sym (last_or-append a tmp xs));
          counted = ground (arith, v.counted, length-append xs (tmp ∷ []));
          bounded = omega (arith, room, length-append xs (tmp ∷ []));
        }

  items-link_back :
      {xs : List ℕ}
      → Links q xs
      → NotIn tmp xs
      → items (link_back q tmp item).nodes (xs ++ tmp ∷ []) ≡ items q.nodes xs ++ item ∷ []
  unfolding link_back
  items-link_back {xs = []} v away =
      ap (λ t. items (link_behind q tmp written t).nodes (tmp ∷ [])) v.tail_last
      ∙ rw (update_same q.nodes tmp (record { item = item; next = none })) refl
  items-link_back {xs = a ∷ xs} v away =
      ap (λ t. items (link_behind q tmp written t).nodes ((a ∷ xs) ++ tmp ∷ [])) v.tail_last
      ∙ items-relink written (last_or a xs) (some tmp) ((a ∷ xs) ++ tmp ∷ [])
      ∙ items-append written (a ∷ xs) (tmp ∷ [])
      ∙ rw (update_same q.nodes tmp (record { item = item; next = none })) (
          ap (λ is. is ++ item ∷ [])
            (items-update q.nodes tmp (record { item = item; next = none }) (a ∷ xs) away))

-- The list of items after an insertion.
unfoldable pub spec_insert : List ℕ → ℕ → Bool → List ℕ
spec_insert is item front = if front then item ∷ is else is ++ item ∷ []

pub insert-none :
    (q : QueueState) (item : ℕ) (front : Bool) → insert q none item front ≡ (memory_nomem, q)
unfolding insert
insert-none q item front = refl

-- An insertion with a node that is not linked succeeds. The queue then links one node more and
-- its items are the ones before it, with the new item first if it goes to the front, and last if
-- not.
pub insert_refines :
    {q : QueueState} {xs : List ℕ} (tmp item : ℕ) (front : Bool)
    → Links q xs
    → NotIn tmp xs
    → length xs + 1 < 2 ^ 32
    → (q' : QueueState) × (ys : List ℕ) × (insert q (some tmp) item front ≡ (success, q'))
      × Links q' ys
      × (items q'.nodes ys ≡ spec_insert (items q.nodes xs) item front)
      × (length ys ≡ length xs + 1)
unfolding insert spec_insert
insert_refines {q = q} {xs = xs} tmp item true v away room = (
  link_front q tmp item,
  tmp ∷ xs,
  refl,
  link_front-Links q tmp item v away room,
  items-link_front q tmp item xs away,
  omega arith,
)
insert_refines {q = q} {xs = xs} tmp item false v away room = (
  link_back q tmp item,
  xs ++ tmp ∷ [],
  refl,
  link_back-Links q tmp item v away room,
  items-link_back q tmp item v away,
  length-append xs (tmp ∷ []),
)
