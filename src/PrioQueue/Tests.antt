-- ===== src/PrioQueue/Tests.antt =====
-- A queue of three priorities.
use Prim.{tt}
use zambesii.Prelude.{
  ℕ, ◌≡◌, refl, sym, ap, List, [], ◌∷◌, none, some, true, false, arith, replicate,
}
use zambesii.Prelude.Result.{ok, success}
use mathlib.Core.Path.{subst}
use zambesii.PrioQueue.Queue.{QueueState, update, null_node}
use zambesii.PrioQueue.Queue.Chain.{Links, NotIn}
use zambesii.PrioQueue.Queue.Insert.{spec_insert}
use zambesii.Prelude.{remove_first}
use zambesii.PrioQueue.{PrioQueue, no_queue, new, initialize, insert, pop, remove, find}
use zambesii.PrioQueue.Spec.{take_first}
use zambesii.PrioQueue.Search.{Holds}
use zambesii.PrioQueue.Refines.{Represents, pop_refines_take_first}
use zambesii.PrioQueue.Init.{initialize-Represents}
use zambesii.PrioQueue.Updates.{
  Fresh, spec_put, insert_refines_spec_put, remove_refines_remove_first, find_refines_member_any,
}

abbrev empty_queue : QueueState
empty_queue = record { n_items = 0; head = none; tail = none; nodes = λ a. null_node }

-- The items 70 and 80 in the nodes 1 and 2.
abbrev two_items : QueueState
two_items = record {
  n_items = 2;
  head = some 1;
  tail = some 2;
  nodes =
      update (update (λ a. null_node) 2 (record { item = 80; next = none })) 1
        (record { item = 70; next = some 2 });
}

abbrev busy_second : PrioQueue
busy_second = record {
  n_prios = 3;
  queues = empty_queue ∷ two_items ∷ empty_queue ∷ [];
  head_queue = 1;
}

abbrev second_items : List (List ℕ)
second_items = [] ∷ (70 ∷ 80 ∷ []) ∷ [] ∷ []

empty_queue-Holds : Holds empty_queue []
empty_queue-Holds = record {
  addresses = [];
  links = record {
    chain = refl;
    distinct = tt;
    tail_last = refl;
    counted = refl;
    bounded = omega arith;
  };
  same = refl;
}

two_items-Holds : Holds two_items (70 ∷ 80 ∷ [])
two_items-Holds = record {
  addresses = 1 ∷ 2 ∷ [];
  links = record {
    chain = (refl, (refl, refl));
    distinct = (((λ e. absurd (omega (arith, e))), tt), (tt, tt));
    tail_last = refl;
    counted = refl;
    bounded = omega arith;
  };
  same = refl;
}

busy_second-Represents : Represents busy_second second_items
busy_second-Represents = record {
  prios = refl;
  numbered = omega arith;
  hold = (empty_queue-Holds, (two_items-Holds, (empty_queue-Holds, tt)));
  head = refl;
}

pop_refines_take_first_example :
    (pq' : PrioQueue) × (pop busy_second ≡ ok (some 70, pq'))
    × Represents pq' ([] ∷ (80 ∷ []) ∷ [] ∷ [])
unfolding take_first
pop_refines_take_first_example = pop_refines_take_first busy_second-Represents

remove_refines_remove_first_example :
    (pq' : PrioQueue) × (remove busy_second 80 1 ≡ ok pq')
    × Represents pq' ([] ∷ (70 ∷ []) ∷ [] ∷ [])
unfolding remove_first
remove_refines_remove_first_example =
    remove_refines_remove_first 80 1 busy_second-Represents (omega arith)

find_refines_member_any_example : find busy_second 80 ≡ ok true
find_refines_member_any_example = find_refines_member_any 80 busy_second-Represents

-- Nothing links a node in an empty queue.
nothing_linked : (node : ℕ) (xs : List ℕ) → Links empty_queue xs → NotIn node xs
nothing_linked node [] links = tt
nothing_linked node (a ∷ xs) links = absurd (omega (arith, links.counted))

five-Fresh : Fresh busy_second 0 5
five-Fresh q e xs links =
    nothing_linked 5 xs
      (subst (λ q. Links q xs) (ap (λ o. elim o [ none ↦ q | some r ↦ r ]) (sym e)) links)

given-Fresh : (a : ℕ) → some 5 ≡ some a → Fresh busy_second 0 a
given-Fresh a e =
    subst (Fresh busy_second 0) (ap (λ o. elim o [ none ↦ 5 | some r ↦ r ]) e) five-Fresh

insert_refines_spec_put_example :
    (pq' : PrioQueue) × (insert busy_second (some 5) 90 0 false ≡ ok (success, pq'))
    × Represents pq' ((90 ∷ []) ∷ (70 ∷ 80 ∷ []) ∷ [] ∷ [])
unfolding spec_put spec_insert
insert_refines_spec_put_example =
    insert_refines_spec_put (some 5) 90 0 false busy_second-Represents given-Fresh (omega arith)

initialize-Represents_example :
    (pq : PrioQueue) × (initialize (new 3) true true ≡ (success, pq))
    × (pq.head_queue ≡ no_queue)
    × Represents pq (replicate 3 [])
initialize-Represents_example = initialize-Represents 3 (omega arith)
