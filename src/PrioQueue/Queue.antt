-- ===== src/PrioQueue/Queue.antt =====
-- `PrioQueue::Queue`, the queue of one priority: __kcore/include/__kclasses/prioQueue.h. The nodes
-- are a store by address, and `none` is NULL. The store has the nodes of one queue: the node cache
-- hands a free node to one caller. Each operation runs under the lock of the queue.
pub mod Chain
pub mod Insert
pub mod Take
pub mod Remove
use zambesii.Prelude.{
  ℕ, zero, suc, ◌+◌, Bool, true, false, Option, none, some, ◌==◌, if◌then◌else◌, add_uarch,
  sub_uarch,
}
use zambesii.Prelude.Result.{Result, ok, fault, no_rounds, Error, success, memory_nomem}

-- `sQueueNode`
pub record Node : Type 0 where
  pub item : ℕ
  pub next : Option ℕ

-- `sQueueState`
pub record QueueState : Type 0 where
  pub n_items : ℕ
  pub head : Option ℕ
  pub tail : Option ℕ
  pub nodes : ℕ → Node

abbrev pub update : (ℕ → Node) → ℕ → Node → ℕ → Node
update nodes a n b = if b == a then n else nodes b

abbrev pub null_node : Node
null_node = record { item = 0; next = none }

unfoldable pub new_queue : QueueState
new_queue = record { n_items = 0; head = none; tail = none; nodes = λ a. null_node }

abbrev pub same_pointer : Option ℕ → Option ℕ → Bool
same_pointer none none = true
same_pointer none (some b) = false
same_pointer (some a) none = false
same_pointer (some a) (some b) = a == b

-- `front` is the test of PRIOQUEUE_INSERT_FRONT.
pub link_front : QueueState → ℕ → ℕ → QueueState
link_front q tmp item = record {
  n_items = add_uarch q.n_items 1;
  head = some tmp;
  tail = elim q.tail [ none ↦ some tmp | some t ↦ some t ];
  nodes = update q.nodes tmp (record { item = item; next = q.head });
}

-- The links behind the node `tmp`, which is written; `tail` is the tail before.
abbrev pub link_behind : QueueState → ℕ → (ℕ → Node) → Option ℕ → QueueState
link_behind q tmp nodes none = record {
  n_items = add_uarch q.n_items 1;
  head = some tmp;
  tail = some tmp;
  nodes = nodes;
}
link_behind q tmp nodes (some t) = record {
  n_items = add_uarch q.n_items 1;
  head = q.head;
  tail = some tmp;
  nodes = update nodes t (record { item = (nodes t).item; next = some tmp });
}

pub link_back : QueueState → ℕ → ℕ → QueueState
link_back q tmp item =
    link_behind q tmp (update q.nodes tmp (record { item = item; next = none })) q.tail

-- `node` is what the node cache returns.
pub insert : QueueState → Option ℕ → ℕ → Bool → Error × QueueState
insert q none item front = (memory_nomem, q)
insert q (some tmp) item front =
    (success, if front then link_front q tmp item else link_back q tmp item)

pub pop : QueueState → Option ℕ × QueueState
pop q =
    let tail : Option ℕ = if same_pointer q.head q.tail then none else q.tail in
    elim q.head [
      | none ↦ (none, record q { tail = tail })
      | some tmp ↦ (
        some (q.nodes tmp).item,
        record q { head = (q.nodes tmp).next; tail = tail; n_items = sub_uarch q.n_items 1 },
      )
    ]

-- The body of the loop of `remove`, at the node `tmp` that has the item.
pub unlink : QueueState → Option ℕ → ℕ → QueueState
unlink q prev tmp =
    let next : Option ℕ = (q.nodes tmp).next in
    record {
      n_items = sub_uarch q.n_items 1;
      head = elim prev [ none ↦ next | some p ↦ q.head ];
      tail = elim next [ none ↦ prev | some n ↦ q.tail ];
      nodes = elim prev [
        | none ↦ q.nodes
        | some p ↦ update q.nodes p (record { item = (q.nodes p).item; next = next })
      ];
    }

-- The loop of `remove` with at most `fuel` rounds, which are enough if the links have no more.
pub remove_from : QueueState → ℕ → Option ℕ → Option ℕ → ℕ → Result QueueState
remove_from q zero prev tmp item = fault no_rounds
remove_from q (suc fuel) prev none item = ok q
remove_from q (suc fuel) prev (some tmp) item =
    let rest : Result QueueState = remove_from q fuel (some tmp) (q.nodes tmp).next item in
    if (q.nodes tmp).item == item then ok (unlink q prev tmp) else rest

-- The rounds are one more than the items.
pub remove : QueueState → ℕ → Result QueueState
remove q item = remove_from q (suc q.n_items) none q.head item

pub find_from : QueueState → ℕ → Option ℕ → ℕ → Result Bool
find_from q zero tmp item = fault no_rounds
find_from q (suc fuel) none item = ok false
find_from q (suc fuel) (some tmp) item =
    let rest : Result Bool = find_from q fuel (q.nodes tmp).next item in
    if (q.nodes tmp).item == item then ok true else rest

pub find : QueueState → ℕ → Result Bool
find q item = find_from q (suc q.n_items) q.head item
