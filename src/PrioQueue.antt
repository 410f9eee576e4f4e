-- ===== src/PrioQueue.antt =====
-- `PrioQueue`, a queue with priorities, of which 0 is served first:
-- __kcore/include/__kclasses/prioQueue.h. Each operation is one step. The source takes the lock of
-- a queue and that of the head one after the other: the steps of two threads that do this at once
-- are not interleaved here.
pub mod Queue
pub mod Spec
pub mod Search
pub mod Refines
pub mod Updates
pub mod Init
mod Tests
use zambesii.Prelude.{
  ℕ, zero, suc, ◌+◌, Bool, true, false, ◌&&◌, ◌||◌, List, [], ◌∷◌, Option, none, some, ltb, leb,
  ◌==◌, if◌then◌else◌, get_elem?, set, replicate,
}
use zambesii.Prelude.Result.{
  Result, ok, fault, wild_access, Error, success, memory_nomem, invalid_arg_val, is_success, ◌>>=◌,
}
use zambesii.PrioQueue.Queue.{QueueState, new_queue}
use zambesii.PrioQueue.Queue

-- `headQueue` is an `sbit16`: the 16 bits of it.
pub record PrioQueue : Type 0 where
  pub n_prios : ℕ
  pub queues : List QueueState
  pub head_queue : ℕ

-- -1
abbrev pub no_queue : ℕ
no_queue = 65535

pub new : ℕ → PrioQueue
new n_priorities = record { n_prios = n_priorities; queues = []; head_queue = no_queue }

-- Whether the node cache and the array are given.
pub initialize : PrioQueue → Bool → Bool → Error × PrioQueue
initialize pq cache array =
    if cache && array
    then (success, record pq { queues = replicate pq.n_prios new_queue })
    else (memory_nomem, pq)

-- The comparisons of a `ubit16` with the head, as `int`s.
abbrev pub below_head : ℕ → ℕ → Bool
below_head prio head = ltb head 32768 && ltb prio head

abbrev pub is_head : ℕ → ℕ → Bool
is_head prio head = ltb head 32768 && prio == head

-- A read of `queues[i]`
abbrev pub queue_at : PrioQueue → ℕ → Result QueueState
queue_at pq i = elim (get_elem? pq.queues i) [ none ↦ fault wild_access | some q ↦ ok q ]

pub insert : PrioQueue → Option ℕ → ℕ → ℕ → Bool → Result (Error × PrioQueue)
insert pq node item prio front =
    if leb pq.n_prios prio
    then ok (invalid_arg_val, pq)
    else (queue_at pq prio >>= λ q.
        let (ret, q') = Queue.insert q node item front in
        let queues : List QueueState = set pq.queues prio q' in
        if is_success ret
        then ok (
          success,
          record pq {
            queues = queues;
            head_queue =
                if pq.head_queue == no_queue || below_head prio pq.head_queue
                then prio
                else pq.head_queue;
          },
        )
        else ok (ret, record pq { queues = queues }))

-- The loops of `pop` and `remove` that look for the next head, with `rounds` queues left, the first
-- of them `i`, and `skip` left out.
pub first_busy : List QueueState → ℕ → ℕ → ℕ → Result ℕ
first_busy queues zero i skip = ok no_queue
first_busy [] (suc rounds) i skip = fault wild_access
first_busy (q ∷ queues) (suc rounds) i skip =
    let rest : Result ℕ = first_busy queues rounds (i + 1) skip in
    if i == skip then rest else if ltb 0 q.n_items then ok i else rest

pub pop : PrioQueue → Result (Option ℕ × PrioQueue)
pop pq =
    if pq.head_queue == no_queue
    then ok (none, pq)
    else (queue_at pq pq.head_queue >>= λ q.
        let (ret, q') = Queue.pop q in
        let queues : List QueueState = set pq.queues pq.head_queue q' in
        if q'.n_items == 0
        then (first_busy queues pq.n_prios 0 pq.head_queue >>= λ head.
            ok (ret, record pq { queues = queues; head_queue = head }))
        else ok (ret, record pq { queues = queues }))

pub remove : PrioQueue → ℕ → ℕ → Result PrioQueue
remove pq item prio = queue_at pq prio >>= λ q. Queue.remove q item >>= λ q'.
    let queues : List QueueState = set pq.queues prio q' in
    if is_head prio pq.head_queue && q'.n_items == 0
    then (first_busy queues pq.n_prios 0 prio >>= λ head.
        ok (record pq { queues = queues; head_queue = head }))
    else ok (record pq { queues = queues })

-- The loop of `find` with `rounds` queues left.
pub find_in : List QueueState → ℕ → ℕ → Result Bool
find_in queues zero item = ok false
find_in [] (suc rounds) item = fault wild_access
find_in (q ∷ queues) (suc rounds) item =
    let rest : Result Bool = find_in queues rounds item in
    Queue.find q item >>= λ found. if found then ok true else rest

pub find : PrioQueue → ℕ → Result Bool
find pq item = find_in pq.queues pq.n_prios item
