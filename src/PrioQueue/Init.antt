-- ===== src/PrioQueue/Init.antt =====
-- `PrioQueue::initialize`: the new queues.
use Prim.{tt}
use zambesii.Prelude.{
  ℕ, zero, suc, ◌+◌, ◌≤◌, ◌≡◌, refl, List, [], true, replicate, length-replicate, arith,
}
use zambesii.Prelude.Result.{success}
use zambesii.PrioQueue.Queue.{new_queue}
use zambesii.PrioQueue.{PrioQueue, no_queue, new, initialize}
use zambesii.PrioQueue.Spec.{lowest}
use zambesii.PrioQueue.Search.{Holds, AllHold}
use zambesii.PrioQueue.Refines.{Represents}

new_queue-Holds : Holds new_queue []
unfolding new_queue
new_queue-Holds = record {
  addresses = [];
  links = record {
    chain = refl;
    distinct = tt;
    tail_last = refl;
    counted = refl;
    bounded = omega arith;
  };
  same = refl;
}

AllHold-replicate : (n : ℕ) → AllHold (replicate n new_queue) (replicate n [])
AllHold-replicate zero = tt
AllHold-replicate (suc n) = (new_queue-Holds, AllHold-replicate n)

lowest-replicate : (i n : ℕ) → lowest i (replicate n []) ≡ no_queue
lowest-replicate i zero = refl
lowest-replicate i (suc n) = lowest-replicate (i + 1) n

-- A queue of at most 32768 priorities that gets its node cache and its array starts with no items
-- in any priority and with no head.
pub initialize-Represents :
    (n : ℕ)
    → n ≤ 32768
    → (pq : PrioQueue) × (initialize (new n) true true ≡ (success, pq))
      × (pq.head_queue ≡ no_queue)
      × Represents pq (replicate n [])
unfolding initialize new
initialize-Represents n h = (
  record { n_prios = n; queues = replicate n new_queue; head_queue = no_queue },
  refl,
  refl,
  record {
    prios = ground (arith, length-replicate {A = List ℕ} n []);
    numbered = omega (arith, length-replicate {A = List ℕ} n [], h);
    hold = AllHold-replicate n;
    head = ground (arith, lowest-replicate 0 n);
  },
)
