-- ===== src/PrioQueue/Refines.antt =====
-- A `PrioQueue` against its abstract view, the items of each priority.
use mathlib.Core.Path.{subst}
use zambesii.Prelude.{
  ℕ, ◌≤◌, ◌<◌, ◌≡◌, ◌≢◌, refl, sym, ap, ◌∙◌, List, [], ◌∷◌, Option, some, ◌==◌, if◌then◌else◌,
  length, length-set, get_elem?, get_or, set, arith, ℕ_discrete, get_elem?-eq-get_or,
  get_elem?-some, get_or-set_self,
}
use zambesii.Prelude.Result.{ok, ◌>>=◌}
use zambesii.PrioQueue.Queue.{QueueState}
use zambesii.PrioQueue.Queue
use zambesii.PrioQueue.Queue.Take.{spec_pop, pop_refines}
use zambesii.PrioQueue.{PrioQueue, no_queue, pop, first_busy}
use zambesii.PrioQueue.Spec.{lowest, lowest-set_same, lowest-none, lowest-some, take_first}
use zambesii.PrioQueue.Search.{
  Holds, AllHold, AllHold-get, AllHold-set, Holds-count, first_busy-lowest,
}

-- The queues hold these items, and the head is the lowest queue with items, or -1. There are at
-- most 32768 priorities, so that their numbers fit the 16 bits of the head.
pub record Represents (pq : PrioQueue) (iss : List (List ℕ)) : Type 0 where
  pub prios : pq.n_prios ≡ length iss
  pub numbered : length iss ≤ 32768
  pub hold : AllHold pq.queues iss
  pub head : pq.head_queue ≡ lowest 0 iss

-- The queue of a priority, with its items.
pub queue_of :
    {pq : PrioQueue} {iss : List (List ℕ)} (v : Represents pq iss) (p : ℕ)
    → p < length iss
    → (q : QueueState) × (get_elem? pq.queues p ≡ some q) × Holds q (get_or iss p [])
queue_of {pq = pq} {iss = iss} v p h =
    AllHold-get pq.queues iss p (get_or iss p []) v.hold (get_elem?-eq-get_or iss p [] h)

-- The next head, after the queue `p` got empty.
pub next_head :
    {pq : PrioQueue} {iss : List (List ℕ)} (v : Represents pq iss) (p : ℕ) (q : QueueState)
    → p < length iss
    → Holds q []
    → first_busy (set pq.queues p q) pq.n_prios 0 p ≡ ok (lowest 0 (set iss p []))
next_head {pq = pq} {iss = iss} v p q h held =
    first_busy-lowest (set pq.queues p q) (set iss p []) pq.n_prios 0 p
      (AllHold-set pq.queues iss p q [] v.hold held) (omega (arith, v.prios, length-set iss p []))
      (λ j e.
        subst (λ (k : ℕ). get_or (set iss p []) k [] ≡ []) (omega (arith, e))
          (get_or-set_self iss p [] [] h))

-- A queue changed, and the head as the search or the change left it.
pub changed :
    {pq : PrioQueue} {iss : List (List ℕ)} (v : Represents pq iss) (p : ℕ) (q : QueueState)
    (is : List ℕ) (head : ℕ)
    → Holds q is
    → head ≡ lowest 0 (set iss p is)
    → Represents (record pq { queues = set pq.queues p q; head_queue = head }) (set iss p is)
changed {pq = pq} {iss = iss} v p q is head held e = record {
  prios = omega (arith, v.prios, length-set iss p is);
  numbered = omega (arith, v.numbered, length-set iss p is);
  hold = AllHold-set pq.queues iss p q is v.hold held;
  head = e;
}

pop_step :
    (pq : PrioQueue) (q q' : QueueState) (item : Option ℕ)
    → pq.head_queue ≢ no_queue
    → get_elem? pq.queues pq.head_queue ≡ some q
    → Queue.pop q ≡ (item, q')
    → pop pq ≡ (
        if q'.n_items == 0
        then (first_busy (set pq.queues pq.head_queue q') pq.n_prios 0 pq.head_queue >>= λ head.
            ok (item, record pq { queues = set pq.queues pq.head_queue q'; head_queue = head }))
        else ok (item, record pq { queues = set pq.queues pq.head_queue q' }))
unfolding pop
pop_step pq q q' item ne at e = ground arith

-- The queue at the head, after its first item is taken.
head_popped :
    {pq : PrioQueue} {iss : List (List ℕ)} (v : Represents pq iss) (x : ℕ) (is : List ℕ)
    → pq.head_queue < length iss
    → get_or iss pq.head_queue [] ≡ x ∷ is
    → (q q' : QueueState) × (get_elem? pq.queues pq.head_queue ≡ some q)
      × (Queue.pop q ≡ (some x, q'))
      × Holds q' is
unfolding spec_pop
head_popped {pq = pq} v x is h e =
    let (q, at, held) = queue_of v pq.head_queue h in
    let (item, q', ys, step, links, same) = pop_refines held.links in
    let found = same ∙ ap spec_pop (held.same ∙ e) in
    (
      q,
      q',
      at,
      step ∙ ap (λ (r : Option ℕ × List ℕ). (r.0, q')) found,
      record { addresses = ys; links = links; same = ap (λ (r : Option ℕ × List ℕ). r.1) found },
    )

pop_at :
    {pq : PrioQueue} {iss : List (List ℕ)} (v : Represents pq iss) (x : ℕ) (is : List ℕ)
    → pq.head_queue < length iss
    → get_or iss pq.head_queue [] ≡ x ∷ is
    → (pq' : PrioQueue) × (pop pq ≡ ok (some x, pq')) × Represents pq' (set iss pq.head_queue is)
pop_at {pq = pq} {iss = iss} v x [] h e =
    let (q, q', at, step, held) = head_popped v x [] h e in
    (
      record pq {
        queues = set pq.queues pq.head_queue q';
        head_queue = lowest 0 (set iss pq.head_queue []);
      },
      pop_step pq q q' (some x) (omega (arith, v.numbered)) at step
          ∙ ground (arith, Holds-count held, next_head v pq.head_queue q' h held),
      changed v pq.head_queue q' [] (lowest 0 (set iss pq.head_queue [])) held refl,
    )
pop_at {pq = pq} {iss = iss} v x (y ∷ is) h e =
    let (q, q', at, step, held) = head_popped v x (y ∷ is) h e in
    (
      record pq { queues = set pq.queues pq.head_queue q' },
      pop_step pq q q' (some x) (omega (arith, v.numbered)) at step
          ∙ ground (arith, Holds-count held),
      changed v pq.head_queue q' (y ∷ is) pq.head_queue held (
          v.head
          ∙ sym (
              lowest-set_same 0 iss pq.head_queue (y ∷ is) (λ none_left. absurd cc)
                (λ _ none_left. cc))),
    )

-- A pop of a queue that represents a list of items for each priority, at most 32768 of these, takes
-- the first item of the lowest priority that has one, or NULL if none has; the queue then represents
-- the lists without that item, with the head on the lowest priority that still has items.
pub pop_refines_take_first :
    {pq : PrioQueue} {iss : List (List ℕ)}
    → Represents pq iss
    → (pq' : PrioQueue) × (pop pq ≡ ok ((take_first iss).0, pq'))
      × Represents pq' (take_first iss).1
unfolding pop
pop_refines_take_first {pq = pq} {iss = iss} v = elim (ℕ_discrete pq.head_queue no_queue) [
  | yes e ↦
      rw (lowest-none 0 iss (omega (arith, v.numbered)) (sym v.head ∙ e)) (pq, ground arith, v)
  | no ne ↦
      let (p, x, is, low, h, e, taken) = lowest-some 0 iss (λ none_left. ne (v.head ∙ none_left)) in
      let at : (p ≡ pq.head_queue) = omega (arith, low, v.head) in
      rw taken (
        subst
          (λ (k : ℕ).
            (pq' : PrioQueue) × (pop pq ≡ ok (some x, pq')) × Represents pq' (set iss k is))
          (sym at)
          (pop_at v x is (omega (arith, h))
            (ap (λ (k : ℕ). get_or iss k []) (sym at) ∙ (get_elem?-some iss p (x ∷ is) [] e).1)))
]
