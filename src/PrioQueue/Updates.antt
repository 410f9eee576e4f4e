-- ===== src/PrioQueue/Updates.antt =====
-- `insert`, `remove` and `find` of a `PrioQueue` against its abstract view.
use mathlib.Core.Path.{subst}
use zambesii.Prelude.{
  ℕ, ◌+◌, ◌≤◌, ◌<◌, ◌^◌, ◌≡◌, inl, inr, refl, sym, ap, ◌∙◌, List, [], ◌∷◌, ◌++◌, Option, none, some,
  Bool, true, false, ◌&&◌, ◌||◌, ◌==◌, ltb, leb, if◌then◌else◌, length, get_elem?, get_or, set,
  set-get_or, arith, ℕ_discrete, dec_lt, remove_first,
}
use zambesii.Prelude.Result.{ok, Error, success, invalid_arg_val, memory_nomem, is_success, ◌>>=◌}
use zambesii.PrioQueue.Queue.{QueueState}
use zambesii.PrioQueue.Queue
use zambesii.PrioQueue.Queue.Chain.{Links, NotIn}
use zambesii.PrioQueue.Queue.Insert.{spec_insert, insert_refines, insert-none}
use zambesii.PrioQueue.Queue.Remove.{remove_refines}
use zambesii.PrioQueue.{PrioQueue, no_queue, is_head, below_head, insert, remove, find, first_busy}
use zambesii.PrioQueue.Spec.{lowest, lowest_bound, lowest-set_items, lowest-set_same}
use zambesii.PrioQueue.Search.{Holds, Holds-count, member_any, find_in-member_any}
use zambesii.PrioQueue.Refines.{Represents, queue_of, next_head, changed}

after_removal :
    {pq : PrioQueue} {iss : List (List ℕ)} (v : Represents pq iss) (p : ℕ) (q : QueueState)
    (is : List ℕ)
    → p < length iss
    → Holds q is
    → (get_or iss p [] ≡ [] → is ≡ [])
    → (pq' : PrioQueue) × ((if is_head p pq.head_queue && q.n_items == 0
          then (first_busy (set pq.queues p q) pq.n_prios 0 p >>= λ head.
              ok (record pq { queues = set pq.queues p q; head_queue = head }))
          else ok (record pq { queues = set pq.queues p q }))
        ≡ ok pq')
      × Represents pq' (set iss p is)
after_removal {pq = pq} {iss = iss} v p q (y ∷ is) h held same = (
  record pq { queues = set pq.queues p q },
  ground (arith, Holds-count held),
  changed v p q (y ∷ is) pq.head_queue held
      (v.head ∙ sym (lowest-set_same 0 iss p (y ∷ is) same (λ _ none_left. cc))),
)
after_removal {pq = pq} {iss = iss} v p q [] h held same = elim (ℕ_discrete p pq.head_queue) [
  | yes e ↦ (
    record pq { queues = set pq.queues p q; head_queue = lowest 0 (set iss p []) },
    ground (arith, Holds-count held, next_head v p q h held, v.numbered),
    changed v p q [] (lowest 0 (set iss p [])) held refl,
  )
  | no ne ↦ (
    record pq { queues = set pq.queues p q },
    ground (arith, Holds-count held),
    changed v p q [] pq.head_queue held (
        v.head
        ∙ sym (lowest-set_same 0 iss p [] same (λ low. absurd (ne (omega (arith, low, v.head)))))),
  )
]

remove_first-nil : (item : ℕ) (is : List ℕ) → is ≡ [] → remove_first item is ≡ []
unfolding remove_first
remove_first-nil item is e = rw e refl

remove_step :
    (pq : PrioQueue) (item prio : ℕ) (q q' : QueueState)
    → get_elem? pq.queues prio ≡ some q
    → Queue.remove q item ≡ ok q'
    → remove pq item prio ≡ (
        if is_head prio pq.head_queue && q'.n_items == 0
        then (first_busy (set pq.queues prio q') pq.n_prios 0 prio >>= λ head.
            ok (record pq { queues = set pq.queues prio q'; head_queue = head }))
        else ok (record pq { queues = set pq.queues prio q' }))
unfolding remove
remove_step pq item prio q q' at e = ground arith

-- A removal by a priority that the queue has takes the first such item out of the list of that
-- priority, if the item is there, and leaves the other lists; the walk along the links ends, and the
-- queue represents the lists that are left.
pub remove_refines_remove_first :
    {pq : PrioQueue} {iss : List (List ℕ)} (item prio : ℕ)
    → Represents pq iss
    → prio < length iss
    → (pq' : PrioQueue) × (remove pq item prio ≡ ok pq')
      × Represents pq' (set iss prio (remove_first item (get_or iss prio [])))
remove_refines_remove_first {pq = pq} {iss = iss} item prio v h =
    let (q, at, held) = queue_of v prio h in
    let (q', ys, step, links, same) = remove_refines item held.links in
    let held' : Holds q' (remove_first item (get_or iss prio [])) = record {
      addresses = ys;
      links = links;
      same = same ∙ ap (remove_first item) held.same;
    } in
    let (pq', same_step, represents) =
      after_removal v prio q' (remove_first item (get_or iss prio [])) h held'
        (remove_first-nil item (get_or iss prio [])) in
    (pq', remove_step pq item prio q q' at step ∙ same_step, represents)

-- A search in a queue that represents a list of items for each priority ends, and it finds an item
-- exactly if one of the lists has it.
pub find_refines_member_any :
    {pq : PrioQueue} {iss : List (List ℕ)} (item : ℕ)
    → Represents pq iss
    → find pq item ≡ ok (member_any item iss)
unfolding find
find_refines_member_any {pq = pq} {iss = iss} item v =
    find_in-member_any pq.queues iss pq.n_prios item v.hold v.prios

-- No queue of this priority links the node.
abbrev pub Fresh : PrioQueue → ℕ → ℕ → Type 0
Fresh pq prio alloc =
    (q : QueueState)
    → get_elem? pq.queues prio ≡ some q
    → (xs : List ℕ) → Links q xs
    → NotIn alloc xs

unfoldable pub spec_put : List (List ℕ) → Option ℕ → ℕ → ℕ → Bool → Error × List (List ℕ)
spec_put iss alloc item prio front =
    if leb (length iss) prio then (invalid_arg_val, iss) else elim alloc [
      | none ↦ (memory_nomem, iss)
      | some a ↦ (success, set iss prio (spec_insert (get_or iss prio []) item front))
    ]

spec_insert-cons :
    (is : List ℕ) (item : ℕ) (front : Bool)
    → (x : ℕ) × (js : List ℕ) × (spec_insert is item front ≡ x ∷ js)
unfolding spec_insert
spec_insert-cons is item true = (item, is, refl)
spec_insert-cons [] item false = (item, [], refl)
spec_insert-cons (x ∷ is) item false = (x, is ++ item ∷ [], refl)

-- The head after the queue `p` got items.
head_put :
    {pq : PrioQueue} {iss : List (List ℕ)} (v : Represents pq iss) (p item : ℕ) (front : Bool)
    → p < length iss
    → (if pq.head_queue == no_queue || (ltb pq.head_queue 32768 && ltb p pq.head_queue)
        then p
        else pq.head_queue)
      ≡ lowest 0 (set iss p (spec_insert (get_or iss p []) item front))
head_put {pq = pq} {iss = iss} v p item front h =
    let (x, js, e) = spec_insert-cons (get_or iss p []) item front in
    rw e (elim (lowest_bound 0 iss) [
      | inl none_yet ↦
          ground (arith, v.head, lowest-set_items 0 iss p x js h (omega (arith, v.numbered)))
      | inr (_, below) ↦
          ground
            (arith, v.head, v.numbered, lowest-set_items 0 iss p x js h (omega (arith, v.numbered)))
    ])

insert_step :
    (pq : PrioQueue) (alloc : Option ℕ) (item prio : ℕ) (front : Bool) (ret : Error)
    (q q' : QueueState)
    → prio < pq.n_prios
    → get_elem? pq.queues prio ≡ some q
    → Queue.insert q alloc item front ≡ (ret, q')
    → insert pq alloc item prio front ≡ (
        if is_success ret
        then ok (
          success,
          record pq {
            queues = set pq.queues prio q';
            head_queue =
                if pq.head_queue == no_queue || below_head prio pq.head_queue
                then prio
                else pq.head_queue;
          },
        )
        else ok (ret, record pq { queues = set pq.queues prio q' }))
unfolding insert
insert_step pq alloc item prio front ret q q' h at e = ground arith

spec_put_beyond :
    (iss : List (List ℕ)) (alloc : Option ℕ) (item prio : ℕ) (front : Bool)
    → length iss ≤ prio
    → spec_put iss alloc item prio front ≡ (invalid_arg_val, iss)
unfolding spec_put
spec_put_beyond iss alloc item prio front h = ground arith

spec_put-none :
    (iss : List (List ℕ)) (item prio : ℕ) (front : Bool)
    → prio < length iss
    → spec_put iss none item prio front ≡ (memory_nomem, iss)
unfolding spec_put
spec_put-none iss item prio front h = ground arith

spec_put-some :
    (iss : List (List ℕ)) (a item prio : ℕ) (front : Bool)
    → prio < length iss
    → spec_put iss (some a) item prio front
      ≡ (success, set iss prio (spec_insert (get_or iss prio []) item front))
unfolding spec_put
spec_put-some iss a item prio front h = ground arith

insert_beyond :
    (pq : PrioQueue) (alloc : Option ℕ) (item prio : ℕ) (front : Bool)
    → pq.n_prios ≤ prio
    → insert pq alloc item prio front ≡ ok (invalid_arg_val, pq)
unfolding insert
insert_beyond pq alloc item prio front h = ground arith

insert_accepted :
    {pq : PrioQueue} {iss : List (List ℕ)} (alloc : Option ℕ) (item prio : ℕ) (front : Bool)
    → Represents pq iss
    → prio < length iss
    → ((a : ℕ) → alloc ≡ some a → Fresh pq prio a)
    → length (get_or iss prio []) + 1 < 2 ^ 32
    → (pq' : PrioQueue) × (insert pq alloc item prio front
        ≡ ok ((spec_put iss alloc item prio front).0, pq'))
      × Represents pq' (spec_put iss alloc item prio front).1
insert_accepted {pq = pq} {iss = iss} none item prio front v h fresh room =
    let (q, at, held) = queue_of v prio h in
    rw (spec_put-none iss item prio front h) (
      record pq { queues = set pq.queues prio q },
      insert_step pq none item prio front memory_nomem q q (omega (arith, v.prios)) at
          (insert-none q item front),
      subst (Represents (record pq { queues = set pq.queues prio q })) (set-get_or iss prio []) (
          changed v prio q (get_or iss prio []) pq.head_queue held
            (v.head ∙ ap (lowest 0) (sym (set-get_or iss prio [])))),
    )
insert_accepted {pq = pq} {iss = iss} (some a) item prio front v h fresh room =
    let (q, at, held) = queue_of v prio h in
    let (q', ys, step, links, same, _) =
      insert_refines a item front held.links (fresh a refl q at held.addresses held.links)
        (omega (arith, room, held.links.counted, Holds-count held)) in
    rw (spec_put-some iss a item prio front h) (
      record pq {
        queues = set pq.queues prio q';
        head_queue =
            if pq.head_queue == no_queue || below_head prio pq.head_queue
            then prio
            else pq.head_queue;
      },
      insert_step pq (some a) item prio front success q q' (omega (arith, v.prios)) at step,
      changed v prio q' (spec_insert (get_or iss prio []) item front) _
          (record {
            addresses = ys;
            links = links;
            same = same ∙ ap (λ is. spec_insert is item front) held.same;
          })
          (head_put v prio item front h),
    )

-- An insertion refuses a priority past the last one and fails without a node, and then the queue
-- represents the lists that it did. Otherwise the item becomes the first or the last one of the list
-- of its priority, and the queue represents that. The conditions: the node that the cache gives is
-- none that the queue of the priority links, and this holds fewer than 2 ^ 32 - 1 items.
pub insert_refines_spec_put :
    {pq : PrioQueue} {iss : List (List ℕ)} (alloc : Option ℕ) (item prio : ℕ) (front : Bool)
    → Represents pq iss
    → ((a : ℕ) → alloc ≡ some a → Fresh pq prio a)
    → length (get_or iss prio []) + 1 < 2 ^ 32
    → (pq' : PrioQueue) × (insert pq alloc item prio front
        ≡ ok ((spec_put iss alloc item prio front).0, pq'))
      × Represents pq' (spec_put iss alloc item prio front).1
insert_refines_spec_put {pq = pq} {iss = iss} alloc item prio front v fresh room =
    elim (dec_lt prio (length iss)) [
      | no beyond ↦
          rw (spec_put_beyond iss alloc item prio front (omega arith))
            (pq, insert_beyond pq alloc item prio front (omega (arith, v.prios)), v)
      | yes h ↦ insert_accepted alloc item prio front v h fresh room
    ]
