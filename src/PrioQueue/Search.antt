-- ===== src/PrioQueue/Search.antt =====
-- The queues of a `PrioQueue` with their items, and the search for the head.
use Prim.{Unit}
use mathlib.Core.Path.{subst}
use zambesii.Prelude.{
  ℕ, zero, suc, ◌+◌, ◌≡◌, inl, inr, refl, sym, ap, ◌∙◌, List, [], ◌∷◌, none, some, Bool, true,
  false, if◌then◌else◌, length, get_elem?, get_or, set, arith, ℕ_discrete, Bool-cases,
}
use zambesii.Prelude.Result.{ok}
use zambesii.PrioQueue.Queue.{QueueState}
use zambesii.PrioQueue.Queue
use zambesii.PrioQueue.Queue.Chain.{items, Links}
use zambesii.PrioQueue.Queue.Take.{member, find_refines}
use zambesii.PrioQueue.{first_busy, find_in}
use zambesii.PrioQueue.Spec.{lowest}

-- The queue links nodes with these items.
pub record Holds (q : QueueState) (is : List ℕ) : Type 0 where
  pub addresses : List ℕ
  pub links : Links q addresses
  pub same : items q.nodes addresses ≡ is

abbrev pub AllHold : List QueueState → List (List ℕ) → Type 0
AllHold [] [] = Unit {0}
AllHold [] (is ∷ iss) = ⊥
AllHold (q ∷ queues) [] = ⊥
AllHold (q ∷ queues) (is ∷ iss) = Holds q is × AllHold queues iss

pub AllHold-get :
    (queues : List QueueState) (iss : List (List ℕ)) (p : ℕ) (is : List ℕ)
    → AllHold queues iss
    → get_elem? iss p ≡ some is
    → (q : QueueState) × (get_elem? queues p ≡ some q) × Holds q is
AllHold-get [] [] p is a e = cc
AllHold-get [] (js ∷ iss) p is a e = absurd a
AllHold-get (q ∷ queues) [] p is a e = absurd a
AllHold-get (q ∷ queues) (js ∷ iss) zero is (h, a) e =
    (q, refl, subst (λ ks. Holds q ks) (ap (λ o. elim o [ none ↦ js | some ks ↦ ks ]) e) h)
AllHold-get (q ∷ queues) (js ∷ iss) (suc p) is (h, a) e = AllHold-get queues iss p is a e

pub AllHold-set :
    (queues : List QueueState) (iss : List (List ℕ)) (p : ℕ) (q : QueueState) (is : List ℕ)
    → AllHold queues iss
    → Holds q is
    → AllHold (set queues p q) (set iss p is)
AllHold-set [] [] p q is a h = a
AllHold-set [] (js ∷ iss) p q is a h = absurd a
AllHold-set (r ∷ queues) [] p q is a h = absurd a
AllHold-set (r ∷ queues) (js ∷ iss) zero q is (_, a) h = (h, a)
AllHold-set (r ∷ queues) (js ∷ iss) (suc p) q is (g, a) h = (g, AllHold-set queues iss p q is a h)

length-items : (nodes : ℕ → Queue.Node) (xs : List ℕ) → length (items nodes xs) ≡ length xs
length-items nodes [] = refl
length-items nodes (a ∷ xs) = ap suc (length-items nodes xs)

pub Holds-count : {q : QueueState} {is : List ℕ} → Holds q is → q.n_items ≡ length is
Holds-count {q = q} h = h.links.counted ∙ sym (length-items q.nodes h.addresses) ∙ ap length h.same

-- The search gives the lowest queue with items, if the one left out has none.
pub first_busy-lowest :
    (queues : List QueueState) (iss : List (List ℕ)) (rounds i skip : ℕ)
    → AllHold queues iss
    → rounds ≡ length iss
    → ((j : ℕ) → i + j ≡ skip → get_or iss j [] ≡ [])
    → first_busy queues rounds i skip ≡ ok (lowest i iss)
unfolding first_busy
first_busy-lowest [] [] zero i skip a r empty = refl
first_busy-lowest [] [] (suc rounds) i skip a r empty = absurd (omega arith)
first_busy-lowest [] (is ∷ iss) rounds i skip a r empty = absurd a
first_busy-lowest (q ∷ queues) [] rounds i skip a r empty = absurd a
first_busy-lowest (q ∷ queues) (is ∷ iss) zero i skip a r empty = absurd (omega arith)
first_busy-lowest (q ∷ queues) ([] ∷ iss) (suc rounds) i skip (h, a) r empty = ground (
  arith,
  Holds-count h,
  first_busy-lowest queues iss rounds (i + 1) skip a (omega (arith, r))
      (λ j e. empty (suc j) (omega (arith, e))),
)
first_busy-lowest (q ∷ queues) ((x ∷ is) ∷ iss) (suc rounds) i skip (h, a) r empty =
    elim (ℕ_discrete i skip) [
      | yes e ↦ (let none_left : x ∷ is ≡ [] = empty 0 (omega arith) in absurd cc)
      | no ne ↦ ground (arith, Holds-count h)
    ]

-- Whether some priority has the item.
abbrev pub member_any : ℕ → List (List ℕ) → Bool
member_any item [] = false
member_any item (is ∷ iss) = if member item is then true else member_any item iss

pub find_in-member_any :
    (queues : List QueueState) (iss : List (List ℕ)) (rounds item : ℕ)
    → AllHold queues iss
    → rounds ≡ length iss
    → find_in queues rounds item ≡ ok (member_any item iss)
unfolding find_in
find_in-member_any [] [] zero item a r = refl
find_in-member_any [] [] (suc rounds) item a r = absurd (omega arith)
find_in-member_any [] (is ∷ iss) rounds item a r = absurd a
find_in-member_any (q ∷ queues) [] rounds item a r = absurd a
find_in-member_any (q ∷ queues) (is ∷ iss) zero item a r = absurd (omega arith)
find_in-member_any (q ∷ queues) (is ∷ iss) (suc rounds) item (h, a) r =
    rw
      (
        find_refines item h.links,
        h.same,
        find_in-member_any queues iss rounds item a (omega (arith, r)),
      )
      (elim (Bool-cases (member item is)) [ inl e ↦ rw e refl | inr e ↦ rw e refl ])
