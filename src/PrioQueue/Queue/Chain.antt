-- ===== src/PrioQueue/Queue/Chain.antt =====
-- The nodes that a queue of the source links, as the list of their addresses.
use zambesii.Prelude.{
  ℕ, ◌<◌, ◌^◌, ◌≡◌, ◌≢◌, refl, List, [], ◌∷◌, Option, none, some, length, arith, ℕ_discrete,
}
pub use zambesii.Prelude.Distinct.{
  NotIn, Distinct, last_or, last, NotIn-last, NotIn-append, Distinct-append,
}
use zambesii.PrioQueue.Queue.{Node, QueueState, update}

-- From the pointer `p` on, the links go through `as` and end.
abbrev pub Chain : (ℕ → Node) → Option ℕ → List ℕ → Type 0
Chain nodes p [] = p ≡ none
Chain nodes p (a ∷ xs) = (p ≡ some a) × Chain nodes (nodes a).next xs

-- The items of the nodes at these addresses.
abbrev pub items : (ℕ → Node) → List ℕ → List ℕ
items nodes [] = []
items nodes (a ∷ xs) = (nodes a).item ∷ items nodes xs

-- The queue links the nodes at these addresses, and its fields agree with that.
pub record Links (q : QueueState) (xs : List ℕ) : Type 0 where
  pub chain : Chain q.nodes q.head xs
  pub distinct : Distinct xs
  pub tail_last : q.tail ≡ last xs
  pub counted : q.n_items ≡ length xs
  pub bounded : length xs < 2 ^ 32

pub update_same : (nodes : ℕ → Node) (a : ℕ) (n : Node) → update nodes a n a ≡ n
update_same nodes a n = ground arith

pub update_other : (nodes : ℕ → Node) (a b : ℕ) (n : Node) → a ≢ b → update nodes a n b ≡ nodes b
update_other nodes a b n h = ground arith

pub Chain-update :
    (nodes : ℕ → Node) (a : ℕ) (n : Node) (p : Option ℕ) (xs : List ℕ)
    → NotIn a xs
    → Chain nodes p xs
    → Chain (update nodes a n) p xs
Chain-update nodes a n p [] away c = c
Chain-update nodes a n p (b ∷ xs) (ne, away) (e, c) = (
  e,
  Chain-update nodes a n (update nodes a n b).next xs away (rw (update_other nodes a b n ne) c),
)

pub items-update :
    (nodes : ℕ → Node) (a : ℕ) (n : Node) (xs : List ℕ)
    → NotIn a xs
    → items (update nodes a n) xs ≡ items nodes xs
items-update nodes a n [] away = refl
items-update nodes a n (b ∷ xs) (ne, away) =
    rw (update_other nodes a b n ne, items-update nodes a n xs away) refl

-- A new link in a node leaves its item.
pub item-relink :
    (nodes : ℕ → Node) (a : ℕ) (next : Option ℕ) (b : ℕ)
    → (update nodes a (record { item = (nodes a).item; next = next }) b).item ≡ (nodes b).item
item-relink nodes a next b = elim (ℕ_discrete b a) [ yes e ↦ ground arith | no ne ↦ ground arith ]

pub items-relink :
    (nodes : ℕ → Node) (a : ℕ) (next : Option ℕ) (xs : List ℕ)
    → items (update nodes a (record { item = (nodes a).item; next = next })) xs ≡ items nodes xs
items-relink nodes a next [] = refl
items-relink nodes a next (b ∷ xs) =
    rw (item-relink nodes a next b, items-relink nodes a next xs) refl
