-- ===== src/FrameCache/Stack.antt =====
-- A `CacheStack` behaves as a bounded list of items, the last pushed first.
use native.Mathlib.Numerals.{add-one}
use zambesii.Prelude.{
  ℕ, ◌+◌, ◌-◌, ◌≤◌, ◌≡◌, ◌≢◌, refl, ap, ◌∙◌, List, [], ◌∷◌, Option, none, some, ◌==◌, if◌then◌else◌,
  length, length-set, get_or, set, get_or-set_self, arith, ℕ_discrete,
}
pub use zambesii.Prelude.Stacked.{items, length-items}
use zambesii.Prelude.Stacked.{items-set, items_of_ne_zero}
use zambesii.Prelude.Result.{Result, ok, Error, success, general, ◌>>=◌}
use zambesii.Bits.Arrays.{read-get_or, write-set}
use zambesii.FrameCache.{CacheStack, max_items, push, pop}

pub record IsValid (s : CacheStack) : Type 0 where
  pub bounded : s.depth ≤ max_items
  pub sized : length s.stack ≡ max_items

abbrev pub contents : CacheStack → List ℕ
contents s = items s.stack s.depth

-- A bounded stack as a list.
unfoldable pub spec_push : List ℕ → ℕ → Error × List ℕ
spec_push xs item = if length xs == max_items then (general, xs) else (success, item ∷ xs)

unfoldable pub spec_pop : List ℕ → Error × Option ℕ × List ℕ
spec_pop [] = (general, none, [])
spec_pop (x ∷ xs) = (success, some x, xs)

module _ {s : CacheStack} (v : IsValid s) where
  pub push_refines :
      (item : ℕ)
      → (e : Error) × (s' : CacheStack) × (push s item ≡ ok (e, s'))
        × IsValid s'
        × (s'.stack_size ≡ s.stack_size)
        × ((e, contents s') ≡ spec_push (contents s) item)
  unfolding push spec_push
  push_refines item = elim (ℕ_discrete s.depth max_items) [
    | yes full ↦ (general, s, ground arith, v, refl, ground (arith, length-items s.stack s.depth))
    | no room ↦ (
      success,
      record s { stack = set s.stack s.depth item; depth = s.depth + 1 },
      ground (arith, write-set s.stack s.depth 0 (omega arith) item),
      ground (arith, length-set s.stack s.depth item),
      refl,
      rw add-one (
          ground (
            arith,
            length-items s.stack s.depth,
            get_or-set_self s.stack s.depth item 0 (omega arith),
            items-set s.stack s.depth s.depth item (omega arith),
          )),
    )
  ]

  pub pop_refines :
      (e : Error) × (item : Option ℕ) × (s' : CacheStack) × (pop s ≡ ok (e, item, s'))
      × IsValid s'
      × (s'.stack_size ≡ s.stack_size)
      × ((e, item, contents s') ≡ spec_pop (contents s))
  unfolding pop spec_pop
  pop_refines = elim (ℕ_discrete s.depth 0) [
    | yes none_left ↦ (general, none, s, ground arith, v, refl, rw none_left refl)
    | no some_left ↦ (
      success,
      some (get_or s.stack (s.depth - 1) 0),
      record s { depth = s.depth - 1 },
      ground (arith, read-get_or s.stack (s.depth - 1) 0 (omega arith)),
      ground arith,
      refl,
      rw (items_of_ne_zero s.stack s.depth some_left) refl,
    )
  ]

-- A client's calls, with what each returns.
pub data Op : Type 0 where
  pushes : ℕ → Op
  pops : Op

unfoldable pub run : CacheStack → List Op → Result (List (Error × Option ℕ))
run s [] = ok []
run s (pushes item ∷ ops) =
    push s item >>= λ (e, s'). run s' ops >>= λ replies. ok ((e, none) ∷ replies)
run s (pops ∷ ops) = pop s >>= λ (e, item, s'). run s' ops >>= λ replies. ok ((e, item) ∷ replies)

unfoldable pub spec_run : List ℕ → List Op → List (Error × Option ℕ)
spec_run xs [] = []
spec_run xs (pushes item ∷ ops) = let (e, xs') = spec_push xs item in (e, none) ∷ spec_run xs' ops
spec_run xs (pops ∷ ops) = let (e, item, xs') = spec_pop xs in (e, item) ∷ spec_run xs' ops

-- No sequence of pushes and pops on a `CacheStack` within its bounds makes a wild access or tells
-- it from the list of its items: a push on 1024 items and a pop from none fail and change nothing,
-- and a pop takes the item pushed last.
pub run_refines :
    (ops : List Op) {s : CacheStack} → IsValid s → run s ops ≡ ok (spec_run (contents s) ops)
unfolding run spec_run
run_refines [] v = refl
run_refines (pushes item ∷ ops) v =
    let (e, s', step, w, _, same) = push_refines v item in
    rw (step, ← same) (rw (run_refines ops w) refl)
run_refines (pops ∷ ops) v =
    let (e, item, s', step, w, _, same) = pop_refines v in
    rw (step, ← same) (rw (run_refines ops w) refl)

pub pop-nil : (s : CacheStack) → contents s ≡ [] → pop s ≡ ok (general, none, s)
unfolding pop
pop-nil s e = ground (arith, length-items s.stack s.depth)

pub pop-cons :
    {s : CacheStack} (v : IsValid s) (x : ℕ) (xs : List ℕ)
    → contents s ≡ x ∷ xs
    → (s' : CacheStack) × (pop s ≡ ok (success, some x, s'))
      × IsValid s'
      × (s'.stack_size ≡ s.stack_size)
      × (contents s' ≡ xs)
unfolding spec_pop
pop-cons v x xs at =
    let (e, item, s', step, w, size, same) = pop_refines v in
    let known : (e, item, contents s') ≡ spec_pop (x ∷ xs) = same ∙ ap spec_pop at in
    (s', ground (arith, step, known), w, size, cc known)

pub push-full : (s : CacheStack) (item : ℕ) → s.depth ≡ max_items → push s item ≡ ok (general, s)
unfolding push
push-full s item e = ground arith

pub push-cons :
    {s : CacheStack} (v : IsValid s) (item : ℕ)
    → s.depth ≢ max_items
    → (s' : CacheStack) × (push s item ≡ ok (success, s'))
      × IsValid s'
      × (s'.stack_size ≡ s.stack_size)
      × (contents s' ≡ item ∷ contents s)
unfolding spec_push
push-cons {s} v item room =
    let (e, s', step, w, size, same) = push_refines v item in
    let known : (e, contents s') ≡ (success, item ∷ contents s) =
      same ∙ ground (arith, length-items s.stack s.depth) in
    (s', ground (arith, step, known), w, size, cc known)
