-- ===== src/VSwamp/Exhaustion.antt =====
-- `VSwamp` after its last page was allocated: calls of `getPages` and `releasePages` in any order.
use zambesii.Prelude.{
  ℕ, zero, suc, ◌<◌, ◌≡◌, refl, ap, ◌∙◌, List, [], ◌∷◌, Option, none, some, arith,
}
use zambesii.Prelude.Result.{Result, ok, ◌>>=◌}
use zambesii.VSwamp.{VSwamp, get_pages, get_from, release_pages, find_insertion_node}
use zambesii.VSwamp.Holes.{holes, first_fit, fit}
use zambesii.VSwamp.Gets.{Links, get_pages_refines}

-- A call of `getPages`, or of `releasePages` with the node that its allocator would return.
pub data Call : Type 0 where
  gets : (n : ℕ) → Call
  releases : (vaddr n : ℕ) (alloc : Option ℕ) → Call

-- The replies of the calls of `getPages`, in their order, and the swamp after all calls.
pub run : VSwamp → ℕ → List Call → Result (List (Option ℕ) × VSwamp)
run s fuel [] = ok ([], s)
run s fuel (gets n ∷ calls) = get_pages s fuel n >>= λ (reply, s').
    run s' fuel calls >>= λ (replies, s''). ok (reply ∷ replies, s'')
run s fuel (releases vaddr n alloc ∷ calls) =
    release_pages s fuel vaddr n alloc >>= λ s'. run s' fuel calls

-- NULL for every call of `getPages`.
abbrev pub all_null : List Call → List (Option ℕ)
all_null [] = []
all_null (gets n ∷ calls) = none ∷ all_null calls
all_null (releases vaddr n alloc ∷ calls) = all_null calls

module _ {s : VSwamp} (v : Links s []) where
  get_pages-none : (fuel n : ℕ) → 0 < fuel → get_pages s fuel n ≡ ok (none, s)
  unfolding get_pages get_from
  get_pages-none zero n h = absurd (omega arith)
  get_pages-none (suc fuel) n h = rw v.links.head_first refl

  release_pages_lost :
      (fuel vaddr n : ℕ) (alloc : Option ℕ) → 0 < fuel → release_pages s fuel vaddr n alloc ≡ ok s
  unfolding release_pages find_insertion_node
  release_pages_lost zero vaddr n alloc h = absurd (omega arith)
  release_pages_lost (suc fuel) vaddr n alloc h = rw v.links.head_first (ground arith)

  run_exhausted :
      (fuel : ℕ) (calls : List Call) → 0 < fuel → run s fuel calls ≡ ok (all_null calls, s)
  unfolding run
  run_exhausted fuel [] h = refl
  run_exhausted fuel (gets n ∷ calls) h =
      rw (get_pages-none fuel n h, run_exhausted fuel calls h) refl
  run_exhausted fuel (releases vaddr n alloc ∷ calls) h =
      rw (release_pages_lost fuel vaddr n alloc h) (run_exhausted fuel calls h)

-- The only hole gives all its pages.
get_last :
    {s : VSwamp} {a : ℕ} (fuel : ℕ)
    → Links s (a ∷ [])
    → 1 < fuel
    → (s' : VSwamp) × (get_pages s fuel (s.n_pages a) ≡ ok (some (s.base a), s')) × Links s' []
get_last {s = s} {a = a} fuel v h =
    let n : ℕ = s.n_pages a in
    let (reply, s', ys, run, links, first, left, freed) =
      get_pages_refines fuel n v (omega arith) in
    let all : fit n ((s.base a, n) ∷ []) ≡ [] = ground arith in
    let here : first_fit n ((s.base a, n) ∷ []) ≡ some (s.base a) = ground arith in
    (s', run ∙ ap (λ reply. ok (reply, s')) (first ∙ here), no_nodes ys links (left ∙ all))
  where
    no_nodes :
        {s' : VSwamp} (ys : List ℕ) → Links s' ys → holes s'.base s'.n_pages ys ≡ [] → Links s' []
    no_nodes [] links e = links
    no_nodes (b ∷ ys) links e = cc e

-- In a swamp that links one hole of some pages, a call of `getPages` for all pages of the hole
-- returns its address, and from then on the swamp is lost: in every sequence of later calls of
-- `getPages` and `releasePages`, whatever pages are given back in it, every call ends, every
-- `getPages` returns NULL, and no hole is left at the end. Two rounds are enough for each walk.
pub exhausted_forever :
    {s : VSwamp} {a : ℕ} (fuel : ℕ) (calls : List Call)
    → Links s (a ∷ [])
    → 1 < fuel
    → (s' : VSwamp) × (run s fuel (gets (s.n_pages a) ∷ calls)
        ≡ ok (some (s.base a) ∷ all_null calls, s'))
      × Links s' []
unfolding run
exhausted_forever fuel calls v h =
    let (s', got, links) = get_last fuel v h in
    (s', rw (got, run_exhausted links fuel calls (omega arith)) refl, links)
