-- ===== src/HeapDoubleList/Tests.antt =====
-- A list of the items 7 and 8 at the nodes 100 and 200.
use Prim.{tt}
use zambesii.Prelude.{ℕ, ◌≡◌, refl, List, [], ◌∷◌, map, none, some, arith, ◌==◌, if◌then◌else◌}
use zambesii.Prelude.Result.{ok}
use zambesii.HeapDoubleList.{DoubleList}
use zambesii.HeapDoubleList.Unlink.{Holds}
use zambesii.HeapDoubleList.Spec.{Reply, removes, step, spec_step, Fresh}
use zambesii.HeapDoubleList.Refines.{step_refines}

abbrev two : DoubleList
two = record {
  head = some 100;
  tail = some 200;
  n_items = 2;
  item = λ a. if a == 100 then 7 else 8;
  prev = λ a. if a == 200 then some 100 else none;
  next = λ a. if a == 100 then some 200 else none;
}

two-Holds : Holds two (100 ∷ 200 ∷ [])
two-Holds = record {
  links = record {
    nexts = (refl, (refl, tt));
    prevs = (refl, (refl, tt));
    distinct = ((omega arith, tt), (tt, tt));
    head_first = refl;
    tail_last = refl;
  };
  counted = refl;
  bounded = omega arith;
}

two-Fresh : Fresh (100 ∷ 200 ∷ []) (removes 8)
unfolding Fresh
two-Fresh = tt

step_refines_example :
    (reply : Reply) × (l' : DoubleList) × (ys : List ℕ) × (step two (removes 8) ≡ ok (reply, l'))
    × Holds l' ys
    × ((reply, map l'.item ys) ≡ spec_step (7 ∷ 8 ∷ []) (removes 8))
step_refines_example = step_refines (removes 8) two-Holds two-Fresh
