-- ===== src/HardwareIdList/Tests.antt =====
-- A list with the ids 1 and 3 in an array of five nodes.
use Prim.{tt}
use zambesii.Prelude.{
  ℕ, ◌≡◌, refl, List, [], ◌∷◌, none, some, true, false, arith, ◌==◌, if◌then◌else◌,
}
use zambesii.Prelude.Result.{ok, success, general}
use zambesii.HardwareIdList.{IdList, Nodes, zeroed, new, n_nodes, add_item, find_free_index}
use zambesii.HardwareIdList.Chain.{Holds}
use zambesii.HardwareIdList.Pairs.{pairs}
use zambesii.HardwareIdList.Growth.{Clear}
use zambesii.HardwareIdList.Spec.{adds, Reply, step, spec_step, Cleared}
use zambesii.HardwareIdList.Refines.{calls_refine}
use zambesii.HardwareIdList.Walks.{iterate, visited, iterate-Visits, add_item-Unclean}

abbrev two : IdList
two = record {
  pre_allocated = false;
  nodes = record {
    next = λ i. if i == 1 then some 3 else none;
    valid = λ i. if i == 1 then true else i == 3;
    item = λ i. some 9;
  };
  max_index = some 3;
  max_allocated_index = some 4;
  first_valid_index = some 1;
}

two-Holds : Holds two (1 ∷ 3 ∷ [])
two-Holds = record {
  nexts = (refl, (refl, tt));
  ascending = ((omega arith, tt), (tt, tt));
  inside = (omega arith, (omega arith, tt));
  first_first = refl;
  max_last = refl;
  flagged = λ i lt. ground arith;
}

seven-Cleared : Cleared (adds (some zeroed) 7 (some 5))
unfolding Cleared Clear
seven-Cleared = λ i lt. refl

calls_refine_example :
    (reply : Reply) × (s' : IdList) × (ys : List ℕ) × (step two (adds (some zeroed) 7 (some 5))
      ≡ ok (reply, s'))
    × Holds s' ys
    × ((reply, pairs s'.nodes.item ys, n_nodes s')
        ≡ spec_step ((1, some 9) ∷ (3, some 9) ∷ [], 5) (adds (some zeroed) 7 (some 5)))
calls_refine_example =
    calls_refine two (1 ∷ 3 ∷ []) (adds (some zeroed) 7 (some 5)) two-Holds seven-Cleared

iterate-Visits_example : iterate two 6 none ≡ ok (visited ((1, some 9) ∷ (3, some 9) ∷ []))
iterate-Visits_example = iterate-Visits two (1 ∷ 3 ∷ []) two-Holds

abbrev set_flags : Nodes
set_flags = record { next = λ i. none; valid = λ i. true; item = λ i. none }

add_item-Unclean_example :
    (s : IdList) × (add_item (new zeroed) (some set_flags) 3 (some 5) ≡ ok (success, s))
    × (find_free_index s ≡ (general, none))
add_item-Unclean_example = add_item-Unclean zeroed set_flags 3 (some 5) (λ i lt. refl)
