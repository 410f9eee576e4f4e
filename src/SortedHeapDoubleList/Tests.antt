-- ===== src/SortedHeapDoubleList/Tests.antt =====
-- Three entries with the criteria 1, 3 and 5 at the nodes 100, 200 and 300.
use Prim.{tt}
use zambesii.Prelude.{ℕ, ◌+◌, ◌≡◌, refl, List, [], ◌∷◌, none, some, arith, ◌==◌, if◌then◌else◌, ◌↔◌}
use zambesii.Prelude.Result.{ok, success}
use zambesii.HeapDoubleList.Unlink.{Holds}
use zambesii.SortedHeapDoubleList.{SortedList, add_item}
use zambesii.SortedHeapDoubleList.Places.{entries, add_item-Places}
use zambesii.SortedHeapDoubleList.Order.{Sorted, InPlace, add_item-Sorted}

abbrev three : SortedList
three = record {
  list = record {
    head = some 100;
    tail = some 300;
    n_items = 3;
    item = λ a. a + 7;
    prev = λ a. if a == 200 then some 100 else (if a == 300 then some 200 else none);
    next = λ a. if a == 100 then some 200 else (if a == 200 then some 300 else none);
  };
  criterion = λ a. if a == 100 then 1 else (if a == 200 then 3 else 5);
}

three-Holds : Holds three.list (100 ∷ 200 ∷ 300 ∷ [])
three-Holds = record {
  links = record {
    nexts = (refl, (refl, (refl, tt)));
    prevs = (refl, (refl, (refl, tt)));
    distinct = ((omega arith, (omega arith, tt)), ((omega arith, tt), (tt, tt)));
    head_first = refl;
    tail_last = refl;
  };
  counted = refl;
  bounded = omega arith;
}

add_item-Places_example :
    (s' : SortedList) × (ys : List ℕ) × (add_item three (some 400) 9 4 0 ≡ ok (success, s'))
    × Holds s'.list ys
    × (entries s' ys ≡ (1, 107) ∷ (4, 9) ∷ (3, 207) ∷ (5, 307) ∷ [])
add_item-Places_example =
    add_item-Places three (100 ∷ 200 ∷ 300 ∷ []) 400 9 4 three-Holds
      (omega arith, (omega arith, (omega arith, tt))) (omega arith)

add_item-Sorted_example :
    (s' : SortedList) × (ys : List ℕ) × (add_item three (some 400) 9 4 0 ≡ ok (success, s'))
    × Holds s'.list ys
    × (Sorted (entries s' ys) ↔ InPlace 4 ((1, 107) ∷ (3, 207) ∷ (5, 307) ∷ []))
add_item-Sorted_example =
    add_item-Sorted three (100 ∷ 200 ∷ 300 ∷ []) 400 9 4 three-Holds
      (omega arith, (omega arith, (omega arith, tt))) (omega arith) (omega arith, (omega arith, tt))
