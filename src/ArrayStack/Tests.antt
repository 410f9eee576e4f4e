-- ===== src/ArrayStack/Tests.antt =====
-- A stack of two items.
use zambesii.Prelude.{◌≡◌, refl, [], ◌∷◌, arith}
use zambesii.Prelude.Result.{fault, wild_access}
use zambesii.ArrayStack.{ArrayStack}
use zambesii.ArrayStack.Refines.{
  IsValid, pushes, pushes2, pops2, run, spec_run, spec_step, run_agrees,
}

abbrev two_slots : ArrayStack
two_slots = record { arr = 0 ∷ 0 ∷ []; depth = 0; n_items = 2 }

two_slots-IsValid : IsValid two_slots
two_slots-IsValid = record { bounded = omega arith; sized = refl }

-- A pair fits, cannot be taken back, and a third push writes past the array.
run_agrees_example : run two_slots (pushes2 7 8 ∷ pops2 ∷ pushes 9 ∷ []) ≡ fault wild_access
unfolding spec_run spec_step
run_agrees_example = run_agrees two_slots two_slots-IsValid (pushes2 7 8 ∷ pops2 ∷ pushes 9 ∷ [])
