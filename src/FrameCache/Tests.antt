-- ===== src/FrameCache/Tests.antt =====
-- A cache stack with one frame.
use zambesii.Prelude.{ℕ, ◌≡◌, [], ◌∷◌, none, some, arith, length-replicate}
use zambesii.Prelude.Result.{ok, success, general}
use zambesii.FrameCache.{max_items, new_stack}
use zambesii.FrameCache.Stack.{
  IsValid, pushes, pops, run, spec_run, spec_push, spec_pop, run_refines,
}

new_stack-IsValid : IsValid (new_stack 1)
unfolding new_stack
new_stack-IsValid = ground (arith, length-replicate {A = ℕ} max_items 0)

run_refines_example :
    run (new_stack 1) (pushes 7 ∷ pushes 8 ∷ pops ∷ pops ∷ pops ∷ [])
    ≡ ok (
        (success, none)
        ∷ (success, none)
        ∷ (success, some 8)
        ∷ (success, some 7)
        ∷ (general, none)
        ∷ [])
unfolding new_stack spec_run spec_push spec_pop
run_refines_example = run_refines (pushes 7 ∷ pushes 8 ∷ pops ∷ pops ∷ pops ∷ []) new_stack-IsValid
