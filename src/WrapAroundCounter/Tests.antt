-- ===== src/WrapAroundCounter/Tests.antt =====
-- Four slots, of which 1 is free, and a counter past it.
use zambesii.Prelude.{ℕ, List, [], ◌∷◌, Option, none, some}
use zambesii.WrapAroundCounter.{Counter}

abbrev one_free : List (Option ℕ)
one_free = some 5 ∷ none ∷ some 6 ∷ some 7 ∷ []

abbrev past_it : Counter
past_it = record { start_val = 0; max_val = 3; next_val = 2 }
