-- ===== src/WrapAroundCounter/Search.antt =====
-- What `getNextValue` finds.
use zambesii.Prelude.{ℕ, ◌+◌, ◌≤◌, ◌<◌, ◌≡◌, ◌⊎◌, List, Option, none, some, get_elem?}
use zambesii.Prelude.Result.{Result, ok, fault}
use zambesii.WrapAroundCounter.{Counter}

-- No slot from `lo` up to and without `hi` is free.
abbrev pub Used : List (Option ℕ) → ℕ → ℕ → Type 0
Used arr lo hi = (j : ℕ) → lo ≤ j → j < hi → (p : ℕ) × (get_elem? arr j ≡ some (some p))

-- The first free slot of `rounds` from `i` on.
pub Found : List (Option ℕ) → ℕ → ℕ → Result (Option ℕ) → Type 0
Found arr rounds i (ok none) = Used arr i (i + rounds)
Found arr rounds i (ok (some v)) =
    (i ≤ v) × (v < i + rounds) × (get_elem? arr v ≡ some none) × Used arr i v
Found arr rounds i (fault f) = ⊥

-- Every slot from the start up to the greatest value, and every one from the next value on.
pub record Exhausted (c : Counter) (arr : List (Option ℕ)) : Type 0 where
  pub from_next : Used arr c.next_val (c.max_val + 1)
  pub from_start : Used arr c.start_val (c.max_val + 1)

-- How a call ends: with the first free slot from the next value on, or with the first from the start
-- on if there is none, or with no slot.
pub Outcome : Counter → List (Option ℕ) → Result (Option ℕ × Counter) → Type 0
Outcome c arr (ok (some v, c')) =
    (get_elem? arr v ≡ some none)
    × (v ≤ c.max_val)
    × (c' ≡ record c { next_val = v + 1 })
    × (((c.next_val ≤ v) × Used arr c.next_val v)
        ⊎ (Used arr c.next_val (c.max_val + 1) × (c.start_val ≤ v) × Used arr c.start_val v))
Outcome c arr (ok (none, c')) = Exhausted c arr × (c' ≡ record c { next_val = c.start_val })
Outcome c arr (fault f) = ⊥
