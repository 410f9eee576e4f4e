-- ===== src/WrapAroundCounter.antt =====
-- `WrapAroundCounter`, which hands out the free slots of an array in turn:
-- __kcore/include/__kclasses/wrapAroundCounter.h. The values are not negative and below 2 ^ 31, and
-- -1 is `none`. A slot is free if it is NULL.
pub mod Search
mod Tests
use zambesii.Prelude.{ℕ, zero, suc, ◌+◌, ◌-◌, List, Option, none, some, get_elem?}
use zambesii.Prelude.Result.{Result, ok, fault, wild_access, ◌>>=◌}

pub record Counter : Type 0 where
  pub start_val : ℕ
  pub max_val : ℕ
  pub next_val : ℕ

pub new : ℕ → ℕ → Counter
new max_val start_val = record { start_val = start_val; max_val = max_val; next_val = start_val }

pub set_max_val : Counter → ℕ → Counter
set_max_val c new_max_val = record c { max_val = new_max_val }

-- The loop of `getNextValue`, with `rounds` values left from `i` on.
pub find_free : List (Option ℕ) → ℕ → ℕ → Result (Option ℕ)
find_free arr zero i = ok none
find_free arr (suc rounds) i = elim (get_elem? arr i) [
  | none ↦ fault wild_access
  | some none ↦ ok (some i)
  | some (some p) ↦ find_free arr rounds (i + 1)
]

-- The counter after the loop of `getNextValue`, with what it found.
abbrev pub settle : Counter → Option ℕ → Option ℕ × Counter
settle c (some i) = (some i, record c { next_val = i + 1 })
settle c none = (none, record c { next_val = c.start_val })

-- `getNextValue` up to the choice of a second try
pub try_value : Counter → List (Option ℕ) → Result (Option ℕ × Counter)
try_value c arr =
    find_free arr (c.max_val + 1 - c.next_val) c.next_val >>= λ found. ok (settle c found)

-- `getNextValue` with its second try
pub get_next_value : Counter → List (Option ℕ) → Result (Option ℕ × Counter)
get_next_value c arr =
    try_value c arr >>= λ (ret, c'). elim ret [ some i ↦ ok (some i, c') | none ↦ try_value c' arr ]
