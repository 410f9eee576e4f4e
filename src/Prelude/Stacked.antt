-- ===== src/Prelude/Stacked.antt =====
-- A stack of items at the low end of an array.
use Prim.Native.Nat.{ℕ, zero, suc, ◌-◌, ◌≤◌}
use mathlib.Core.Path.{◌≡◌, refl, ap}
use mathlib.Core.Logic.{◌≢◌}
use mathlib.Core.List.{List, [], ◌∷◌}
use native.Mathlib.Omega.{arith}
use zambesii.Prelude.Lists.{length, get_or, set, get_or-set_ne}

-- The items on the stack, the top first.
abbrev pub items : List ℕ → ℕ → List ℕ
items stack zero = []
items stack (suc n) = get_or stack n 0 ∷ items stack n

pub length-items : (stack : List ℕ) (n : ℕ) → length (items stack n) ≡ n
length-items stack zero = refl
length-items stack (suc n) = ap suc (length-items stack n)

pub items-set : (stack : List ℕ) (n i v : ℕ) → n ≤ i → items (set stack i v) n ≡ items stack n
items-set stack zero i v h = refl
items-set stack (suc n) i v h = ground (
  arith,
  get_or-set_ne stack i n v 0 (λ e. absurd (omega arith)),
  items-set stack n i v (omega arith),
)

pub items_of_ne_zero :
    (stack : List ℕ) (n : ℕ) → n ≢ 0 → items stack n ≡ get_or stack (n - 1) 0 ∷ items stack (n - 1)
items_of_ne_zero stack zero h = absurd (h refl)
items_of_ne_zero stack (suc n) h = ap (λ k. get_or stack k 0 ∷ items stack k) (omega arith)
