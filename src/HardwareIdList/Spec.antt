-- ===== src/HardwareIdList/Spec.antt =====
-- The calls of a `HardwareIdList`, and what they do on a map.
use Prim.{Unit}
use zambesii.Prelude.{
  ℕ, zero, suc, ◌≡◌, List, [], ◌∷◌, Option, none, some, ◌==◌, ltb, if◌then◌else◌, Bool, true, false,
}
use zambesii.Prelude.Result.{Result, ok, Error, success, memory_nomem, general, ◌>>=◌}
use zambesii.HardwareIdList.{
  IdList, Nodes, n_nodes, add_item, remove_item, get_item, find_free_index,
}
use zambesii.HardwareIdList.Chain.{Holds}
use zambesii.HardwareIdList.Growth.{Clear}
use zambesii.HardwareIdList.Pairs.{Pairs, pairs, put_pair, drop_pair, look_up}

-- The calls on one list. `adds` has the memory that is allocated if the array is too small.
pub data Op : Type 0 where
  adds : (fresh : Option Nodes) (id : ℕ) (item : Option ℕ) → Op
  removes asks : (id : ℕ) → Op
  asks_free : Op

pub data Reply : Type 0 where
  error : Error → Reply
  void : Reply
  pointer : Option ℕ → Reply
  free : Error × Option ℕ → Reply

unfoldable pub step : IdList → Op → Result (Reply × IdList)
step s (adds fresh id item) = add_item s fresh id item >>= λ (e, s'). ok (error e, s')
step s (removes id) = remove_item s id >>= λ s'. ok (void, s')
step s (asks id) = get_item s id >>= λ p. ok (pointer p, s)
step s asks_free = ok (free (find_free_index s), s)

unfoldable pub has_pair : ℕ → Pairs → Bool
has_pair i [] = false
has_pair i ((j, q) ∷ es) = if i == j then true else has_pair i es

-- The least of the `n` ids from `i` on that is not in use
unfoldable pub unused : Pairs → ℕ → ℕ → Option ℕ
unused es i zero = none
unused es i (suc n) = if has_pair i es then unused es (suc i) n else some i

-- A step on the map, with the number of ids that there is room for
unfoldable pub spec_step : Pairs × ℕ → Op → Reply × Pairs × ℕ
spec_step (es, n) (adds fresh id item) =
    let room : Reply × Pairs × ℕ = (error success, put_pair id item es, n) in
    let more : Reply × Pairs × ℕ = elim fresh [
      | none ↦ (error memory_nomem, es, n)
      | some nodes ↦ (error success, put_pair id item es, suc id)
    ] in
    if ltb id n then room else more
spec_step (es, n) (removes id) = (void, drop_pair id es, n)
spec_step (es, n) (asks id) = (pointer (look_up id es), es, n)
spec_step (es, n) asks_free =
    (free (elim (unused es 0 n) [ none ↦ (general, none) | some i ↦ (success, some i) ]), es, n)

-- The memory that is allocated has no flag set.
unfoldable pub Cleared : Op → Type 0
Cleared (adds (some nodes) id item) = Clear nodes (suc id)
Cleared _ = Unit {0}

-- A step that the map makes too.
unfoldable pub Agrees : IdList → List ℕ → Op → Type 0
Agrees s xs op =
    (reply : Reply) × (s' : IdList) × (ys : List ℕ) × (step s op ≡ ok (reply, s'))
    × Holds s' ys
    × ((reply, pairs s'.nodes.item ys, n_nodes s')
        ≡ spec_step (pairs s.nodes.item xs, n_nodes s) op)
