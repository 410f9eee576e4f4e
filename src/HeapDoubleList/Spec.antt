-- ===== src/HeapDoubleList/Spec.antt =====
-- The calls of a `HeapDoubleList`, and what they do on a list of items.
use Prim.{Unit}
use zambesii.Prelude.{
  ℕ, ◌+◌, ◌^◌, ◌<◌, ◌≡◌, List, [], ◌∷◌, ◌++◌, map, Option, none, some, ◌==◌, if◌then◌else◌, length,
  remove_first,
}
use zambesii.Prelude.Distinct.{NotIn}
use zambesii.Prelude.Result.{Result, ok, Error, success, memory_nomem, invalid_arg, ◌>>=◌}
use zambesii.HeapDoubleList.{
  DoubleList, add_item, remove_item, pop_from_head, pop_from_tail, get_head, get_tail, get_n_items,
}
use zambesii.HeapDoubleList.Unlink.{Holds}

pub data Op : Type 0 where
  adds : (node : Option ℕ) (item mode : ℕ) → Op
  removes : (item : ℕ) → Op
  pops_head pops_tail asks_head asks_tail asks_n_items : Op

pub data Reply : Type 0 where
  error : Error → Reply
  void : Reply
  pointer : Option ℕ → Reply
  number : ℕ → Reply

unfoldable pub step : DoubleList → Op → Result (Reply × DoubleList)
step l (adds node item mode) = let (e, l') = add_item l node item mode in ok (error e, l')
step l (removes item) = remove_item l item >>= λ l'. ok (void, l')
step l pops_head = let (p, l') = pop_from_head l in ok (pointer p, l')
step l pops_tail = let (p, l') = pop_from_tail l in ok (pointer p, l')
step l asks_head = ok (pointer (get_head l), l)
step l asks_tail = ok (pointer (get_tail l), l)
step l asks_n_items = ok (number (get_n_items l), l)

abbrev pub head_of : List ℕ → Option ℕ
head_of [] = none
head_of (i ∷ is) = some i

abbrev pub tail_of : List ℕ → Option ℕ
tail_of [] = none
tail_of (i ∷ []) = some i
tail_of (i ∷ j ∷ is) = tail_of (j ∷ is)

abbrev pub but_head : List ℕ → List ℕ
but_head [] = []
but_head (i ∷ is) = is

abbrev pub but_tail : List ℕ → List ℕ
but_tail [] = []
but_tail (i ∷ []) = []
but_tail (i ∷ j ∷ is) = i ∷ but_tail (j ∷ is)

unfoldable pub spec_step : List ℕ → Op → Reply × List ℕ
spec_step is (adds none item mode) = (error memory_nomem, is)
spec_step is (adds (some a) item mode) =
    if mode == 0
    then (error success, item ∷ is)
    else (if mode == 1 then (error success, is ++ item ∷ []) else (error invalid_arg, is))
spec_step is (removes item) = (void, remove_first item is)
spec_step is pops_head = (pointer (head_of is), but_head is)
spec_step is pops_tail = (pointer (tail_of is), but_tail is)
spec_step is asks_head = (pointer (head_of is), is)
spec_step is asks_tail = (pointer (tail_of is), is)
spec_step is asks_n_items = (number (length is), is)

-- The node that the allocator returns is not linked, and the count does not wrap.
unfoldable pub Fresh : List ℕ → Op → Type 0
Fresh xs (adds none item mode) = Unit {0}
Fresh xs (adds (some a) item mode) = NotIn a xs × (length xs + 1 < 2 ^ 32)
Fresh xs _ = Unit {0}

-- A step that the list of items makes too.
unfoldable pub Agrees : DoubleList → List ℕ → Op → Type 0
Agrees l xs op =
    (reply : Reply) × (l' : DoubleList) × (ys : List ℕ) × (step l op ≡ ok (reply, l'))
    × Holds l' ys
    × ((reply, map l'.item ys) ≡ spec_step (map l.item xs) op)
