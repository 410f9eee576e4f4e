-- ===== src/ArrayStack.antt =====
-- `ArrayStack`: __kcore/include/__kclasses/arrayStack.h. The cursor runs from -1 on; `depth` is the
-- cursor and one. A call holds the lock of the stack and is one step.
pub mod Refines
mod Tests
use zambesii.Prelude.{ℕ, ◌+◌, ◌-◌, List, [], Option, none, some, Bool, ltb, if◌then◌else◌}
use zambesii.Prelude.Result.{Result, ok, Error, success, general, memory_nomem, ◌>>=◌}
use zambesii.Bits.{read, write}

pub record ArrayStack : Type 0 where
  pub arr : List ℕ
  pub depth : ℕ
  pub n_items : ℕ

pub new : ℕ → ArrayStack
new n_items = record { arr = []; depth = 0; n_items = n_items }

-- `arr` is what `new T[nItems]` gives, or `none` for NULL.
pub initialize : ArrayStack → Option (List ℕ) → Error × ArrayStack
initialize s none = (memory_nomem, s)
initialize s (some arr) = (success, record s { arr = arr })

-- `ARRAYSTACK_IS_FULL(cursor, nItems)`, with `nItems` below 2 ^ 31
abbrev pub is_full : ℕ → ℕ → Bool
is_full depth n_items = ltb n_items depth

-- `ARRAYSTACK_IS_EMPTY(cursor)`
abbrev pub is_empty : ℕ → Bool
is_empty depth = ltb depth 1

pub push : ArrayStack → ℕ → Result (Error × ArrayStack)
push s item =
    if is_full s.depth s.n_items
    then ok (general, s)
    else (write s.arr s.depth item >>= λ arr.
        ok (success, record s { arr = arr; depth = s.depth + 1 }))

pub push2 : ArrayStack → ℕ → ℕ → Result (Error × ArrayStack)
push2 s item item2 =
    if is_full (s.depth + 2) s.n_items
    then ok (general, s)
    else (write s.arr s.depth item >>= λ arr. write arr (s.depth + 1) item2 >>= λ arr'.
        ok (success, record s { arr = arr'; depth = s.depth + 2 }))

pub pop : ArrayStack → Result (Error × Option ℕ × ArrayStack)
pop s =
    if is_empty s.depth
    then ok (general, none, s)
    else (read s.arr (s.depth - 1) >>= λ item.
        ok (success, some item, record s { depth = s.depth - 1 }))

-- `item1` and `item2` as one pair, both written or none. `cursor - 2` is negative for a depth below 3.
pub pop2 : ArrayStack → Result (Error × Option (ℕ × ℕ) × ArrayStack)
pop2 s =
    if is_empty (s.depth - 2)
    then ok (general, none, s)
    else (read s.arr (s.depth - 1) >>= λ item2. read s.arr (s.depth - 2) >>= λ item1.
        ok (success, some (item1, item2), record s { depth = s.depth - 2 }))
