-- ===== src/SortedHeapDoubleList.antt =====
-- `SortedHeapDoubleList`: __kcore/include/__kclasses/sortedHeapDoubleList.h. Criteria are numbers. The
-- class repeats the code of `HeapDoubleList` for everything but `addItem`, so those operations are
-- the ones of that list. A call holds the lock of the list.
pub mod Places
pub mod Order
mod Tests
use zambesii.Prelude.{ℕ, zero, suc, Option, none, some, ◌==◌, leb, ltb, if◌then◌else◌, add_uarch}
use zambesii.Prelude.Put.{put}
use zambesii.Prelude.Result.{
  Result, ok, fault, wild_access, no_rounds, Error, success, memory_nomem, unimplemented, unknown,
  ◌>>=◌,
}
use zambesii.HeapDoubleList.{DoubleList, same_pointer, write_through}
use zambesii.HeapDoubleList

-- `sListState`, and `criterion` of `sListNode` by address
pub record SortedList : Type 0 where
  pub list : DoubleList
  pub criterion : ℕ → ℕ

pub get_n_items : SortedList → ℕ
get_n_items s = HeapDoubleList.get_n_items s.list

-- The writes of `addItem` on an empty list
pub link_only : DoubleList → ℕ → DoubleList
link_only l a = record l {
  head = some a;
  tail = some a;
  prev = put l.prev a none;
  next = put l.next a none;
  n_items = add_uarch l.n_items 1;
}

-- The writes that put the node `a` before the head `h`
pub link_front : DoubleList → ℕ → ℕ → DoubleList
link_front l a h = record l {
  prev = put (put l.prev a none) h (some a);
  next = put l.next a (some h);
  head = some a;
  n_items = add_uarch l.n_items 1;
}

-- The writes that put the node `a` after the tail `t`
pub link_back : DoubleList → ℕ → ℕ → DoubleList
link_back l a t = record l {
  prev = put l.prev a (some t);
  next = put (put l.next a none) t (some a);
  tail = some a;
  n_items = add_uarch l.n_items 1;
}

-- The writes that put the node `a` after the node `curr`, through the link of `curr`
pub link_after : DoubleList → ℕ → ℕ → Result DoubleList
link_after l a curr =
    let next : ℕ → Option ℕ = put l.next a (l.next curr) in
    write_through (put l.prev a (some curr)) (next curr) (some a) >>= λ prev.
    ok (record l { prev = prev; next = put next curr (some a); n_items = add_uarch l.n_items 1 })

-- The loop of `addItem` with at most `fuel` rounds
pub insert_from : DoubleList → (ℕ → ℕ) → ℕ → ℕ → Option ℕ → Result (Error × DoubleList)
insert_from l criterion a zero curr = fault no_rounds
insert_from l criterion a (suc fuel) none = ok (unknown, l)
insert_from l criterion a (suc fuel) (some curr) =
    let rest : Result (Error × DoubleList) = insert_from l criterion a fuel (l.next curr) in
    if leb (criterion curr) (criterion a)
    then (link_after l a curr >>= λ l'. ok (success, l'))
    else rest

-- The tests of `addItem` on a list with the head `h`
pub place_among : DoubleList → (ℕ → ℕ) → ℕ → ℕ → Result (Error × DoubleList)
place_among l criterion a h =
    let walk : Result (Error × DoubleList) = insert_from l criterion a (suc l.n_items) l.head in
    let before_tail : Result (Error × DoubleList) = elim l.tail [
      | none ↦ fault wild_access
      | some t ↦ if leb (criterion t) (criterion a) then ok (success, link_back l a t) else walk
    ] in
    if same_pointer l.head l.tail
    then (if leb (criterion h) (criterion a)
        then ok (success, link_back l a h)
        else ok (success, link_front l a h))
    else (if ltb (criterion a) (criterion h) then ok (success, link_front l a h) else before_tail)

pub place_node : DoubleList → (ℕ → ℕ) → ℕ → Result (Error × DoubleList)
place_node l criterion a = elim l.head [
  | none ↦ ok (success, link_only l a)
  | some h ↦ place_among l criterion a h
]

-- `node` is what `new` returns; the mode is 0 for ascending and 1 for descending.
pub add_item : SortedList → Option ℕ → ℕ → ℕ → ℕ → Result (Error × SortedList)
add_item s none item criterion mode =
    if mode == 1 then ok (unimplemented, s) else ok (memory_nomem, s)
add_item s (some a) item criterion mode =
    let l : DoubleList = record s.list { item = put s.list.item a item } in
    let criteria : ℕ → ℕ = put s.criterion a criterion in
    if mode == 1
    then ok (unimplemented, s)
    else (place_node l criteria a >>= λ (e, l'). ok (e, record { list = l'; criterion = criteria }))

pub remove_item : SortedList → ℕ → Result SortedList
remove_item s item = HeapDoubleList.remove_item s.list item >>= λ l. ok (record s { list = l })

pub pop_from_head : SortedList → Option ℕ × SortedList
pop_from_head s = let (p, l) = HeapDoubleList.pop_from_head s.list in (p, record s { list = l })

pub pop_from_tail : SortedList → Option ℕ × SortedList
pop_from_tail s = let (p, l) = HeapDoubleList.pop_from_tail s.list in (p, record s { list = l })

pub get_head : SortedList → Option ℕ
get_head s = HeapDoubleList.get_head s.list

pub get_tail : SortedList → Option ℕ
get_tail s = HeapDoubleList.get_tail s.list
