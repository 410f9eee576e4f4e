-- ===== src/HeapDoubleList.antt =====
-- `HeapDoubleList`: __kcore/include/__kclasses/heapDoubleList.h. Items are pointers. The nodes are a
-- store by address; a node that is freed is not linked any more. A call holds the lock of the list.
pub mod Unlink
pub mod Spec
pub mod Ends
pub mod Refines
mod Tests
use zambesii.Prelude.{
  ℕ, zero, suc, ◌+◌, Bool, true, false, Option, none, some, ◌==◌, if◌then◌else◌, add_uarch,
  sub_uarch,
}
use zambesii.Prelude.Put.{put, put_at}
use zambesii.Prelude.Result.{
  Result, ok, fault, wild_access, no_rounds, Error, success, memory_nomem, invalid_arg, ◌>>=◌,
}

-- `sListState`, and the fields of `sListNode` by address
pub record DoubleList : Type 0 where
  pub head : Option ℕ
  pub tail : Option ℕ
  pub n_items : ℕ
  pub item : ℕ → ℕ
  pub prev : ℕ → Option ℕ
  pub next : ℕ → Option ℕ

pub new : DoubleList
new = record {
  head = none;
  tail = none;
  n_items = 0;
  item = λ a. 0;
  prev = λ a. none;
  next = λ a. none;
}

-- `cache` is what `cachePool.createCache` returns when the flag asks for a cache.
pub initialize : Bool → Option ℕ → Error
initialize true none = memory_nomem
initialize _ _ = success

pub get_n_items : DoubleList → ℕ
get_n_items l = l.n_items

abbrev pub same_pointer : Option ℕ → Option ℕ → Bool
same_pointer none none = true
same_pointer none (some b) = false
same_pointer (some a) none = false
same_pointer (some a) (some b) = a == b

-- A write of a field behind a pointer that is not tested.
abbrev pub write_through : (ℕ → Option ℕ) → Option ℕ → Option ℕ → Result (ℕ → Option ℕ)
write_through field none v = fault wild_access
write_through field (some a) v = ok (put field a v)

-- The case of PTRDBLLIST_ADD_HEAD, with the node `a` that has its item.
pub add_head : DoubleList → ℕ → DoubleList
add_head l a = record l {
  prev = put_at (put l.prev a none) l.head (some a);
  next = put l.next a l.head;
  tail = elim l.head [ some h ↦ l.tail | none ↦ some a ];
  head = some a;
  n_items = add_uarch l.n_items 1;
}

-- The case of PTRDBLLIST_ADD_TAIL
pub add_tail : DoubleList → ℕ → DoubleList
add_tail l a = record l {
  next = put_at (put l.next a none) l.tail (some a);
  prev = put l.prev a l.tail;
  head = elim l.tail [ some t ↦ l.head | none ↦ some a ];
  tail = some a;
  n_items = add_uarch l.n_items 1;
}

-- `node` is what `new` or the cache returns; the mode is 0 for the head and 1 for the tail.
pub add_item : DoubleList → Option ℕ → ℕ → ℕ → Error × DoubleList
add_item l none item mode = (memory_nomem, l)
add_item l (some a) item mode =
    let l' : DoubleList = record l { item = put l.item a item } in
    if mode == 0
    then (success, add_head l' a)
    else (if mode == 1 then (success, add_tail l' a) else (invalid_arg, l'))

-- The first branch of `removeItem`, at the node `a` that has the item: the head or the link forward
pub unlink_front : DoubleList → ℕ → Result DoubleList
unlink_front l a =
    if same_pointer l.head (some a)
    then ok (record l { head = l.next a; prev = put_at l.prev (l.next a) none })
    else (write_through l.next (l.prev a) (l.next a) >>= λ next. ok (record l { next = next }))

-- The second branch: the tail or the link backward
pub unlink_back : DoubleList → ℕ → Result DoubleList
unlink_back l a =
    if same_pointer l.tail (some a)
    then ok (record l { tail = l.prev a; next = put_at l.next (l.prev a) none })
    else (write_through l.prev (l.next a) (l.prev a) >>= λ prev. ok (record l { prev = prev }))

pub unlink : DoubleList → ℕ → Result DoubleList
unlink l a = unlink_front l a >>= λ l'.
    unlink_back l' a >>= λ l''. ok (record l'' { n_items = sub_uarch l''.n_items 1 })

-- The loop of `removeItem` with at most `fuel` rounds
pub remove_from : DoubleList → ℕ → Option ℕ → ℕ → Result DoubleList
remove_from l zero curr item = fault no_rounds
remove_from l (suc fuel) none item = ok l
remove_from l (suc fuel) (some a) item =
    let rest : Result DoubleList = remove_from l fuel (l.next a) item in
    if l.item a == item then unlink l a else rest

-- The rounds are one more than the items.
pub remove_item : DoubleList → ℕ → Result DoubleList
remove_item l item = remove_from l (suc l.n_items) l.head item

pub pop_from_head : DoubleList → Option ℕ × DoubleList
pop_from_head l =
    let tail : Option ℕ = if same_pointer l.tail l.head then none else l.tail in
    elim l.head [
      | none ↦ (none, record l { tail = tail })
      | some tmp ↦ (
        some (l.item tmp),
        record l {
          prev = put_at l.prev (l.next tmp) none;
          head = l.next tmp;
          tail = tail;
          n_items = sub_uarch l.n_items 1;
        },
      )
    ]

pub pop_from_tail : DoubleList → Option ℕ × DoubleList
pop_from_tail l =
    let head : Option ℕ = if same_pointer l.head l.tail then none else l.head in
    elim l.tail [
      | none ↦ (none, record l { head = head })
      | some tmp ↦ (
        some (l.item tmp),
        record l {
          next = put_at l.next (l.prev tmp) none;
          tail = l.prev tmp;
          head = head;
          n_items = sub_uarch l.n_items 1;
        },
      )
    ]

pub get_head : DoubleList → Option ℕ
get_head l = elim l.head [ none ↦ none | some a ↦ some (l.item a) ]

pub get_tail : DoubleList → Option ℕ
get_tail l = elim l.tail [ none ↦ none | some a ↦ some (l.item a) ]
