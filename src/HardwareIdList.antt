-- ===== src/HardwareIdList.antt =====
-- `HardwareIdList`: __kcore/__kclasses/hardwareIdList.cpp and
-- __kcore/include/__kclasses/hardwareIdList.h. An index is `none` where the source has -1, and the
-- ids that are passed in are not negative. The fields of the array are functions of the index; an
-- access outside of the array is a fault. One call runs at a time.
pub mod Chain
pub mod Pairs
pub mod Spec
pub mod Adds
pub mod Growth
pub mod Removes
pub mod Kept
pub mod Finds
pub mod Refines
pub mod Walks
mod Tests
use zambesii.Prelude.{
  ℕ, zero, suc, ◌+◌, ◌/◌, Bool, true, false, ◌||◌, Option, none, some, ◌==◌, leb, ltb,
  if◌then◌else◌,
}
use zambesii.Prelude.Put.{put, put_at}
use zambesii.Prelude.Result.{
  Result, ok, fault, wild_access, no_rounds, Error, success, memory_nomem, general, ◌>>=◌,
}

-- The memory of an array of `sArrayNode`; `valid` is HWIDLIST_FLAGS_INDEX_VALID of `flags`.
pub record Nodes : Type 0 where
  pub next : ℕ → Option ℕ
  pub valid : ℕ → Bool
  pub item : ℕ → Option ℕ

-- `sArrayState`, with the array that `arr` points to
pub record IdList : Type 0 where
  pub pre_allocated : Bool
  pub nodes : Nodes
  pub max_index : Option ℕ
  pub max_allocated_index : Option ℕ
  pub first_valid_index : Option ℕ

-- The constructor; `nodes` stands for the array that there is not yet.
pub new : Nodes → IdList
new nodes = record {
  pre_allocated = false;
  nodes = nodes;
  max_index = none;
  max_allocated_index = none;
  first_valid_index = none;
}

-- The index of the last of `n` nodes, or -1
abbrev pub last_index : ℕ → Option ℕ
last_index zero = none
last_index (suc n) = some n

abbrev pub zeroed : Nodes
zeroed = record { next = λ i. some 0; valid = λ i. false; item = λ i. none }

-- `initialize`, with the size of the memory that is passed in, when it is not NULL, and that of a
-- node. The memory is filled with zeroes.
pub initialize : IdList → Option ℕ → ℕ → IdList
initialize s none node_size = s
initialize s (some size) node_size = record s {
  pre_allocated = true;
  max_allocated_index = elim (size / node_size) [
    | zero ↦ s.max_allocated_index
    | suc n ↦ last_index (suc n)
  ];
  nodes = zeroed;
}

-- `id > max`
abbrev pub is_above : ℕ → Option ℕ → Bool
is_above id none = true
is_above id (some m) = ltb m id

-- `id < index`
abbrev pub is_below : ℕ → Option ℕ → Bool
is_below id none = false
is_below id (some i) = ltb id i

abbrev pub same_index : Option ℕ → ℕ → Bool
same_index none id = false
same_index (some i) id = i == id

-- `maxAllocatedIndex + 1`
abbrev pub n_nodes : IdList → ℕ
n_nodes s = elim s.max_allocated_index [ none ↦ 0 | some m ↦ suc m ]

abbrev pub in_array : IdList → ℕ → Bool
in_array s i = ltb i (n_nodes s)

abbrev pub access {ℓ} : {A : Type ℓ} → IdList → ℕ → Result A → Result A
access s i r = if in_array s i then r else fault wild_access

pub get_item : IdList → ℕ → Result (Option ℕ)
get_item s id =
    if is_above id s.max_index || is_below id s.first_valid_index
    then ok none
    else access s id (ok (if s.nodes.valid id then s.nodes.item id else none))

-- The loop of `findFreeIndex` from `i`, with `n` nodes to go
pub free_from : IdList → ℕ → ℕ → Option ℕ
free_from s i zero = none
free_from s i (suc n) =
    let rest : Option ℕ = free_from s (suc i) n in if s.nodes.valid i then rest else some i

pub find_free_index : IdList → Error × Option ℕ
find_free_index s = elim (free_from s 0 (n_nodes s)) [
  | none ↦ (general, none)
  | some i ↦ (success, some i)
]

-- The item that is returned, and the cursor after the call
pub get_next_item : IdList → Option ℕ → Result (Option ℕ × Option ℕ)
get_next_item s none = elim s.first_valid_index [
  | none ↦ ok (none, none)
  | some i ↦ access s i (ok (s.nodes.item i, some i))
]
get_next_item s (some cursor) = access s cursor (elim (s.nodes.next cursor) [
  | none ↦ ok (none, some cursor)
  | some i ↦ access s i (ok (s.nodes.item i, some i))
])

pub get_n_indexes : IdList → ℕ
get_n_indexes s = elim s.max_index [ none ↦ 0 | some m ↦ m + 1 ]

-- What is written for a new item at `index` last: the item and its flag
pub set_item : IdList → ℕ → Option ℕ → Result IdList
set_item s index item = access s index (
    ok (record s {
      nodes = record s.nodes {
        item = put s.nodes.item index item;
        valid = put s.nodes.valid index true;
      };
    }))

-- The new array: the nodes of the old one, and behind them what is in the memory that was
-- allocated. The `memset` of the first allocation clears 0 bytes.
abbrev pub copy : IdList → Nodes → Nodes
copy s fresh = elim s.max_allocated_index [
  | none ↦ fresh
  | some m ↦ record {
    next = λ i. if leb i m then s.nodes.next i else fresh.next i;
    valid = λ i. if leb i m then s.nodes.valid i else fresh.valid i;
    item = λ i. if leb i m then s.nodes.item i else fresh.item i;
  }
]

-- The links of a new item behind the last one
pub link_back : IdList → ℕ → Result IdList
link_back s index =
    let linked : IdList = record s {
      max_index = some index;
      nodes = record s.nodes {
        next = put (put_at s.nodes.next s.max_index (some index)) index none;
      };
    } in
    elim s.max_index [ none ↦ fault wild_access | some m ↦ access s m (ok linked) ]

-- The links of a new item in an empty array
pub link_only : IdList → ℕ → IdList
link_only s index = record s {
  first_valid_index = some index;
  max_index = some index;
  nodes = record s.nodes { next = put s.nodes.next index none };
}

-- The links of a new item behind the array that was there, with the greatest index in use
pub link_behind : IdList → ℕ → Option ℕ → Result IdList
link_behind s index none = ok (link_only s index)
link_behind s index (some m) = link_back s index

-- The case of `addItem` in which the array is resized
pub grow : IdList → Nodes → ℕ → Option ℕ → Result IdList
grow s fresh index item =
    let larger : IdList = record s { nodes = copy s fresh; max_allocated_index = some index } in
    link_behind larger index s.max_index >>= λ s'. set_item s' index item

-- The loop of `addItem` with at most `fuel` rounds
pub link_from : IdList → ℕ → ℕ → Option ℕ → Result IdList
link_from s index zero curr = fault no_rounds
link_from s index (suc fuel) none = ok s
link_from s index (suc fuel) (some i) =
    let rest : Result IdList = link_from s index fuel (s.nodes.next i) in
    let linked : IdList = record s {
      nodes = record s.nodes {
        next = put (put s.nodes.next index (s.nodes.next i)) i (some index);
      };
    } in
    access s i
      (if is_below index (s.nodes.next i) then (if i == index then ok s else ok linked) else rest)

-- The links of a new item in an array that is large enough, with the first index in use
pub link_at : IdList → ℕ → Option ℕ → Result IdList
link_at s index none = ok (link_only s index)
link_at s index (some f) =
    let rest : Result IdList = link_from s index (suc (n_nodes s)) (some f) in
    let first : IdList = record s {
      first_valid_index = some index;
      nodes = record s.nodes { next = put s.nodes.next index (some f) };
    } in
    if ltb index f
    then ok first
    else (if is_above index s.max_index then link_back s index else rest)

pub link : IdList → ℕ → Result IdList
link s index = link_at s index s.first_valid_index

-- `fresh` is the memory that `memAlloc` returns when the array has to be resized.
pub add_item : IdList → Option Nodes → ℕ → Option ℕ → Result (Error × IdList)
add_item s fresh index item =
    let grown : Result (Error × IdList) = elim fresh [
      | none ↦ ok (memory_nomem, s)
      | some nodes ↦ grow s nodes index item >>= λ s'. ok (success, s')
    ] in
    if is_above index s.max_allocated_index
    then grown
    else (link s index >>= λ s'. set_item s' index item >>= λ s''. ok (success, s''))

-- The loop of `removeItem` with at most `fuel` rounds
pub unlink_from : IdList → ℕ → ℕ → Option ℕ → Result IdList
unlink_from s id zero curr = fault no_rounds
unlink_from s id (suc fuel) none = ok s
unlink_from s id (suc fuel) (some i) =
    let rest : Result IdList = unlink_from s id fuel (s.nodes.next i) in
    let unlinked : IdList = record s {
      max_index = if same_index s.max_index id then some i else s.max_index;
      nodes = record s.nodes {
        next = put s.nodes.next i (s.nodes.next id);
        valid = put s.nodes.valid id false;
      };
    } in
    access s i (if same_index (s.nodes.next i) id then access s id (ok unlinked) else rest)

pub remove_item : IdList → ℕ → Result IdList
remove_item s id =
    let first_out : IdList = record s {
      first_valid_index = s.nodes.next id;
      max_index = if same_index s.max_index id then none else s.max_index;
      nodes = record s.nodes { valid = put s.nodes.valid id false };
    } in
    let rest : Result IdList = unlink_from s id (suc (n_nodes s)) s.first_valid_index in
    if is_above id s.max_index
    then ok s
    else (if same_index s.first_valid_index id then access s id (ok first_out) else rest)
