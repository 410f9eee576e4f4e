-- ===== src/VSwamp.antt =====
-- `VSwamp`, the allocator of virtual pages of an address space: __kcore/kernel/common/vSwamp.cpp and
-- __kcore/include/kernel/common/vSwamp.h, with `SwampInfoNode` of
-- __kcore/include/__kclasses/swampInfoNode.h. The free holes are doubly linked nodes, in a store by
-- address; a node that is deleted is not linked any more. A call holds the lock of the swamp. The
-- source walks until NULL; here the walks have `fuel`, one round for each node and one more.
pub mod Holes
pub mod Gets
pub mod Ranges
pub mod Relinks
pub mod Releases
pub mod Exhaustion
pub mod Joins
pub mod Frees
mod Tests
use zambesii.Prelude.{
  ℕ, zero, suc, ◌+◌, ◌-◌, ◌*◌, ◌/◌, ◌%◌, ◌^◌, Bool, true, false, ◌||◌, not, Option, none, some,
  ◌==◌, ltb, leb, if◌then◌else◌, add_uarch,
}
use zambesii.Prelude.Put.{put, put_at}
use zambesii.Prelude.Result.{Result, ok, fault, no_rounds, Error, success, fatal, ◌>>=◌}

-- The fields of the nodes by address, and those of the swamp; `init_node` is `&initSwampNode`.
pub record VSwamp : Type 0 where
  pub base_addr : ℕ
  pub size : ℕ
  pub init_node : ℕ
  pub head : Option ℕ
  pub tail : Option ℕ
  pub base : ℕ → ℕ
  pub n_pages : ℕ → ℕ
  pub prev : ℕ → Option ℕ
  pub next : ℕ → Option ℕ

-- `nPages * PAGING_BASE_SIZE`, also as the shift by PAGING_BASE_SHIFT
abbrev pub bytes : ℕ → ℕ
bytes n = n * 4096 % 2 ^ 32

-- `PAGING_BASE_ALIGN_FORWARD` and `PAGING_BASE_ALIGN_TRUNCATED`
abbrev pub align_forward : ℕ → ℕ
align_forward addr = if addr % 4096 == 0 then addr else add_uarch addr 4096 / 4096 * 4096

abbrev pub align_truncated : ℕ → ℕ
align_truncated addr = addr / 4096 * 4096

-- The constructor, with the address of its `initSwampNode`
pub new : ℕ → ℕ → ℕ → VSwamp
new swamp_start swamp_size init_node = record {
  base_addr = align_forward swamp_start;
  size = align_truncated swamp_size;
  init_node = init_node;
  head = none;
  tail = none;
  base = λ a. 0;
  n_pages = λ a. 0;
  prev = λ a. none;
  next = λ a. none;
}

-- `PAGING_BYTES_TO_PAGES`
abbrev pub bytes_to_pages : ℕ → ℕ
bytes_to_pages n = n / 4096 + (if n % 4096 == 0 then 0 else 1)

-- `node_list` is what `swampNodeList.initialize` returns.
pub initialize : VSwamp → Error → Error × VSwamp
initialize s node_list = if ltb (add_uarch s.base_addr s.size) s.base_addr then (fatal, s) else (
  node_list,
  record s {
    base = put s.base s.init_node s.base_addr;
    n_pages = put s.n_pages s.init_node (bytes_to_pages s.size);
    prev = put s.prev s.init_node none;
    next = put s.next s.init_node none;
    head = some s.init_node;
    tail = some s.init_node;
  },
)

abbrev pub is_node : Option ℕ → ℕ → Bool
is_node none a = false
is_node (some b) a = b == a

-- `deleteSwampNode`, whose memory is freed outside of the model
pub delete_swamp_node : VSwamp → ℕ → VSwamp
delete_swamp_node s a = record s {
  prev = put_at s.prev (s.next a) (s.prev a);
  next = put_at s.next (s.prev a) (s.next a);
}

-- The body of the loop of `getPages` where the node `a` has enough pages.
pub take_pages : VSwamp → ℕ → ℕ → VSwamp
take_pages s n a =
    let left : ℕ = s.n_pages a - n in
    let s' : VSwamp = record s {
      n_pages = put s.n_pages a left;
      base = put s.base a (add_uarch (s.base a) (bytes n));
    } in
    if left == 0
    then delete_swamp_node
        (record s' {
          head = if is_node s.head a then s.next a else s.head;
          tail = if is_node s.tail a then s.prev a else s.tail;
        })
        a
    else s'

pub get_from : VSwamp → ℕ → Option ℕ → ℕ → Result (Option ℕ × VSwamp)
get_from s zero curr n = fault no_rounds
get_from s (suc fuel) none n = ok (none, s)
get_from s (suc fuel) (some a) n =
    let rest : Result (Option ℕ × VSwamp) = get_from s fuel (s.next a) n in
    if leb n (s.n_pages a) then ok (some (s.base a), take_pages s n a) else rest

pub get_pages : VSwamp → ℕ → ℕ → Result (Option ℕ × VSwamp)
get_pages s fuel n = get_from s fuel s.head n

-- What `findInsertionNode` returns with its status; no node is NULL.
pub data Insertion : Type 0 where
  insert_before : (current_node : ℕ) → Insertion
  insert_after : (alt_node : Option ℕ) → Insertion

pub find_insertion_node : VSwamp → ℕ → Option ℕ → Option ℕ → ℕ → Result Insertion
find_insertion_node s zero alt_node curr vaddr = fault no_rounds
find_insertion_node s (suc fuel) alt_node none vaddr = ok (insert_after alt_node)
find_insertion_node s (suc fuel) alt_node (some a) vaddr =
    let rest : Result Insertion = find_insertion_node s fuel (some a) (s.next a) vaddr in
    if ltb vaddr (s.base a) then ok (insert_before a) else rest

-- `getNewSwampNode`, at the address `c` that the allocator returned
pub new_swamp_node : VSwamp → ℕ → ℕ → ℕ → Option ℕ → Option ℕ → VSwamp
new_swamp_node s c vaddr n prev next = record s {
  base = put s.base c vaddr;
  n_pages = put s.n_pages c n;
  prev = put s.prev c prev;
  next = put s.next c next;
}

-- The hole at `a` is joined with the one at `p` before it, where they touch.
pub join_previous : VSwamp → ℕ → Option ℕ → VSwamp
join_previous s a none = s
join_previous s a (some p) =
    if add_uarch (s.base p) (bytes (s.n_pages p)) == s.base a
    then delete_swamp_node
        (record s {
          base = put s.base a (s.base p);
          n_pages = put s.n_pages a (add_uarch (s.n_pages a) (s.n_pages p));
          head = if is_node s.head p then some a else s.head;
        })
        p
    else s

-- The branch of VSWAMP_INSERT_BEFORE
pub release_before : VSwamp → ℕ → ℕ → ℕ → Option ℕ → VSwamp
release_before s a vaddr n alloc =
    if add_uarch vaddr (bytes n) == s.base a
    then join_previous
        (record s {
          base = put s.base a vaddr;
          n_pages = put s.n_pages a (add_uarch (s.n_pages a) n);
        })
        a (s.prev a)
    else elim alloc [
      | none ↦ s
      | some c ↦
          let s' : VSwamp = new_swamp_node s c vaddr n (s.prev a) (some a) in
          record s' {
            prev = put s'.prev a (some c);
            next = put_at s'.next (s'.prev c) (some c);
            head = elim (s'.prev c) [ none ↦ some c | some p ↦ s.head ];
          }
    ]

-- The branch of VSWAMP_INSERT_AFTER, behind the node `t`
pub release_after : VSwamp → ℕ → ℕ → ℕ → Option ℕ → VSwamp
release_after s t vaddr n alloc = elim s.head [
  | none ↦ record s {
    base = put s.base s.init_node vaddr;
    n_pages = put s.n_pages s.init_node n;
    prev = put s.prev s.init_node none;
    next = put s.next s.init_node none;
    head = some s.init_node;
    tail = some s.init_node;
  }
  | some h ↦ elim alloc [
    | none ↦ record s { next = put s.next t none; tail = none }
    | some c ↦
        let s' : VSwamp = new_swamp_node s c vaddr n (some t) none in
        record s' { next = put s'.next t (some c); tail = some c }
  ]
]

abbrev pub release_at : VSwamp → ℕ → ℕ → Option ℕ → Insertion → VSwamp
release_at s vaddr n alloc (insert_before a) = release_before s a vaddr n alloc
release_at s vaddr n alloc (insert_after none) = s
release_at s vaddr n alloc (insert_after (some t)) = release_after s t vaddr n alloc

-- `releasePages`; `alloc` is the node that `getNewSwampNode` gets, should it be called, and `none` goes
-- the way of the source's tests for NULL.
pub release_pages : VSwamp → ℕ → ℕ → ℕ → Option ℕ → Result VSwamp
release_pages s fuel vaddr n alloc =
    if vaddr == 0 || (not (vaddr % 4096 == 0) || n == 0)
    then ok s
    else (find_insertion_node s fuel none s.head vaddr >>= λ at. ok (release_at s vaddr n alloc at))
