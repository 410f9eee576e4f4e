-- ===== src/NumaMemoryBank.antt =====
-- `NumaMemoryBank`, the ranges of physical memory of one NUMA bank:
-- __kcore/kernel/common/numaMemoryBank.cpp. A range is known by its address, and `none` is NULL.
-- Each operation is one step: the reader locks that the source takes and gives back on the way to a
-- new default range are not interleaved here.
pub mod Routing
pub mod Lifetime
mod Tests
use zambesii.Prelude.{
  ℕ, zero, suc, ◌+◌, Bool, true, false, ◌||◌, List, [], ◌∷◌, Option, none, some, ◌==◌, ltb,
  if◌then◌else◌,
}
use zambesii.Prelude.Result.{
  Result, ok, fault, wild_access, Error, success, memory_nomem, memory_nomem_physical,
  invalid_arg_val, is_success, Status, value, failed, ◌>>=◌,
}
use zambesii.MemoryBmp.{Storage}
use zambesii.NumaMemoryRange.{NumaMemoryRange, identify_paddr, identify_paddr_range}
use zambesii.NumaMemoryRange

-- `sRangePtr`, with the range that it points to
pub record RangePtr : Type 0 where
  pub address : ℕ
  pub range : NumaMemoryRange

pub record NumaMemoryBank : Type 0 where
  pub ranges : List RangePtr
  pub def_range : Option ℕ

pub new : NumaMemoryBank
new = record { ranges = []; def_range = none }

-- `address` is what `memAlloc` gives, `storage` what the bitmap gets, `node` whether the cache has a
-- node.
pub add_memory_range :
    NumaMemoryBank → ℕ → ℕ → Option ℕ → Storage → Bool → Result (Error × NumaMemoryBank)
add_memory_range bank base_addr size none storage node = ok (memory_nomem, bank)
add_memory_range bank base_addr size (some address) storage node =
    NumaMemoryRange.initialize (NumaMemoryRange.new base_addr size) storage >>= λ (err, range).
    if is_success err
    then (if node
        then ok (
          success,
          record {
            ranges = record { address = address; range = range } ∷ bank.ranges;
            def_range = elim bank.def_range [ none ↦ some address | some d ↦ some d ];
          },
        )
        else ok (memory_nomem, bank))
    else ok (err, bank)

-- The first range with the address, and the ranges without it.
pub remove_range : List RangePtr → ℕ → Option (RangePtr × List RangePtr)
remove_range [] base_addr = none
remove_range (cur ∷ ranges) base_addr =
    let rest : Option (RangePtr × List RangePtr) = elim (remove_range ranges base_addr) [
      | none ↦ none
      | some (r, left) ↦ some (r, cur ∷ left)
    ] in
    if identify_paddr cur.range base_addr then some (cur, ranges) else rest

abbrev pub is_default : Option ℕ → ℕ → Bool
is_default none address = false
is_default (some d) address = d == address

pub remove_memory_range : NumaMemoryBank → ℕ → Error × NumaMemoryBank
remove_memory_range bank base_addr = elim (remove_range bank.ranges base_addr) [
  | none ↦ (invalid_arg_val, bank)
  | some (cur, ranges) ↦ (
    success,
    record {
      ranges = ranges;
      def_range = if is_default bank.def_range cur.address then none else bank.def_range;
    },
  )
]

pub release_in : List RangePtr → ℕ → ℕ → Result (List RangePtr)
release_in [] base_paddr n = ok []
release_in (cur ∷ ranges) base_paddr n = elim (identify_paddr cur.range base_paddr) [
  | true ↦ NumaMemoryRange.release_frames cur.range base_paddr n >>= λ range.
      ok (record cur { range = range } ∷ ranges)
  | false ↦ release_in ranges base_paddr n >>= λ rest. ok (cur ∷ rest)
]

pub release_frames : NumaMemoryBank → ℕ → ℕ → Result NumaMemoryBank
release_frames bank base_paddr n =
    release_in bank.ranges base_paddr n >>= λ ranges. ok (record bank { ranges = ranges })

pub identify_in : List RangePtr → ℕ → Bool
identify_in [] paddr = false
identify_in (cur ∷ ranges) paddr =
    let rest : Bool = identify_in ranges paddr in
    if identify_paddr cur.range paddr then true else rest

pub bank_identify_paddr : NumaMemoryBank → ℕ → Bool
bank_identify_paddr bank paddr = identify_in bank.ranges paddr

pub identify_range_in : List RangePtr → ℕ → ℕ → Bool
identify_range_in [] base_paddr n_bytes = false
identify_range_in (cur ∷ ranges) base_paddr n_bytes =
    let rest : Bool = identify_range_in ranges base_paddr n_bytes in
    if identify_paddr_range cur.range base_paddr n_bytes then true else rest

pub bank_identify_paddr_range : NumaMemoryBank → ℕ → ℕ → Bool
bank_identify_paddr_range bank base_paddr n_bytes = identify_range_in bank.ranges base_paddr n_bytes

pub map_used_in : List RangePtr → ℕ → ℕ → Result (List RangePtr)
map_used_in [] base_addr n = ok []
map_used_in (cur ∷ ranges) base_addr n =
    NumaMemoryRange.map_mem_used cur.range base_addr n >>= λ (err, range).
    map_used_in ranges base_addr n >>= λ rest. ok (record cur { range = range } ∷ rest)

pub map_mem_used : NumaMemoryBank → ℕ → ℕ → Result NumaMemoryBank
map_mem_used bank base_addr n =
    map_used_in bank.ranges base_addr n >>= λ ranges. ok (record bank { ranges = ranges })

pub map_unused_in : List RangePtr → ℕ → ℕ → Result (List RangePtr)
map_unused_in [] base_addr n = ok []
map_unused_in (cur ∷ ranges) base_addr n =
    NumaMemoryRange.map_mem_unused cur.range base_addr n >>= λ (err, range).
    map_unused_in ranges base_addr n >>= λ rest. ok (record cur { range = range } ∷ rest)

pub map_mem_unused : NumaMemoryBank → ℕ → ℕ → Result NumaMemoryBank
map_mem_unused bank base_addr n =
    map_unused_in bank.ranges base_addr n >>= λ ranges. ok (record bank { ranges = ranges })

-- `ret > 0`
abbrev pub got_some : Status → Bool
got_some (value n) = ltb 0 n
got_some (failed e) = false

-- A call on the range at an address. A pointer to no range of the bank is wild.
pub get_at : List RangePtr → ℕ → ℕ → Result (Status × Option ℕ × List RangePtr)
get_at [] address n = fault wild_access
get_at (cur ∷ ranges) address n = elim (cur.address == address) [
  | true ↦ NumaMemoryRange.fragmented_get_frames cur.range n >>= λ (ret, paddr, range).
      ok (ret, paddr, record cur { range = range } ∷ ranges)
  | false ↦ get_at ranges address n >>= λ (ret, paddr, rest). ok (ret, paddr, cur ∷ rest)
]

-- The loop over the ranges but the default one: the status, the address of the frames and that of
-- the range that gave them, and the ranges.
pub get_elsewhere : List RangePtr → ℕ → ℕ → Result (Option (Status × Option ℕ × ℕ) × List RangePtr)
get_elsewhere [] default n = ok (none, [])
get_elsewhere (cur ∷ ranges) default n = elim (cur.address == default) [
  | true ↦ get_elsewhere ranges default n >>= λ (got, rest). ok (got, cur ∷ rest)
  | false ↦ NumaMemoryRange.fragmented_get_frames cur.range n >>= λ (ret, paddr, range).
      elim (got_some ret) [
        | true ↦ ok (some (ret, paddr, cur.address), record cur { range = range } ∷ ranges)
        | false ↦ get_elsewhere ranges default n >>= λ (got, rest).
            ok (got, record cur { range = range } ∷ rest)
      ]
]

-- `fragmentedGetFrames` with a default range
pub get_with_default : List RangePtr → ℕ → ℕ → Result (Status × Option ℕ × NumaMemoryBank)
get_with_default ranges default n = get_at ranges default n >>= λ (ret, paddr, ranges').
    elim (got_some ret) [
      | true ↦ ok (ret, paddr, record { ranges = ranges'; def_range = some default })
      | false ↦ get_elsewhere ranges' default n >>= λ (got, ranges''). elim got [
        | some (ret', paddr', address) ↦
            ok (ret', paddr', record { ranges = ranges''; def_range = some address })
        | none ↦ ok (
          failed memory_nomem_physical,
          none,
          record { ranges = ranges''; def_range = some default },
        )
      ]
    ]

pub fragmented_get_frames : NumaMemoryBank → ℕ → Result (Status × Option ℕ × NumaMemoryBank)
fragmented_get_frames bank n = elim bank.def_range [
  | some default ↦ get_with_default bank.ranges default n
  | none ↦ elim bank.ranges [
    | [] ↦ ok (failed memory_nomem_physical, none, bank)
    | cur ∷ rest ↦ get_with_default bank.ranges cur.address n
  ]
]

pub merge_range : NumaMemoryRange → List RangePtr → ℕ → Result (ℕ × NumaMemoryRange)
merge_range range [] ret = ok (ret, range)
merge_range range (cur2 ∷ others) ret =
    NumaMemoryRange.merge range cur2.range >>= λ (n, range'). merge_range range' others (ret + n)

pub merge_in : List RangePtr → List RangePtr → ℕ → Result (ℕ × List RangePtr)
merge_in [] others ret = ok (ret, [])
merge_in (cur ∷ ranges) others ret = merge_range cur.range others ret >>= λ (ret', range).
    merge_in ranges others ret' >>= λ (total, rest). ok (total, record cur { range = range } ∷ rest)

pub merge : NumaMemoryBank → NumaMemoryBank → Result (ℕ × NumaMemoryBank)
merge bank nmb =
    merge_in bank.ranges nmb.ranges 0 >>= λ (ret, ranges). ok (ret, record bank { ranges = ranges })
