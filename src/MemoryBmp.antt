-- ===== src/MemoryBmp.antt =====
-- `MemoryBmp`, the bitmap of the page frames of one stretch of physical memory:
-- __kcore/__kclasses/memBmp.cpp and __kcore/include/__kclasses/memBmp.h, with pages of 4096 bytes
-- and physical addresses of 32 bits (no PAE). Each operation runs under the bitmap's lock from its
-- first access to its last, and is one step here. `fault` is a failed `assert_fatal`, or an access
-- outside of the array.
pub mod Frames
pub mod Ranges
pub mod Merge
pub mod Init
pub mod Fragmented
pub mod Samples
mod Tests
use zambesii.Prelude.{
  ℕ, zero, suc, ◌+◌, ◌-◌, ◌*◌, ◌/◌, ◌%◌, ◌^◌, Bool, true, false, not, ◌&&◌, ◌||◌, List, [], ◌∷◌,
  Option, none, some, ltb, leb, ◌==◌, if◌then◌else◌, drop, replicate, add_uarch, sub_uarch,
}
use zambesii.Prelude.Result.{
  Result, ok, fault, wild_access, Error, success, invalid_arg, memory_nomem, memory_nomem_physical,
  Status, value, failed, assert_fatal, ◌>>=◌,
}
use zambesii.Bits.{word_bits, all_ones, kbit_test, nelements, bit_is_set, set_bit, unset_bit}

abbrev pub page_size : ℕ
page_size = 4096

pub record MemoryBmp : Type 0 where
  pub base_addr : ℕ
  pub end_addr : ℕ
  pub base_pfn : ℕ
  pub end_pfn : ℕ
  pub n_frames : ℕ
  pub n_indexes : ℕ
  pub bmp_size : ℕ
  pub dynamic : Bool
  pub bmp : List ℕ
  pub last_alloc_index : ℕ

pub new : ℕ → ℕ → MemoryBmp
new base_addr size =
    let end_addr : ℕ = add_uarch base_addr (sub_uarch size 1) in
    let base_pfn : ℕ = base_addr / page_size in
    let end_pfn : ℕ = end_addr / page_size in
    let n_frames : ℕ = add_uarch (sub_uarch end_pfn base_pfn) 1 in
    let n_indexes : ℕ = nelements n_frames word_bits in
    record {
      base_addr = base_addr;
      end_addr = end_addr;
      base_pfn = base_pfn;
      end_pfn = end_pfn;
      n_frames = n_frames;
      n_indexes = n_indexes;
      bmp_size = n_indexes * 4;
      dynamic = false;
      bmp = [];
      last_alloc_index = 0;
    }

pub set_frame : MemoryBmp → ℕ → Result MemoryBmp
set_frame m pfn =
    assert_fatal (leb m.base_pfn pfn && leb pfn m.end_pfn)
      (set_bit m.bmp (pfn - m.base_pfn) >>= λ bmp. ok (record m { bmp = bmp }))

pub unset_frame : MemoryBmp → ℕ → Result MemoryBmp
unset_frame m pfn =
    assert_fatal (leb m.base_pfn pfn && leb pfn m.end_pfn)
      (unset_bit m.bmp (pfn - m.base_pfn) >>= λ bmp. ok (record m { bmp = bmp }))

pub test_frame : MemoryBmp → ℕ → Result Bool
test_frame m pfn =
    assert_fatal (leb m.base_pfn pfn && leb pfn m.end_pfn) (bit_is_set m.bmp (pfn - m.base_pfn))

-- `for (i = pfn; i < pfn + rounds; i++) setFrame(i)`, and the same with `unsetFrame`
pub set_frames : MemoryBmp → ℕ → ℕ → Result MemoryBmp
set_frames m pfn zero = ok m
set_frames m pfn (suc rounds) = do m' ← set_frame m pfn; set_frames m' (pfn + 1) rounds

pub unset_frames : MemoryBmp → ℕ → ℕ → Result MemoryBmp
unset_frames m pfn zero = ok m
unset_frames m pfn (suc rounds) = do m' ← unset_frame m pfn; unset_frames m' (pfn + 1) rounds

-- Where `initialize` finds room for the array: it is handed over, or allocated if there is memory.
pub data Storage : Type 0 where
  preallocated allocated out_of_memory : Storage

-- Marks the frames that the stretch covers in part.
pub mark_edges : MemoryBmp → Result MemoryBmp
mark_edges m = do
  m' ← if m.base_addr % page_size == 0 then ok m else set_frame m m.base_pfn
  if m.end_addr % page_size == 0 then set_frame m' m.end_pfn else ok m'

pub initialize : MemoryBmp → Storage → Result (Error × MemoryBmp)
initialize m preallocated = do
  m' ← mark_edges (record m { bmp = replicate m.n_indexes 0 })
  ok (success, m')
initialize m allocated = do
  m' ← mark_edges (record m { bmp = replicate m.n_indexes 0; dynamic = true })
  ok (success, m')
initialize m out_of_memory = ok (memory_nomem, m)

-- The loop of `merge` from `pfn` on; `set` is its counter.
pub merge_frames : MemoryBmp → MemoryBmp → ℕ → ℕ → ℕ → Result (ℕ × MemoryBmp)
merge_frames m b pfn zero ret = ok (ret, m)
merge_frames m b pfn (suc rounds) ret = test_frame b pfn >>= λ used. elim used [
  | true ↦ set_frame m pfn >>= λ m'. merge_frames m' b (pfn + 1) rounds (ret + 1)
  | false ↦ merge_frames m b (pfn + 1) rounds ret
]

pub merge : MemoryBmp → MemoryBmp → Result (ℕ × MemoryBmp)
merge m b =
    if ltb m.end_pfn b.base_pfn || ltb b.end_pfn m.base_pfn
    then ok (0, m)
    else (let start : ℕ = if ltb b.base_pfn m.base_pfn then m.base_pfn else b.base_pfn in
        let max_pfn : ℕ = if ltb m.end_pfn b.end_pfn then m.end_pfn else b.end_pfn in
        merge_frames m b start (max_pfn - start) 0)

-- The range of frames that `mapMemUsed` and `mapMemUnused` go through: its start, and its length.
pub clamp_start : MemoryBmp → ℕ → ℕ
clamp_start m range_base = if leb m.base_addr range_base then range_base / page_size else m.base_pfn

pub clamp_end : MemoryBmp → ℕ → ℕ → ℕ
clamp_end m range_base n_frames =
    let range_end : ℕ = add_uarch (range_base / page_size) n_frames in
    if ltb m.end_pfn range_end then m.end_pfn + 1 else range_end

pub map_mem_used : MemoryBmp → ℕ → ℕ → Result MemoryBmp
map_mem_used m range_base n_frames =
    let start : ℕ = clamp_start m range_base in
    set_frames m start (clamp_end m range_base n_frames - start)

pub map_mem_unused : MemoryBmp → ℕ → ℕ → Result MemoryBmp
map_mem_unused m range_base n_frames =
    let start : ℕ = clamp_start m range_base in
    unset_frames m start (clamp_end m range_base n_frames - start)

-- `true` where the code returns 1.
pub release_frames : MemoryBmp → ℕ → ℕ → Result (Bool × MemoryBmp)
release_frames m frame_addr n_frames =
    let start : ℕ = frame_addr / page_size in
    let range_end : ℕ = add_uarch start n_frames in
    if n_frames == 0
    then ok (false, m)
    else if not (
        (leb start frame_addr && leb frame_addr m.end_pfn)
        || (ltb start range_end && leb range_end m.end_pfn))
    then ok (false, m)
    else (unset_frames m start (range_end - start) >>= λ m'.
        ok (true, record m' { last_alloc_index = sub_uarch start m.base_pfn / word_bits }))
