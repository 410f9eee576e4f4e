-- ===== src/NumaMemoryRange.antt =====
-- `NumaMemoryRange`, a bitmap of page frames behind a cache of single frames:
-- __kcore/kernel/common/numaMemoryRange.cpp and
-- __kcore/include/kernel/common/numaMemoryRange.h. A call of the range is one step.
pub mod Held
pub mod Alloc
pub mod Release
pub mod Mapping
mod Tests
use zambesii.Prelude.{
  ℕ, ◌+◌, ◌-◌, ◌*◌, ◌^◌, ◌%◌, Bool, true, false, ◌&&◌, ◌||◌, Option, none, some, ltb, leb,
  if◌then◌else◌, add_uarch, sub_uarch,
}
use zambesii.Prelude.Result.{
  Result, ok, Error, success, invalid_arg_val, Status, value, is_success, ◌>>=◌,
}
use zambesii.MemoryBmp.{MemoryBmp, page_size, Storage}
use zambesii.MemoryBmp
use zambesii.MemoryBmp.Fragmented
use zambesii.FrameCache.{StackCache, new_cache, cache_push, cache_pop, cache_flush}

pub record NumaMemoryRange : Type 0 where
  pub base_addr : ℕ
  pub size : ℕ
  pub bmp : MemoryBmp
  pub frame_cache : StackCache

pub new : ℕ → ℕ → NumaMemoryRange
new base_addr size = record {
  base_addr = base_addr;
  size = size;
  bmp = MemoryBmp.new base_addr size;
  frame_cache = new_cache;
}

pub initialize : NumaMemoryRange → Storage → Result (Error × NumaMemoryRange)
initialize r storage = do
  (e, bmp) ← MemoryBmp.initialize r.bmp storage
  ok (e, record r { bmp = bmp })

pub identify_paddr : NumaMemoryRange → ℕ → Bool
identify_paddr r paddr =
    leb r.base_addr paddr && leb paddr (add_uarch r.base_addr (sub_uarch r.size 1))

pub identify_paddr_range : NumaMemoryRange → ℕ → ℕ → Bool
identify_paddr_range r paddr n_bytes =
    let caller_end : ℕ = sub_uarch (add_uarch paddr n_bytes) 1 in
    let range_end : ℕ = sub_uarch (add_uarch r.base_addr r.size) 1 in
    (leb r.base_addr paddr && ltb paddr range_end)
    || (leb r.base_addr caller_end && leb caller_end range_end)

pub release_frames : NumaMemoryRange → ℕ → ℕ → Result NumaMemoryRange
release_frames r paddr n = cache_push r.frame_cache n paddr >>= λ (e, cache). elim (is_success e) [
  | true ↦ ok (record r { frame_cache = cache })
  | false ↦ MemoryBmp.release_frames r.bmp paddr n >>= λ (released, bmp).
      ok (record r { bmp = bmp; frame_cache = cache })
]

-- `paddr` is not null. The address goes out through it.
pub fragmented_get_frames : NumaMemoryRange → ℕ → Result (Status × Option ℕ × NumaMemoryRange)
fragmented_get_frames r n = cache_pop r.frame_cache 1 >>= λ (e, item, cache). elim (is_success e) [
  | true ↦ ok (value 1, item, record r { frame_cache = cache })
  | false ↦ Fragmented.fragmented_get_frames r.bmp true n >>= λ (status, paddr, bmp).
      ok (status, paddr, record r { bmp = bmp; frame_cache = cache })
]

-- `nFrames << PAGING_BASE_SHIFT`
abbrev pub frame_bytes : ℕ → ℕ
frame_bytes n = n * page_size % 2 ^ 32

pub map_mem_used : NumaMemoryRange → ℕ → ℕ → Result (Error × NumaMemoryRange)
map_mem_used r base_addr n = elim (identify_paddr_range r base_addr (frame_bytes n)) [
  | false ↦ ok (invalid_arg_val, r)
  | true ↦ cache_flush r.frame_cache r.bmp >>= λ (cache, flushed).
      MemoryBmp.map_mem_used flushed base_addr n >>= λ bmp.
      ok (success, record r { bmp = bmp; frame_cache = cache })
]

pub map_mem_unused : NumaMemoryRange → ℕ → ℕ → Result (Error × NumaMemoryRange)
map_mem_unused r base_addr n = elim (identify_paddr_range r base_addr (frame_bytes n)) [
  | false ↦ ok (invalid_arg_val, r)
  | true ↦
      MemoryBmp.map_mem_unused r.bmp base_addr n >>= λ bmp. ok (success, record r { bmp = bmp })
]

pub merge : NumaMemoryRange → NumaMemoryRange → Result (ℕ × NumaMemoryRange)
merge r nmr = cache_flush r.frame_cache r.bmp >>= λ (cache, flushed).
    MemoryBmp.merge flushed nmr.bmp >>= λ (n, bmp).
    ok (n, record r { bmp = bmp; frame_cache = cache })
