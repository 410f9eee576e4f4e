-- ===== src/NumaMemoryRange/Mapping.antt =====
-- `NumaMemoryRange::mapMemUsed`: the cache is flushed, then the range is marked.
use zambesii.Prelude.{
  ◌*◌, ℕ, ◌+◌, ◌/◌, ◌^◌, ◌<◌, ◌≡◌, refl, [], ◌∷◌, true, ◌&&◌, if◌then◌else◌, arith, leb, ltb,
}
use zambesii.Prelude.Result.{ok, success, invalid_arg_val}
use zambesii.MemoryBmp.{page_size}
use zambesii.MemoryBmp.Frames.{InRange}
use zambesii.MemoryBmp.Ranges.{map_mem_used-Marks}
use zambesii.FrameCache.{CacheStack, cache_flush}
use zambesii.FrameCache.Stack.{contents}
use zambesii.FrameCache.Flush.{flush_stack-Freed}
use zambesii.NumaMemoryRange.{NumaMemoryRange, map_mem_used, identify_paddr_range, frame_bytes}
use zambesii.NumaMemoryRange.Held.{IsValid, held}

-- The range after `n` frames from `start` on were reserved.
pub record Reserved (r : NumaMemoryRange) (s : CacheStack) (start n : ℕ) (r' : NumaMemoryRange)
    (s' : CacheStack) : Type 0 where
  pub valid : IsValid r' s'
  pub empty : contents s' ≡ []
  pub frames :
      (q : ℕ)
      → InRange r.bmp q
      → held r' s' q ≡ (if leb start q && ltb q (start + n) then true else held r s q)

module _ {r : NumaMemoryRange} {s : CacheStack} (v : IsValid r s) (base_addr n : ℕ)
    (fits : base_addr / page_size + n < 2 ^ 32) where
  -- `mapMemUsed` of a valid range, for frames whose first number and count add up to less than
  -- 2 ^ 32, so that their end does not wrap, and of which the range recognises the bytes, succeeds:
  -- afterwards the cache is empty, every frame asked for that the bitmap covers is held, no other
  -- frame changes hands, and the range stays valid.
  pub map_mem_used-Reserved :
      identify_paddr_range r base_addr (frame_bytes n) ≡ true
      → (r' : NumaMemoryRange) × (s' : CacheStack) × (map_mem_used r base_addr n ≡ ok (success, r'))
        × Reserved r s (base_addr / page_size) n r' s'
  unfolding map_mem_used cache_flush
  map_mem_used-Reserved known =
      let (m', flushed, k) =
        flush_stack-Freed s r.bmp v.bitmap v.single_frames v.stack v.releasable in
      let (m'', marked, h) = map_mem_used-Marks m' base_addr n k.valid fits in
      (
        record r { bmp = m''; frame_cache = record s { depth = 0 } ∷ [] },
        record s { depth = 0 },
        ground (arith, known, v.one_stack, flushed, marked),
        record {
          valid = record {
            bitmap = h.valid;
            one_stack = refl;
            single_frames = v.single_frames;
            stack = ground (arith, v.stack);
            releasable = tt;
            distinct = tt;
            cached_used = λ q i e. cc e;
          };
          empty = refl;
          frames = λ q i. ground (
            arith,
            h.frames q (omega (arith, i, k.base_pfn), omega (arith, i, k.end_pfn)),
            k.frames q i,
            v.cached_used q i,
          );
        },
      )

-- A region that starts below a range and ends past it is not reserved in the range at all: the call
-- answers ERROR_INVALID_ARG_VAL and changes nothing. The range has bytes, and the region ends below
-- 2 ^ 32.
map_mem_used_enclosing :
    (r : NumaMemoryRange) (base_addr n : ℕ)
    → base_addr < r.base_addr
    → 0 < r.size
    → r.base_addr + r.size < base_addr + n * page_size
    → base_addr + n * page_size < 2 ^ 32
    → map_mem_used r base_addr n ≡ ok (invalid_arg_val, r)
unfolding map_mem_used identify_paddr_range
map_mem_used_enclosing r base_addr n below bytes past fits = ground arith
