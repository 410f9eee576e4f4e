-- ===== src/NumaMemoryRange/Tests.antt =====
-- A range of 40 frames from frame 16 on, with frame 17 in its cache.
use zambesii.Prelude.{
  ℕ, ◌*◌, ◌/◌, ◌≡◌, refl, true, false, [], ◌∷◌, arith, replicate, ◌==◌, ◌||◌, length-replicate,
}
use zambesii.Prelude.Result.{ok, success}
use zambesii.Bits.{kbit_test}
use zambesii.MemoryBmp.{page_size}
use zambesii.MemoryBmp.Frames.{used}
use zambesii.MemoryBmp.Samples.{some_used, some_used-IsValid}
use zambesii.FrameCache.{CacheStack}
use zambesii.NumaMemoryRange.{
  NumaMemoryRange, fragmented_get_frames, release_frames, map_mem_used, identify_paddr_range,
}
use zambesii.NumaMemoryRange.Held.{IsValid, held}
use zambesii.NumaMemoryRange.Alloc.{Gets, fragmented_get_frames-Gets}
use zambesii.NumaMemoryRange.Release.{TakenBack, release_frames-TakenBack}
use zambesii.NumaMemoryRange.Mapping.{Reserved, map_mem_used-Reserved}

abbrev one_cached : CacheStack
one_cached = record { stack_size = 1; stack = 17 * page_size ∷ replicate 1023 0; depth = 1 }

abbrev range : NumaMemoryRange
range = record {
  base_addr = 16 * page_size;
  size = 40 * page_size;
  bmp = some_used;
  frame_cache = one_cached ∷ [];
}

frame_17_used : used some_used 17 ≡ true
unfolding kbit_test
frame_17_used = refl

frame_18_held : held range one_cached 18 ≡ true
unfolding kbit_test
frame_18_held = refl

range-IsValid : IsValid range one_cached
range-IsValid = record {
  bitmap = some_used-IsValid;
  one_stack = refl;
  single_frames = refl;
  stack = ground (arith, length-replicate {A = ℕ} 1023 0);
  releasable = omega arith;
  distinct = (refl, tt);
  cached_used = λ q i e. only_17 q e;
}
  where
    only_17 : (q : ℕ) → (17 * page_size == q * page_size) || false ≡ true → used some_used q ≡ true
    only_17 q e = let same : q ≡ 17 = ground arith in rw same frame_17_used

fragmented_get_frames-Gets_example : Gets range one_cached 3 (fragmented_get_frames range 3)
fragmented_get_frames-Gets_example = fragmented_get_frames-Gets range-IsValid 3 (omega arith)

release_frames-TakenBack_example :
    (r' : NumaMemoryRange) × (s' : CacheStack) × (release_frames range (18 * page_size) 1 ≡ ok r')
    × TakenBack range one_cached 18 1 r' s'
release_frames-TakenBack_example =
    release_frames-TakenBack range-IsValid 18 1 (omega arith) (omega arith) (omega arith)
      (λ q lo hi. let same : q ≡ 18 = omega arith in rw same frame_18_held)

map_mem_used-Reserved_example :
    (r' : NumaMemoryRange) × (s' : CacheStack) × (map_mem_used range (20 * page_size) 4
      ≡ ok (success, r'))
    × Reserved range one_cached ((20 * page_size) / page_size) 4 r' s'
unfolding identify_paddr_range
map_mem_used-Reserved_example =
    map_mem_used-Reserved range-IsValid (20 * page_size) 4 (omega arith) refl
