-- ===== src/NumaMemoryRange/Release.antt =====
-- `NumaMemoryRange::releaseFrames`: the frames that it takes back.
use mathlib.Core.Path.{subst}
use zambesii.Prelude.{
  ℕ, ◌+◌, ◌*◌, ◌/◌, ◌≤◌, ◌<◌, ◌≡◌, refl, ◌∙◌, [], ◌∷◌, true, false, ◌&&◌, if◌then◌else◌, arith, leb,
  ltb, ℕ_discrete,
}
use zambesii.Prelude.Result.{Result, ok, general}
use zambesii.MemoryBmp.{MemoryBmp, page_size}
use zambesii.MemoryBmp.Frames.{InRange}
use zambesii.MemoryBmp.Ranges.{Released, release_frames-Released}
use zambesii.FrameCache.{CacheStack, max_items, cache_push}
use zambesii.FrameCache.Stack
use zambesii.FrameCache.Stack.{contents, push-full, push-cons}
use zambesii.FrameCache.Flush.{AllReleasable-range}
use zambesii.NumaMemoryRange.{NumaMemoryRange, release_frames}
use zambesii.NumaMemoryRange.Held.{IsValid, held}

-- The range after it took back the `n` frames from `start` on.
pub record TakenBack (r : NumaMemoryRange) (s : CacheStack) (start n : ℕ) (r' : NumaMemoryRange)
    (s' : CacheStack) : Type 0 where
  pub valid : IsValid r' s'
  pub base_pfn : r'.bmp.base_pfn ≡ r.bmp.base_pfn
  pub end_pfn : r'.bmp.end_pfn ≡ r.bmp.end_pfn
  pub frames :
      (q : ℕ)
      → InRange r.bmp q
      → held r' s' q ≡ (if leb start q && ltb q (start + n) then false else held r s q)

module _ {r : NumaMemoryRange} {s : CacheStack} (v : IsValid r s) (start n : ℕ) (pos : 0 < n)
    (above : r.bmp.base_pfn ≤ start) (below : start + n ≤ r.bmp.end_pfn)
    (callers : (q : ℕ) → start ≤ q → q < start + n → held r s q ≡ true) where
  abbrev ReleaseOutcome : Result NumaMemoryRange → Type 0
  ReleaseOutcome res =
      (r' : NumaMemoryRange) × (s' : CacheStack) × (res ≡ ok r') × TakenBack r s start n r' s'

  to_cache :
      (s' : CacheStack)
      → n ≡ 1
      → Stack.IsValid s'
      → s'.stack_size ≡ s.stack_size
      → contents s' ≡ start * page_size ∷ contents s
      → TakenBack r s start n (record r { frame_cache = s' ∷ [] }) s'
  to_cache s' one w size at =
      let own = callers start (omega arith) (omega arith) in
      record {
        valid = record {
          bitmap = v.bitmap;
          one_stack = refl;
          single_frames = size ∙ v.single_frames;
          stack = w;
          releasable = rw at ((omega arith, omega arith, omega arith), v.releasable);
          distinct = rw at (ground (arith, own), v.distinct);
          cached_used = rw at (λ q i e. ground (arith, own, v.cached_used q i));
        };
        base_pfn = refl;
        end_pfn = refl;
        frames = λ q i. rw at (ground arith);
      }

  to_bitmap :
      (m' : MemoryBmp)
      → Released r.bmp start n m'
      → TakenBack r s start n (record r { bmp = m'; frame_cache = s ∷ [] }) s
  to_bitmap m' k = record {
    valid = record {
      bitmap = k.valid;
      one_stack = refl;
      single_frames = v.single_frames;
      stack = v.stack;
      releasable = AllReleasable-range r.bmp m' (contents s) k.base_pfn k.end_pfn v.releasable;
      distinct = v.distinct;
      cached_used = λ q i e.
          let j : InRange r.bmp q = (omega (arith, i, k.base_pfn), omega (arith, i, k.end_pfn)) in
          ground (arith, k.frames q j, v.cached_used q j e, λ (lo : start ≤ q). callers q lo);
    };
    base_pfn = k.base_pfn;
    end_pfn = k.end_pfn;
    frames = λ q i. ground (arith, k.frames q i);
  }

  no_room :
      cache_push r.frame_cache n (start * page_size) ≡ ok (general, s ∷ [])
      → ReleaseOutcome (release_frames r (start * page_size) n)
  unfolding release_frames
  no_room full =
      let at : start * page_size / page_size ≡ start = omega arith in
      let (m', step, k) =
        release_frames-Released r.bmp (start * page_size) n v.bitmap pos (omega arith)
          (omega arith) in
      (
        record r { bmp = m'; frame_cache = s ∷ [] },
        s,
        ground (arith, full, step),
        to_bitmap m' (subst (λ pfn. Released r.bmp pfn n m') at k),
      )

  -- `releaseFrames` of frames that a caller holds, the last frame of the range not among them,
  -- never panics: they are no longer held, whether they go to the cache or to the bitmap, no other
  -- frame changes hands, and the range stays valid.
  pub release_frames-TakenBack : ReleaseOutcome (release_frames r (start * page_size) n)
  unfolding release_frames cache_push
  release_frames-TakenBack = elim (ℕ_discrete n 1) [
    | yes one ↦ elim (ℕ_discrete s.depth max_items) [
      | yes full ↦
          no_room
            (rw v.one_stack (ground (arith, v.single_frames, push-full s (start * page_size) full)))
      | no room ↦
          let (s', step, w, size, at) = push-cons v.stack (start * page_size) room in
          (
            record r { frame_cache = s' ∷ [] },
            s',
            rw v.one_stack (ground (arith, v.single_frames, step)),
            to_cache s' one w size at,
          )
    ]
    | no many ↦ no_room (rw v.one_stack (ground (arith, v.single_frames)))
  ]
