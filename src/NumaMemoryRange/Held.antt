-- ===== src/NumaMemoryRange/Held.antt =====
-- The frames of a range that its callers hold: marked used in the bitmap and not in the cache.
use zambesii.Prelude.{ℕ, ◌*◌, ◌≡◌, List, [], ◌∷◌, Bool, true, false, not, ◌&&◌}
use zambesii.MemoryBmp.{page_size}
use zambesii.MemoryBmp.Frames.{InRange, used}
use zambesii.MemoryBmp.Frames as Frames
use zambesii.FrameCache.{CacheStack}
use zambesii.FrameCache.Stack.{contents}
use zambesii.FrameCache.Stack as Stack
use zambesii.FrameCache.Flush.{member, AllReleasable}
use zambesii.NumaMemoryRange.{NumaMemoryRange}

abbrev pub Distinct : List ℕ → Type 0
Distinct [] = Unit {0}
Distinct (x ∷ xs) = (member x xs ≡ false) × Distinct xs

-- The one stack of the cache holds addresses of different frames, each in the bitmap, marked used,
-- and not its last.
pub record IsValid (r : NumaMemoryRange) (s : CacheStack) : Type 0 where
  pub bitmap : Frames.IsValid r.bmp
  pub one_stack : r.frame_cache ≡ s ∷ []
  pub single_frames : s.stack_size ≡ 1
  pub stack : Stack.IsValid s
  pub releasable : AllReleasable r.bmp (contents s)
  pub distinct : Distinct (contents s)
  pub cached_used :
      (q : ℕ) → InRange r.bmp q → member (q * page_size) (contents s) ≡ true → used r.bmp q ≡ true

abbrev pub held : NumaMemoryRange → CacheStack → ℕ → Bool
held r s q = used r.bmp q && not (member (q * page_size) (contents s))
