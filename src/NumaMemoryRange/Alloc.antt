-- ===== src/NumaMemoryRange/Alloc.antt =====
-- `NumaMemoryRange::fragmentedGetFrames`: the frames that it hands out.
use zambesii.Prelude.{
  ℕ, ◌+◌, ◌-◌, ◌*◌, ◌/◌, ◌≤◌, ◌<◌, ◌≡◌, refl, sym, ap, ◌∙◌, ◌⊎◌, inl, inr, List, [], ◌∷◌, Option,
  none, some, true, false, ◌&&◌, if◌then◌else◌, arith, leb, ltb,
}
use zambesii.Prelude.Result.{
  Result, ok, fault, panic, no_rounds, wild_access, Error, memory_nomem_physical, general, success,
  Status, value, failed, ◌>>=◌,
}
use zambesii.MemoryBmp.{MemoryBmp, page_size}
use zambesii.MemoryBmp.Frames.{InRange}
use zambesii.MemoryBmp.Fragmented.Runs.{Full, ShortTail}
use zambesii.MemoryBmp.Fragmented.Allocation.{
  search_bit, Taken, Allocates, fragmented_get_frames-Allocates,
}
use zambesii.FrameCache.{CacheStack, cache_pop, pop}
use zambesii.FrameCache.Stack
use zambesii.FrameCache.Stack.{contents, pop-nil, pop-cons}
use zambesii.FrameCache.Flush.{member, AllReleasable}
use zambesii.NumaMemoryRange.{NumaMemoryRange, fragmented_get_frames}
use zambesii.NumaMemoryRange.Held.{IsValid, held, Distinct}

-- The range after it handed out the `n` frames from `start` on.
pub record HandedOut (r : NumaMemoryRange) (s : CacheStack) (start n : ℕ) (r' : NumaMemoryRange)
    (s' : CacheStack) : Type 0 where
  pub valid : IsValid r' s'
  pub some_frames : 0 < n
  pub above : r.bmp.base_pfn ≤ start
  pub inside : start + n ≤ r.bmp.end_pfn + 1
  pub base_pfn : r'.bmp.base_pfn ≡ r.bmp.base_pfn
  pub end_pfn : r'.bmp.end_pfn ≡ r.bmp.end_pfn
  pub fresh : (q : ℕ) → start ≤ q → q < start + n → held r s q ≡ false
  pub frames :
      (q : ℕ)
      → InRange r.bmp q
      → held r' s' q ≡ (if leb start q && ltb q (start + n) then true else held r s q)

-- How a call ends that pops the frame at the address `x` from the cache.
abbrev pub FromCache :
    NumaMemoryRange → CacheStack → Result (Status × Option ℕ × NumaMemoryRange) → Type 0
FromCache r s res =
    (x : ℕ) × (s' : CacheStack) × (contents s ≡ x ∷ contents s')
    × (res ≡ ok (value 1, some x, record r { frame_cache = s' ∷ [] }))
    × (x ≡ x / page_size * page_size)
    × HandedOut r s (x / page_size) 1 (record r { frame_cache = s' ∷ [] }) s'

-- How a call ends that leaves the cache alone and asks the bitmap.
abbrev pub FromBitmap :
    NumaMemoryRange → CacheStack → ℕ → Result (Status × Option ℕ × NumaMemoryRange) → Type 0
FromBitmap r s n (ok (value found, some paddr, r')) =
    (start : ℕ) × (m' : MemoryBmp) × (r' ≡ record r { bmp = m' })
    × (paddr ≡ start * page_size)
    × Taken r.bmp n start found m'
    × HandedOut r s start found r' s
FromBitmap r s n (ok (failed e, none, r')) =
    (e ≡ memory_nomem_physical)
    × (r' ≡ r)
    × (Full r.bmp.bmp (search_bit r.bmp) r.bmp.n_frames
        ⊎ ShortTail r.bmp n (search_bit r.bmp) false)
FromBitmap r s n (fault wild_access) = ShortTail r.bmp n (search_bit r.bmp) true
FromBitmap r s n _ = ⊥

abbrev pub Gets :
    NumaMemoryRange → CacheStack → ℕ → Result (Status × Option ℕ × NumaMemoryRange) → Type 0
Gets r s n res = FromCache r s res ⊎ ((contents s ≡ []) × FromBitmap r s n res)

module _ {r : NumaMemoryRange} {s : CacheStack} (v : IsValid r s) (n : ℕ) (pos : 0 < n) where
  -- The cache has one stack, of single frames.
  one_pop :
      (e : Error) (item : Option ℕ) (s' : CacheStack)
      → pop s ≡ ok (e, item, s')
      → cache_pop r.frame_cache 1 ≡ ok (e, item, s' ∷ [])
  unfolding cache_pop
  one_pop e item s' step = rw v.one_stack (ground (arith, v.single_frames, step))

  from_cache :
      (x : ℕ) (xs : List ℕ) (s' : CacheStack)
      → contents s ≡ x ∷ xs
      → Stack.IsValid s'
      → s'.stack_size ≡ s.stack_size
      → contents s' ≡ xs
      → HandedOut r s (x / page_size) 1 (record r { frame_cache = s' ∷ [] }) s'
  from_cache x xs s' at w size at' =
      let (apart, distinct) : Distinct (x ∷ xs) = rw at at v.distinct in
      let (top, rest) : AllReleasable r.bmp (x ∷ xs) = rw at at v.releasable in
      let cached = λ (q : ℕ) (i : InRange r.bmp q) (e : member (q * page_size) (x ∷ xs) ≡ true).
        v.cached_used q i (rw at e) in
      let here : held r s (x / page_size) ≡ false = rw at (ground (arith, top)) in
      record {
        valid = record {
          bitmap = v.bitmap;
          one_stack = refl;
          single_frames = size ∙ v.single_frames;
          stack = w;
          releasable = rw at' rest;
          distinct = rw at' distinct;
          cached_used = rw at' (λ q i e. cached q i (ground (arith, e)));
        };
        some_frames = omega arith;
        above = omega (arith, top);
        inside = omega (arith, top);
        base_pfn = refl;
        end_pfn = refl;
        fresh = λ q lo hi. let same : q ≡ x / page_size = omega arith in rw same here;
        frames = λ q i. rw (at, at') (ground (arith, top, apart, cached q i));
      }

  from_bitmap :
      (start found : ℕ) (m' : MemoryBmp)
      → contents s ≡ []
      → Taken r.bmp n start found m'
      → HandedOut r s start found (record r { bmp = m'; frame_cache = s ∷ [] }) s
  from_bitmap start found m' empty t = record {
    valid = record {
      bitmap = t.valid;
      one_stack = refl;
      single_frames = v.single_frames;
      stack = v.stack;
      releasable = rw empty tt;
      distinct = v.distinct;
      cached_used = rw empty (λ q i e. cc e);
    };
    some_frames = t.run.some_frames;
    above = omega (arith, t.run.above);
    inside = t.run.inside;
    base_pfn = t.base_pfn;
    end_pfn = t.end_pfn;
    fresh = λ q lo hi. ground (
      arith,
      t.run.free (q - r.bmp.base_pfn) (omega (arith, t.run.above)) (omega (arith, t.run.above)),
    );
    frames = λ q i. rw empty (ground (arith, t.frames q i));
  }

  after_bitmap :
      (res : Result (Status × Option ℕ × MemoryBmp))
      → contents s ≡ []
      → Allocates r.bmp n res
      → FromBitmap r s n (
          res >>= λ (status, paddr, bmp).
          ok (status, paddr, record r { bmp = bmp; frame_cache = s ∷ [] }))
  after_bitmap (ok (value found, some paddr, m')) empty (start, at, t) =
      (start, m', ground (arith, v.one_stack), at, t, from_bitmap start found m' empty t)
  after_bitmap (ok (value found, none, m')) empty h = h
  after_bitmap (ok (failed e, some paddr, m')) empty h = h
  after_bitmap (ok (failed e, none, m')) empty (why, same, met) =
      (why, ground (arith, v.one_stack), met)
  after_bitmap (fault wild_access) empty h = h
  after_bitmap (fault panic) empty h = h
  after_bitmap (fault no_rounds) empty h = h

  cached-Gets : (xs : List ℕ) → contents s ≡ xs → Gets r s n (fragmented_get_frames r n)
  unfolding fragmented_get_frames
  cached-Gets [] at = inr (
    at,
    rw (one_pop general none s (pop-nil s at))
        (after_bitmap _ at (fragmented_get_frames-Allocates v.bitmap n pos)),
  )
  cached-Gets (x ∷ xs) at =
      let (s', step, w, size, at') = pop-cons v.stack x xs at in
      let (top, rest) : AllReleasable r.bmp (x ∷ xs) = rw at at v.releasable in
      inl (
        x,
        s',
        at ∙ ap (λ xs. x ∷ xs) (sym at'),
        rw (one_pop success (some x) s' step) refl,
        top.0,
        from_cache x xs s' at w size at',
      )

  -- `fragmentedGetFrames` of a positive number of frames of a valid range never panics. If the
  -- cache has a frame, it answers 1 and the address on top of the cache, which it pops, and leaves
  -- the bitmap alone. Else it leaves the cache alone, and the bitmap is searched from the bit that
  -- its last allocation or release left: if the first run of free frames that the search meets has
  -- as many frames as asked for or ends before the last frame of the bitmap, at most that many are
  -- taken from its start, and the call answers their count, which is positive, and the address of
  -- the first. In both cases the frames lie in the range, no caller held any of them before, the
  -- caller holds them after, no other frame changes hands, and the range stays valid. It fails only
  -- with an empty cache: with `ERROR_MEMORY_NOMEM_PHYSICAL` and no change if the search meets no
  -- free frame; and if the run that it meets is shorter than asked for and ends with the last frame,
  -- with that error and no change or in a read past the array of the bitmap, as for the bitmap alone.
  pub fragmented_get_frames-Gets : Gets r s n (fragmented_get_frames r n)
  fragmented_get_frames-Gets = cached-Gets (contents s) refl
