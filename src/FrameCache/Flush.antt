-- ===== src/FrameCache/Flush.antt =====
-- `CacheStack::flush` of __kcore/include/__kclasses/cacheStack.h: the cached frames go back to the
-- bitmap.
use zambesii.Prelude.{
  ℕ, zero, suc, ◌*◌, ◌/◌, ◌≤◌, ◌<◌, ◌≡◌, refl, ◌∙◌, List, [], ◌∷◌, Bool, false, ◌==◌, ◌||◌,
  if◌then◌else◌, length, get_or, arith,
}
use zambesii.Prelude.Result.{ok}
use zambesii.Bits.Arrays.{read-get_or}
use zambesii.MemoryBmp.{MemoryBmp, page_size}
use zambesii.MemoryBmp.Frames.{InRange, used}
use zambesii.MemoryBmp.Frames as Frames
use zambesii.MemoryBmp.Ranges.{release_frames-Released}
use zambesii.FrameCache.{CacheStack, flush_items, flush_stack}
use zambesii.FrameCache.Stack.{IsValid, items, contents}

abbrev pub member : ℕ → List ℕ → Bool
member a [] = false
member a (x ∷ xs) = (x == a) || member a xs

-- An address that `releaseFrames` accepts: that of a frame of the bitmap, not the last one.
abbrev pub Releasable : MemoryBmp → ℕ → Type 0
Releasable m addr =
    (addr ≡ addr / page_size * page_size)
    × (m.base_pfn ≤ addr / page_size)
    × (addr / page_size < m.end_pfn)

abbrev pub AllReleasable : MemoryBmp → List ℕ → Type 0
AllReleasable m [] = Unit {0}
AllReleasable m (x ∷ xs) = Releasable m x × AllReleasable m xs

pub AllReleasable-range :
    (m m' : MemoryBmp) (xs : List ℕ)
    → m'.base_pfn ≡ m.base_pfn
    → m'.end_pfn ≡ m.end_pfn
    → AllReleasable m xs
    → AllReleasable m' xs
AllReleasable-range m m' [] b e h = tt
AllReleasable-range m m' (x ∷ xs) b e (h, hs) =
    (ground (arith, h), AllReleasable-range m m' xs b e hs)

-- `m'` is `m` with the frames of the list freed.
pub record Freed (m : MemoryBmp) (xs : List ℕ) (m' : MemoryBmp) : Type 0 where
  pub valid : Frames.IsValid m'
  pub base_pfn : m'.base_pfn ≡ m.base_pfn
  pub end_pfn : m'.end_pfn ≡ m.end_pfn
  pub frames :
      (q : ℕ) → InRange m q → used m' q ≡ (if member (q * page_size) xs then false else used m q)

flush_items-Freed :
    (n : ℕ) (s : CacheStack) (m : MemoryBmp)
    → Frames.IsValid m
    → s.stack_size ≡ 1
    → n ≤ length s.stack
    → AllReleasable m (items s.stack n)
    → (m' : MemoryBmp) × (flush_items s m n ≡ ok (record s { depth = 0 }, m'))
      × Freed m (items s.stack n) m'
unfolding flush_items
flush_items-Freed zero s m v one fits h =
    (m, refl, record { valid = v; base_pfn = refl; end_pfn = refl; frames = λ q r. refl })
flush_items-Freed (suc n) s m v one fits (h, hs) =
    let addr : ℕ = get_or s.stack n 0 in
    let (p, first, k) = release_frames-Released m addr 1 v (omega arith) h.1 (omega (arith, h.2)) in
    let (m', rest, l) =
      flush_items-Freed n s p k.valid one (omega arith)
        (AllReleasable-range m p (items s.stack n) k.base_pfn k.end_pfn hs) in
    (
      m',
      ground (arith, read-get_or s.stack n 0 (omega arith), first, rest),
      record {
        valid = l.valid;
        base_pfn = l.base_pfn ∙ k.base_pfn;
        end_pfn = l.end_pfn ∙ k.end_pfn;
        frames = λ q r. ground (arith, h, l.frames q (ground (arith, r)), k.frames q r);
      },
    )

-- `flush` of a stack of single frames that the bitmap accepts never panics: it empties the stack,
-- frees its frames in the bitmap, changes no other frame, and keeps the bitmap valid.
pub flush_stack-Freed :
    (s : CacheStack) (m : MemoryBmp)
    → Frames.IsValid m
    → s.stack_size ≡ 1
    → IsValid s
    → AllReleasable m (contents s)
    → (m' : MemoryBmp) × (flush_stack s m ≡ ok (record s { depth = 0 }, m'))
      × Freed m (contents s) m'
unfolding flush_stack
flush_stack-Freed s m v one w h = flush_items-Freed s.depth s m v one (omega arith) h
