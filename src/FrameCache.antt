-- ===== src/FrameCache.antt =====
-- The cache of single frames in front of a bitmap: __kcore/include/__kclasses/cacheStack.h and
-- __kcore/include/__kclasses/stackCache.h, at T = paddr_t. The index `stackPtr` runs from -1
-- (CACHESTACK_EMPTY) to the last slot of the array; `depth` is `stackPtr + 1`.
pub mod Stack
pub mod Flush
mod Tests
use zambesii.Prelude.{
  ℕ, zero, suc, ◌+◌, ◌-◌, List, [], ◌∷◌, Option, none, some, Bool, true, false, ◌==◌, if◌then◌else◌,
  replicate,
}
use zambesii.Prelude.Result.{Result, ok, Error, success, general, ◌>>=◌}
use zambesii.Bits.{read, write}
use zambesii.MemoryBmp.{MemoryBmp, release_frames}

-- `CACHESTACK_MAX_NITEMS(paddr_t)`: one page of 4-byte addresses
abbrev pub max_items : ℕ
max_items = 1024

pub record CacheStack : Type 0 where
  pub stack_size : ℕ
  pub stack : List ℕ
  pub depth : ℕ

pub new_stack : ℕ → CacheStack
new_stack size = record { stack_size = size; stack = replicate max_items 0; depth = 0 }

pub push : CacheStack → ℕ → Result (Error × CacheStack)
push s item =
    if s.depth == max_items
    then ok (general, s)
    else (write s.stack s.depth item >>= λ stack.
        ok (success, record s { stack = stack; depth = s.depth + 1 }))

-- The item goes out through `*item`, which is written on success only.
pub pop : CacheStack → Result (Error × Option ℕ × CacheStack)
pop s =
    if s.depth == 0
    then ok (general, none, s)
    else (read s.stack (s.depth - 1) >>= λ item.
        ok (success, some item, record s { depth = s.depth - 1 }))

-- The loop of `flush` with `depth` items left.
pub flush_items : CacheStack → MemoryBmp → ℕ → Result (CacheStack × MemoryBmp)
flush_items s bmp zero = ok (record s { depth = 0 }, bmp)
flush_items s bmp (suc depth) = do
  item ← read s.stack depth
  (released, bmp') ← release_frames bmp item s.stack_size
  flush_items s bmp' depth

pub flush_stack : CacheStack → MemoryBmp → Result (CacheStack × MemoryBmp)
flush_stack s bmp = flush_items s bmp s.depth

-- `StackCache`: a stack for each size of block. STACKCACHE_NSTACKS is 1.
abbrev pub StackCache : Type 0
StackCache = List CacheStack

pub new_cache : StackCache
new_cache = new_stack 1 ∷ []

unfoldable pub cache_push : StackCache → ℕ → ℕ → Result (Error × StackCache)
cache_push [] category item = ok (general, [])
cache_push (s ∷ stacks) category item = elim (s.stack_size == category) [
  | true ↦ push s item >>= λ (e, s'). ok (e, s' ∷ stacks)
  | false ↦ cache_push stacks category item >>= λ (e, stacks'). ok (e, s ∷ stacks')
]

unfoldable pub cache_pop : StackCache → ℕ → Result (Error × Option ℕ × StackCache)
cache_pop [] category = ok (general, none, [])
cache_pop (s ∷ stacks) category = elim (s.stack_size == category) [
  | true ↦ pop s >>= λ (e, item, s'). ok (e, item, s' ∷ stacks)
  | false ↦ cache_pop stacks category >>= λ (e, item, stacks'). ok (e, item, s ∷ stacks')
]

unfoldable pub cache_flush : StackCache → MemoryBmp → Result (StackCache × MemoryBmp)
cache_flush [] bmp = ok ([], bmp)
cache_flush (s ∷ stacks) bmp = do
  (s', bmp') ← flush_stack s bmp
  (stacks', bmp'') ← cache_flush stacks bmp'
  ok (s' ∷ stacks', bmp'')
