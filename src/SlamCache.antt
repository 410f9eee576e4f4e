-- ===== src/SlamCache.antt =====
-- `SlamCache`: __kcore/__kclasses/slamCache.cpp and __kcore/include/__kclasses/slamCache.h, the cache of
-- objects of one size. `next` of the objects is a function of their address. A call holds the lock of
-- the list of objects.
pub mod Objects
pub mod Serves
mod Tests
use zambesii.Prelude.{
  ℕ, zero, suc, ◌/◌, ◌%◌, Option, none, some, ltb, if◌then◌else◌, add_uarch, sub_uarch,
}
use zambesii.Prelude.Put.{put}
use zambesii.Prelude.Result.{Result, ok, fault, no_rounds}

pub record SlamCache : Type 0 where
  pub s_objectize : ℕ
  pub per_page_excess : ℕ
  pub per_page_blocks : ℕ
  pub partial_list : Option ℕ
  pub free_list : Option ℕ
  pub next : ℕ → Option ℕ

-- The constructor; an `sObject` has 4 bytes.
pub new : ℕ → SlamCache
new size =
    let s : ℕ = if ltb size 4 then 4 else size in
    record {
      s_objectize = s;
      per_page_excess = 4096 % s;
      per_page_blocks = 4096 / s;
      partial_list = none;
      free_list = none;
      next = λ a. none;
    }

-- The loop of `flush` with at most `fuel` rounds: how many pages are released. The list stays.
pub flush_from : (ℕ → Option ℕ) → ℕ → Option ℕ → ℕ → Result ℕ
flush_from next zero current ret = fault no_rounds
flush_from next (suc fuel) none ret = ok ret
flush_from next (suc fuel) (some page) ret = flush_from next fuel (next page) (add_uarch ret 1)

pub flush : SlamCache → ℕ → Result ℕ
flush c fuel = flush_from c.next fuel c.free_list 0

-- The loop of `allocate` that breaks up a page, and the write behind it
pub break_up : (ℕ → Option ℕ) → ℕ → ℕ → ℕ → ℕ → Option ℕ
break_up next tmp size zero = put next tmp none
break_up next tmp size (suc i) =
    break_up (put next tmp (some (add_uarch tmp size))) (add_uarch tmp size) size i

-- `allocate` with the page `tmp` for an empty list of objects
pub refill : SlamCache → ℕ → SlamCache
refill c tmp = record c {
  partial_list = some tmp;
  next = break_up c.next tmp c.s_objectize (sub_uarch c.per_page_blocks 1);
}

-- The end of `allocate`
pub take_first : SlamCache → ℕ → Option ℕ × SlamCache
take_first c a = (some a, record c { partial_list = c.next a })

-- `allocate` with the list of objects and the list of free pages; `page` is what `getNewPage` returns.
pub allocate_from : SlamCache → Option ℕ → Option ℕ → Option ℕ → Option ℕ × SlamCache
allocate_from c (some a) free page = take_first c a
allocate_from c none (some f) page = take_first (refill (record c { free_list = c.next f }) f) f
allocate_from c none none none = (none, c)
allocate_from c none none (some p) = take_first (refill c p) p

pub allocate : SlamCache → Option ℕ → Option ℕ × SlamCache
allocate c page = allocate_from c c.partial_list c.free_list page

pub free : SlamCache → Option ℕ → SlamCache
free c none = c
free c (some obj) = record c { next = put c.next obj c.partial_list; partial_list = some obj }
