-- ===== src/Lib.antt =====
-- Verification of the managers of physical frames and of virtual pages of the Zambesii kernel, of its
-- heap, of its locks, of the priority queue of its schedulers and of containers that its parts share.
--
-- Page frames of a NUMA bank are handed out by its ranges, and `NumaMemoryBank` picks the range.
-- `NumaMemoryRange` covers one range of physical memory: a `MemoryBmp`, which keeps one bit for each
-- page frame, behind a `StackCache`, which keeps single frames that were given back. The bitmap
-- stands on the bit templates of __kbitManipulation.h. A thread asks `fragmentedGetFrames` for
-- frames and gives them back with `releaseFrames`; the boot code reserves frames with `mapMemUsed`
-- and `merge`. `VSwamp` hands out the virtual pages of an address space, and `Heap` divides chunks of
-- them into allocations, `SlamCache` single ones into objects of one size. `PrioQueue` keeps the
-- threads that are ready, by priority. The objects of the kernel are guarded by the three locks of
-- `Locks`. `HeapDoubleList` and `SortedHeapDoubleList`, `HardwareIdList`, which finds processes and
-- devices by id, `ArrayStack`, `WrapAroundCounter`, which numbers threads and processes, and
-- `clock_t` stand alone.
--
-- Files and sources:
--   Prelude           lists over native numbers, the error codes of
--                     __kcore/include/__kstdlib/__kerror.h, and `Result`, a run of the code: a
--                     value, a kernel panic (`assert_fatal`) or an access outside of an array.
--   Bits              __kcore/include/__kstdlib/__kbitManipulation.h: Words has the bits of one
--                     word, Arrays those of an array, Search the search for runs of clear bits.
--   MemoryBmp         __kcore/__kclasses/memBmp.cpp and __kcore/include/__kclasses/memBmp.h:
--                     Frames has the invariant, Ranges the marking and freeing of ranges, Merge
--                     the merge of two bitmaps, Init the set-up, Fragmented the allocation.
--   FrameCache        __kcore/include/__kclasses/cacheStack.h and stackCache.h: Stack has pushes
--                     and pops, Flush the flush into a bitmap.
--   NumaMemoryRange   __kcore/kernel/common/numaMemoryRange.cpp: Held has the frames in use and
--                     the invariant that joins bitmap and cache; Alloc, Release and Mapping the
--                     operations.
--   NumaMemoryBank    __kcore/kernel/common/numaMemoryBank.cpp, the list of ranges of a bank with its
--                     default range: Routing has the way of frames that are given back, Lifetime
--                     the removal of ranges.
--   PrioQueue         __kcore/include/__kclasses/prioQueue.h, the ready queue of the schedulers:
--                     Queue has the linked queue of one priority, with Chain for its links and
--                     Insert, Take and Remove for its operations; Spec has the abstract view, Search
--                     the search for the head, and Init, Refines and Updates the operations.
--   Locks             __kcore/kernel/common/multipleReaderLock.cpp, waitLock.cpp and
--                     recursiveLock.cpp: MultipleReader, Waiting and Recursive have the threads on
--                     one lock as interleaved steps, with their invariants; Threads has the sums
--                     over all threads.
--   HeapDoubleList    __kcore/include/__kclasses/heapDoubleList.h, over DoubleLinks, nodes with links
--                     to both sides, and its Relink, which has the writes that link and unlink a
--                     node: Spec has the list of items, Ends the calls at the ends, Unlink the
--                     removal of an item, Refines all calls.
--   SortedHeapDoubleList  __kcore/include/__kclasses/sortedHeapDoubleList.h, over HeapDoubleList,
--                     whose code it repeats: Places has where an item is put, Order when the list
--                     stays sorted.
--   HardwareIdList    __kcore/__kclasses/hardwareIdList.cpp and hardwareIdList.h, a sparse array of
--                     items by id: Chain has the linked indices and the invariant, Pairs and Spec the
--                     map it stands for, Growth the array that is resized, Adds, Removes and Finds
--                     the walks, Kept and Refines the calls, Walks the iterator.
--   Heap              __kcore/__kclasses/heap.cpp and heap.h, the heap of the kernel, and what it uses
--                     of list.h. The headers in its memory are values, so it stands for the source
--                     where an allocation has room for its header. Spaced has the blocks of a chunk,
--                     Takes and Mallocs what is taken out of them, Links, Gives, Appends, Divides and
--                     Frees what goes back, Returns both, and Calls the calls of the heap, with
--                     Sizes, Fits, Mallocs, Frees and Checks.
--   SlamCache         __kcore/__kclasses/slamCache.cpp and slamCache.h, the cache of objects of one
--                     size: Objects has the objects of a page, Serves what is handed out.
--   VSwamp            __kcore/kernel/common/vSwamp.cpp, the allocator of virtual pages: Holes has the
--                     list of free ranges, Gets the allocation, Releases the search for the place of
--                     a release, Relinks, Ranges and Joins its effect on nodes and holes, Frees the
--                     release, Exhaustion the calls after the last page is taken.
--   ArrayStack        __kcore/include/__kclasses/arrayStack.h: Refines has the list it stands for.
--   WrapAroundCounter __kcore/include/__kclasses/wrapAroundCounter.h: Search has the next free slot.
--   Clock             __kcore/include/__kclasses/clock_t.h: Value has the 64-bit count.
--
-- State and steps. An object is a record with the fields of the class, an operation a function
-- from the state to a result and the next state. Outside of `Locks`, every operation holds the lock
-- of its object from its first to its last access of the state, and so it is one step; where the
-- source takes two locks one after the other, the comment of the file says so. `uarch_t` and
-- `paddr_t` are 32 bits wide, as on the i586; their arithmetic wraps at 2 ^ 32 and is written out. A
-- page has 4096 bytes. An access outside of an array ends the run. In `Locks` each atomic access of a lock word
-- is a step, and so is each access that only the owner makes; a step moves any one thread. The locks
-- are those of the multiprocessor build without CONFIG_DEBUG_LOCKS, which adds reports of deadlocks.
--
-- Loops are recursion on what is left to do: the frames of a range, the words and bits of the
-- bitmap, the items of a cache, the queues after the current one, the blocks of a chunk. The walks
-- along the links of a queue or list have fuel, one round more than `nItems` or than the nodes of the
-- array, and the walks along the holes of a swamp
-- get theirs as an argument; the theorems on them show that it is enough.
--
-- Parameters: `Storage` is the memory that `initialize` gets from its caller or from the heap; the
-- addresses of nodes that the node cache hands out are arguments, and the theorems on insertions ask
-- that they are not linked. The memory that `memAlloc` returns for an array of a `HardwareIdList` or
-- for a chunk of the heap is an argument, and so is how a guard page is set.
--
-- Not modelled: `constrainedGetFrames`, which asks the compiler of the DMA constraints; the page
-- tables behind the guard pages of the heap; the dumps,
-- which print; destructors, which give memory back to the heap; the other parts of the kernel.
pub mod Prelude
pub mod ArrayStack
pub mod Bits
pub mod Clock
pub mod DoubleLinks
pub mod FrameCache
pub mod HardwareIdList
pub mod Heap
pub mod HeapDoubleList
pub mod Locks
pub mod MemoryBmp
pub mod NumaMemoryBank
pub mod NumaMemoryRange
pub mod PrioQueue
pub mod SlamCache
pub mod SortedHeapDoubleList
pub mod VSwamp
pub mod WrapAroundCounter
