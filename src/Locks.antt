-- ===== src/Locks.antt =====
-- The locks of the kernel on a multiprocessor, as steps of threads that interleave in any order:
-- __kcore/kernel/common/multipleReaderLock.cpp, waitLock.cpp and recursiveLock.cpp in the same folder, built for
-- SMP and without CONFIG_DEBUG_LOCKS. Each atomic access of a lock word is one step.
pub mod Threads
pub mod MultipleReader
pub mod Waiting
pub mod Recursive
