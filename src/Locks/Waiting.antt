-- ===== src/Locks/Waiting.antt =====
-- `WaitLock`: __kcore/kernel/common/waitLock.cpp, with the exchange loop of
-- __kcore/include/arch/x8632/atomic.h. The lock word is 1 while a thread has the lock.
pub mod Safety
mod Tests
use zambesii.Prelude.{ℕ, ◌+◌, ◌<◌, ◌≡◌, ◌≢◌, Bool, true, false, ◌||◌}
use zambesii.Locks.Threads.{put}

pub record Lock : Type 0 where
  pub word : ℕ
  pub irqs_were_enabled : Bool

-- `irqs` is the local flag: whether interrupts were enabled when the thread came.
pub data Pc : Type 0 where
  idle : Pc
  trying : (irqs : Bool) → Pc  -- `acquire`, at the loop
  marking : (irqs : Bool) → Pc  -- before `flags |= ...`
  holding : (irqs : Bool) → Pc
  freeing : (enable_irqs irqs : Bool) → Pc  -- `release`, before the lock word is set
  freeing_no_irqs : Pc  -- `releaseNoIrqs`, before the lock word is set

pub data Acquire (l : Lock) : Pc → Lock → Pc → Type 0 where
  come : (irqs : Bool) → Acquire l idle l (trying irqs)
  spin : {irqs : Bool} → l.word ≢ 0 → Acquire l (trying irqs) (record l { word = 1 }) (trying irqs)
  take : {irqs : Bool} → l.word ≡ 0 → Acquire l (trying irqs) (record l { word = 1 }) (marking irqs)
  mark :
      {irqs : Bool}
      → Acquire l
          (marking irqs)
          (record l { irqs_were_enabled = l.irqs_were_enabled || irqs })
          (holding irqs)

pub data Release (l : Lock) : Pc → Lock → Pc → Type 0 where
  take_flag :
      {irqs : Bool}
      → Release l
          (holding irqs)
          (record l { irqs_were_enabled = false })
          (freeing l.irqs_were_enabled irqs)
  free :
      {enable_irqs irqs : Bool} → Release l (freeing enable_irqs irqs) (record l { word = 0 }) idle

pub data ReleaseNoIrqs (l : Lock) : Pc → Lock → Pc → Type 0 where
  drop_flag :
      {irqs : Bool}
      → ReleaseNoIrqs l (holding irqs) (record l { irqs_were_enabled = false }) freeing_no_irqs
  free : ReleaseNoIrqs l freeing_no_irqs (record l { word = 0 }) idle

pub data Move (l : Lock) (p : Pc) (l' : Lock) (p' : Pc) : Type 0 where
  acquire : Acquire l p l' p' → Move l p l' p'
  release : Release l p l' p' → Move l p l' p'
  release_no_irqs : ReleaseNoIrqs l p l' p' → Move l p l' p'

-- `n` threads on one lock. A number from `n` on is no thread.
pub record System : Type 0 where
  pub lock : Lock
  pub pc : ℕ → Pc

pub data Step (n : ℕ) (s : System) : System → Type 0 where
  pick :
      (i : ℕ) {l : Lock} {p : Pc}
      → i < n
      → Move s.lock (s.pc i) l p
      → Step n s (record { lock = l; pc = put s.pc i p })

abbrev pub init : System
init = record { lock = record { word = 0; irqs_were_enabled = false }; pc = λ i. idle }

pub data Reach (n : ℕ) : System → Type 0 where
  start : Reach n init
  later : {s t : System} → Reach n s → Step n s t → Reach n t
