-- ===== src/Locks/MultipleReader.antt =====
-- `MultipleReaderLock`: __kcore/kernel/common/multipleReaderLock.cpp and
-- __kcore/include/kernel/common/multipleReaderLock.h. Bits 0 to 23 of the lock word count the
-- readers, bit 25 is the request of a writer (__kcore/include/kernel/common/lock.h).
pub mod Invariant
pub mod Exclusion
pub mod Deadlock
mod Tests
use zambesii.Prelude.{
  ℕ, ◌+◌, ◌-◌, ◌/◌, ◌%◌, ◌^◌, ◌<◌, ◌≡◌, ◌≢◌, Bool, true, false, ◌||◌, ◌==◌, if◌then◌else◌,
  add_uarch, sub_uarch,
}
use zambesii.Locks.Threads.{put}

-- The lock word, and FLAGS_IRQS_WERE_ENABLED of `flags`.
pub record Lock : Type 0 where
  pub word : ℕ
  pub irqs_were_enabled : Bool

-- `lock & MR_FLAGS_WRITE_REQUEST`
abbrev pub requested : ℕ → Bool
requested word = word / 2 ^ 25 % 2 == 1

-- `lock & ((1 << FLAGS_ENUM_START) - 1)`
abbrev pub readers : ℕ → ℕ
readers word = word % 2 ^ 24

-- `atomicAsm::bitTestAndSet` and `bitTestAndClear` of MR_FLAGS_WRITE_REQUEST_SHIFT, and what they test
abbrev pub set_request : ℕ → ℕ
set_request word = if requested word then word else word + 2 ^ 25

abbrev pub clear_request : ℕ → ℕ
clear_request word = if requested word then word - 2 ^ 25 else word

-- Where a thread stands. `irqs` is its local flag: whether interrupts were enabled when it came.
pub data Pc : Type 0 where
  idle : Pc
  read_spin : (irqs : Bool) → Pc  -- `readAcquire`, at the loop
  reading : (irqs : Bool) → Pc
  write_try : (irqs : Bool) → Pc  -- `writeAcquire`, at the first loop
  draining : (irqs : Bool) → Pc  -- at the wait for the readers
  marking : (irqs : Bool) → Pc  -- before `flags |= ...`
  writing : (irqs : Bool) → Pc
  clearing : (enable_irqs irqs : Bool) → Pc  -- `writeRelease`, before `bitTestAndClear`
  upgrade_try : (irqs : Bool) → Pc  -- `readReleaseWriteAcquire`, at the first loop
  upgrade_out : (irqs : Bool) → Pc  -- before `decrement`

pub data ReadAcquire (l : Lock) : Pc → Lock → Pc → Type 0 where
  enter :
      (irqs : Bool) → ReadAcquire l idle (record l { word = add_uarch l.word 1 }) (read_spin irqs)
  spin : {irqs : Bool} → requested l.word ≡ true → ReadAcquire l (read_spin irqs) l (read_spin irqs)
  pass : {irqs : Bool} → requested l.word ≡ false → ReadAcquire l (read_spin irqs) l (reading irqs)

pub data ReadRelease (l : Lock) : Pc → Lock → Pc → Type 0 where
  leave : {irqs : Bool} → ReadRelease l (reading irqs) (record l { word = sub_uarch l.word 1 }) idle

-- The wait for the readers, and the flags, with which `writeAcquire` and `readReleaseWriteAcquire` end.
pub data Drain (l : Lock) : Pc → Lock → Pc → Type 0 where
  wait : {irqs : Bool} → readers l.word ≢ 0 → Drain l (draining irqs) l (draining irqs)
  drained : {irqs : Bool} → readers l.word ≡ 0 → Drain l (draining irqs) l (marking irqs)
  mark :
      {irqs : Bool}
      → Drain l
          (marking irqs)
          (record l { irqs_were_enabled = l.irqs_were_enabled || irqs })
          (writing irqs)

pub data WriteAcquire (l : Lock) : Pc → Lock → Pc → Type 0 where
  come : (irqs : Bool) → WriteAcquire l idle l (write_try irqs)
  busy :
      {irqs : Bool} → requested l.word ≡ true → WriteAcquire l (write_try irqs) l (write_try irqs)
  request :
      {irqs : Bool}
      → requested l.word ≡ false
      → WriteAcquire l (write_try irqs) (record l { word = set_request l.word }) (draining irqs)
  drain : {l' : Lock} {p p' : Pc} → Drain l p l' p' → WriteAcquire l p l' p'

pub data WriteRelease (l : Lock) : Pc → Lock → Pc → Type 0 where
  take_flag :
      {irqs : Bool}
      → WriteRelease l
          (writing irqs)
          (record l { irqs_were_enabled = false })
          (clearing l.irqs_were_enabled irqs)
  clear :
      {enable_irqs irqs : Bool}
      → WriteRelease l (clearing enable_irqs irqs) (record l { word = clear_request l.word }) idle

pub data ReadReleaseWriteAcquire (l : Lock) : Pc → Lock → Pc → Type 0 where
  start : {irqs : Bool} → ReadReleaseWriteAcquire l (reading irqs) l (upgrade_try irqs)
  busy :
      {irqs : Bool}
      → requested l.word ≡ true
      → ReadReleaseWriteAcquire l (upgrade_try irqs) l (upgrade_try irqs)
  request :
      {irqs : Bool}
      → requested l.word ≡ false
      → ReadReleaseWriteAcquire l
          (upgrade_try irqs)
          (record l { word = set_request l.word })
          (upgrade_out irqs)
  go_out :
      {irqs : Bool}
      → ReadReleaseWriteAcquire l
          (upgrade_out irqs)
          (record l { word = sub_uarch l.word 1 })
          (draining irqs)
  drain : {l' : Lock} {p p' : Pc} → Drain l p l' p' → ReadReleaseWriteAcquire l p l' p'

pub data Move (l : Lock) (p : Pc) (l' : Lock) (p' : Pc) : Type 0 where
  read_acquire : ReadAcquire l p l' p' → Move l p l' p'
  read_release : ReadRelease l p l' p' → Move l p l' p'
  write_acquire : WriteAcquire l p l' p' → Move l p l' p'
  write_release : WriteRelease l p l' p' → Move l p l' p'
  upgrade : ReadReleaseWriteAcquire l p l' p' → Move l p l' p'

-- `n` threads on one lock. A number from `n` on is no thread.
pub record System : Type 0 where
  pub lock : Lock
  pub pc : ℕ → Pc

pub data Step (n : ℕ) (s : System) : System → Type 0 where
  pick :
      (i : ℕ) {l : Lock} {p : Pc}
      → i < n
      → Move s.lock (s.pc i) l p
      → Step n s (record { lock = l; pc = put s.pc i p })

-- `Lock::Lock`
abbrev pub init : System
init = record { lock = record { word = 0; irqs_were_enabled = false }; pc = λ i. idle }

pub data Steps (n : ℕ) (s : System) : System → Type 0 where
  here : Steps n s s
  later : {t u : System} → Steps n s t → Step n t u → Steps n s u

abbrev pub Reach : ℕ → System → Type 0
Reach n s = Steps n init s
