-- ===== src/Locks/Recursive.antt =====
-- `RecursiveLock`: __kcore/kernel/common/recursiveLock.cpp. Thread `i` has the full id `i`; the lock
-- word is the id of the thread that has the lock, or `none` for PROCID_INVALID. A thread takes the
-- lock again fewer than 2 ^ 32 times, since its stack ends before.
pub mod Safety
mod Tests
use zambesii.Prelude.{
  ℕ, suc, ◌+◌, ◌^◌, ◌<◌, ◌≡◌, ◌≢◌, Bool, false, ◌||◌, Option, none, some, add_uarch, sub_uarch,
}
use zambesii.Locks.Threads.{put}

pub record Lock : Type 0 where
  pub word : Option ℕ
  pub recursion_count : ℕ
  pub irqs_were_enabled : Bool

-- `depth` counts the calls of `acquire` that returned and are not released; `outer` is whether
-- interrupts were enabled at the first of them, and `irqs` whether they were at the current call.
pub data Pc : Type 0 where
  idle : Pc
  trying : (depth : ℕ) (outer irqs : Bool) → Pc  -- `acquire`, at the loop
  won : (irqs : Bool) → Pc  -- after the exchange that took a free lock
  counted : (irqs : Bool) → Pc  -- before `FLAG_SET`
  again : (depth : ℕ) (outer : Bool) → Pc  -- before `recursionCount++`
  holding : (depth : ℕ) (outer : Bool) → Pc
  releasing : (depth : ℕ) (outer : Bool) → Pc  -- `release`, at the test of `recursionCount`
  freeing : (enable_irqs outer : Bool) → Pc  -- before the lock word is set

-- The moves of thread `i`.
pub data Acquire (i : ℕ) (l : Lock) : Pc → Lock → Pc → Type 0 where
  come : (irqs : Bool) → Acquire i l idle l (trying 0 irqs irqs)
  come_again :
      {depth : ℕ} {outer : Bool} (irqs : Bool)
      → depth + 1 < 2 ^ 32
      → Acquire i l (holding depth outer) l (trying depth outer irqs)
  take :
      {depth : ℕ} {outer irqs : Bool}
      → l.word ≡ none
      → Acquire i l (trying depth outer irqs) (record l { word = some i }) (won irqs)
  own :
      {depth : ℕ} {outer irqs : Bool}
      → l.word ≡ some i
      → Acquire i l (trying depth outer irqs) l (again depth outer)
  spin :
      {depth : ℕ} {outer irqs : Bool} (j : ℕ)
      → l.word ≡ some j
      → j ≢ i
      → Acquire i l (trying depth outer irqs) l (trying depth outer irqs)
  count : {irqs : Bool} → Acquire i l (won irqs) (record l { recursion_count = 1 }) (counted irqs)
  mark :
      {irqs : Bool}
      → Acquire i l
          (counted irqs)
          (record l { irqs_were_enabled = l.irqs_were_enabled || irqs })
          (holding 1 irqs)
  count_again :
      {depth : ℕ} {outer : Bool}
      → Acquire i l
          (again depth outer)
          (record l { recursion_count = add_uarch l.recursion_count 1 })
          (holding (depth + 1) outer)

pub data Release (l : Lock) : Pc → Lock → Pc → Type 0 where
  count_down :
      {depth : ℕ} {outer : Bool}
      → Release l
          (holding (depth + 1) outer)
          (record l { recursion_count = sub_uarch l.recursion_count 1 })
          (releasing depth outer)
  keep :
      {depth : ℕ} {outer : Bool}
      → l.recursion_count ≢ 0
      → Release l (releasing depth outer) l (holding depth outer)
  take_flag :
      {depth : ℕ} {outer : Bool}
      → l.recursion_count ≡ 0
      → Release l
          (releasing depth outer)
          (record l { irqs_were_enabled = false })
          (freeing l.irqs_were_enabled outer)
  free :
      {enable_irqs outer : Bool}
      → Release l (freeing enable_irqs outer) (record l { word = none }) idle

pub data Move (i : ℕ) (l : Lock) (p : Pc) (l' : Lock) (p' : Pc) : Type 0 where
  acquire : Acquire i l p l' p' → Move i l p l' p'
  release : Release l p l' p' → Move i l p l' p'

pub record System : Type 0 where
  pub lock : Lock
  pub pc : ℕ → Pc

pub data Step (s : System) : System → Type 0 where
  pick :
      (i : ℕ) {l : Lock} {p : Pc}
      → Move i s.lock (s.pc i) l p
      → Step s (record { lock = l; pc = put s.pc i p })

-- `RecursiveLock::RecursiveLock`
abbrev pub init : System
init = record {
  lock = record { word = none; recursion_count = 0; irqs_were_enabled = false };
  pc = λ i. idle;
}

pub data Reach : System → Type 0 where
  start : Reach init
  later : {s t : System} → Reach s → Step s t → Reach t
