-- ===== src/Locks/MultipleReader/Exclusion.antt =====
-- Who may hold a `MultipleReaderLock` together.
use zambesii.Prelude.{ℕ, ◌^◌, ◌≤◌, ◌<◌, ◌≡◌, ◌≢◌, Bool, true, false, arith}
use zambesii.Locks.Threads.{weight-le-total, two_weights-le-total}
use zambesii.Locks.MultipleReader.{Pc, reading, writing, clearing, upgrade_try, System, Reach}
use zambesii.Locks.MultipleReader.Invariant.{owns, inside, reads, Inv, Reach-Inv, inside-le-owns}

-- A thread that may read the resource, and one that may write it.
abbrev pub may_read : Pc → Bool
may_read (reading _) = true
may_read (upgrade_try _) = true
may_read _ = false

abbrev pub may_write : Pc → Bool
may_write (writing _) = true
may_write _ = false

-- On fewer than 2 ^ 24 threads, in every order of their steps: while one of them may write, no other
-- one may read or write.
pub mutual_exclusion :
    {n : ℕ} {s : System} (i j : ℕ)
    → n < 2 ^ 24
    → Reach n s
    → i < n
    → j < n
    → i ≢ j
    → may_write (s.pc i) ≡ true
    → (may_read (s.pc j) ≡ false) × (may_write (s.pc j) ≡ false)
mutual_exclusion {n = n} {s = s} i j few r h k ne w =
    let inv : Inv n s = Reach-Inv few r in
    let enters : 1 ≤ inside (s.pc i) = ground (arith, w) in
    let in_total = weight-le-total inside n s.pc i h in
    let reads_total = weight-le-total reads n s.pc j k in
    let owned = two_weights-le-total owns n s.pc i j h k ne in
    let owner = inside-le-owns (s.pc i) in
    (
      ground (arith, inv.apart, enters, in_total, reads_total),
      ground (arith, inv.one_owner, owned, owner, enters),
    )

-- A writer that releases the lock enables interrupts exactly if they were enabled when it came for
-- the lock, as a writer or as a reader that goes on to write.
interrupts_restored :
    {n : ℕ} {s : System} (i : ℕ) (enable_irqs irqs : Bool)
    → n < 2 ^ 24
    → Reach n s
    → s.pc i ≡ clearing enable_irqs irqs
    → enable_irqs ≡ irqs
interrupts_restored {s = s} i enable_irqs irqs few r at =
    ground (arith, (Reach-Inv few r).kept i, at)
