-- ===== src/Locks/MultipleReader/Invariant.antt =====
-- What holds in every state that the threads on a `MultipleReaderLock` reach.
use Prim.{Unit, tt}
use zambesii.Prelude.{
  ℕ, ◌+◌, ◌*◌, ◌^◌, ◌≤◌, ◌<◌, ◌≡◌, ◌⊎◌, inl, refl, sym, Bool, true, if◌then◌else◌, arith,
  ℕ_discrete,
}
use zambesii.Locks.Threads.{
  put, put_same, put_other, total, total-put, total-le-times, total_mono, total_still,
}
use zambesii.Locks.MultipleReader.{
  Lock, Pc, idle, read_spin, reading, write_try, draining, marking, writing, clearing, upgrade_try,
  upgrade_out, ReadAcquire, ReadRelease, Drain, WriteAcquire, WriteRelease, ReadReleaseWriteAcquire,
  Move, read_acquire, read_release, write_acquire, write_release, upgrade, System, pick, init,
  Steps, here, later, Reach,
}

-- The threads that the readers' count counts.
abbrev pub counts : Pc → ℕ
counts (read_spin _) = 1
counts (reading _) = 1
counts (upgrade_try _) = 1
counts (upgrade_out _) = 1
counts _ = 0

-- The thread that set the request.
abbrev pub owns : Pc → ℕ
owns (draining _) = 1
owns (marking _) = 1
owns (writing _) = 1
owns (clearing _ _) = 1
owns (upgrade_out _) = 1
owns _ = 0

-- From the end of the wait for the readers to the release.
abbrev pub inside : Pc → ℕ
inside (marking _) = 1
inside (writing _) = 1
inside (clearing _ _) = 1
inside _ = 0

-- From the return of `readAcquire` on.
abbrev pub reads : Pc → ℕ
reads (reading _) = 1
reads (upgrade_try _) = 1
reads _ = 0

-- A writer that found interrupts enabled.
abbrev pub flagged : Pc → ℕ
flagged (writing true) = 1
flagged _ = 0

-- The flag that a release takes is the one that the acquisition put in.
abbrev pub FlagKept : Pc → Type 0
FlagKept (clearing enable_irqs irqs) = enable_irqs ≡ irqs
FlagKept _ = Unit {0}

abbrev pub as_bit : Bool → ℕ
as_bit b = if b then 1 else 0

pub record Inv (n : ℕ) (s : System) : Type 0 where
  pub few : n < 2 ^ 24
  pub word : s.lock.word ≡ total counts n s.pc + 2 ^ 25 * total owns n s.pc
  pub one_owner : total owns n s.pc ≤ 1
  pub apart : (total inside n s.pc ≡ 0) ⊎ (total reads n s.pc ≡ 0)
  pub flag : as_bit s.lock.irqs_were_enabled ≡ total flagged n s.pc
  pub kept : (i : ℕ) → FlagKept (s.pc i)

init-Inv : (n : ℕ) → n < 2 ^ 24 → Inv n init
init-Inv n few = record {
  few = few;
  word = ground (arith, total_still counts n idle refl, total_still owns n idle refl);
  one_owner = omega (arith, total_still owns n idle refl);
  apart = inl (total_still inside n idle refl);
  flag = sym (total_still flagged n idle refl);
  kept = λ i. tt;
}

counts-le-one : (p : Pc) → counts p ≤ 1
counts-le-one p = ground arith

pub inside-le-owns : (p : Pc) → inside p ≤ owns p
inside-le-owns p = ground arith

reads-le-counts : (p : Pc) → reads p ≤ counts p
reads-le-counts p = ground arith

flagged-le-owns : (p : Pc) → flagged p ≤ owns p
flagged-le-owns p = ground arith

-- The totals of a family of threads.
record Totals (n : ℕ) (pc : ℕ → Pc) : Type 0 where
  counted : total counts n pc ≤ n
  inside_own : total inside n pc ≤ total owns n pc
  reads_count : total reads n pc ≤ total counts n pc
  flagged_own : total flagged n pc ≤ total owns n pc

totals : (n : ℕ) (pc : ℕ → Pc) → Totals n pc
totals n pc = record {
  counted = omega (arith, total-le-times counts 1 n pc (λ i. counts-le-one (pc i)));
  inside_own = total_mono inside owns inside-le-owns n pc;
  reads_count = total_mono reads counts reads-le-counts n pc;
  flagged_own = total_mono flagged owns flagged-le-owns n pc;
}

-- The totals when thread `i` goes from `p` to `p'`.
record Mover (n : ℕ) (pc : ℕ → Pc) (i : ℕ) (p p' : Pc) : Type 0 where
  all_counts : total counts n (put pc i p') + counts p ≡ total counts n pc + counts p'
  all_owns : total owns n (put pc i p') + owns p ≡ total owns n pc + owns p'
  all_inside : total inside n (put pc i p') + inside p ≡ total inside n pc + inside p'
  all_reads : total reads n (put pc i p') + reads p ≡ total reads n pc + reads p'
  all_flagged : total flagged n (put pc i p') + flagged p ≡ total flagged n pc + flagged p'
  before : Totals n pc
  after : Totals n (put pc i p')

mover : (n : ℕ) (pc : ℕ → Pc) (i : ℕ) (p' : Pc) → i < n → Mover n pc i (pc i) p'
mover n pc i p' lt = record {
  all_counts = total-put counts n pc i p' lt;
  all_owns = total-put owns n pc i p' lt;
  all_inside = total-put inside n pc i p' lt;
  all_reads = total-put reads n pc i p' lt;
  all_flagged = total-put flagged n pc i p' lt;
  before = totals n pc;
  after = totals n (put pc i p');
}

put-FlagKept :
    (pc : ℕ → Pc) (i : ℕ) (p' : Pc)
    → ((j : ℕ) → FlagKept (pc j))
    → FlagKept p'
    → (j : ℕ) → FlagKept (put pc i p' j)
put-FlagKept pc i p' kept own j = elim (ℕ_discrete j i) [
  | yes e ↦ rw e (rw (put_same pc i p') own)
  | no ne ↦ rw (put_other pc i j p' ne) (kept j)
]

module _ {n : ℕ} {s : System} (inv : Inv n s) (i : ℕ) where
  open inv use {word, one_owner, apart, flag, few}

  moved :
      {l : Lock} (p' : Pc)
      → l.word ≡ total counts n (put s.pc i p') + 2 ^ 25 * total owns n (put s.pc i p')
      → total owns n (put s.pc i p') ≤ 1
      → (total inside n (put s.pc i p') ≡ 0) ⊎ (total reads n (put s.pc i p') ≡ 0)
      → as_bit l.irqs_were_enabled ≡ total flagged n (put s.pc i p')
      → FlagKept p'
      → Inv n (record { lock = l; pc = put s.pc i p' })
  moved p' w o a f own = record {
    few = inv.few;
    word = w;
    one_owner = o;
    apart = a;
    flag = f;
    kept = put-FlagKept s.pc i p' inv.kept own;
  }

  ReadAcquire-Inv :
      {p p' : Pc} {l : Lock}
      → Mover n s.pc i p p'
      → ReadAcquire s.lock p l p'
      → Inv n (record { lock = l; pc = put s.pc i p' })
  ReadAcquire-Inv m (ReadAcquire.enter irqs) =
      moved (read_spin irqs) (ground arith) (ground arith) (ground arith) (ground arith) tt
  ReadAcquire-Inv m (ReadAcquire.spin {irqs = irqs} e) =
      moved (read_spin irqs) (ground arith) (ground arith) (ground arith) (ground arith) tt
  ReadAcquire-Inv m (ReadAcquire.pass {irqs = irqs} e) =
      moved (reading irqs) (ground arith) (ground arith) (ground arith) (ground arith) tt

  ReadRelease-Inv :
      {p p' : Pc} {l : Lock}
      → Mover n s.pc i p p'
      → ReadRelease s.lock p l p'
      → Inv n (record { lock = l; pc = put s.pc i p' })
  ReadRelease-Inv m (ReadRelease.leave {irqs = irqs}) =
      moved (idle) (ground arith) (ground arith) (ground arith) (ground arith) tt

  Drain-Inv :
      {p p' : Pc} {l : Lock}
      → Mover n s.pc i p p'
      → Drain s.lock p l p'
      → Inv n (record { lock = l; pc = put s.pc i p' })
  Drain-Inv m (Drain.wait {irqs = irqs} e) =
      moved (draining irqs) (ground arith) (ground arith) (ground arith) (ground arith) tt
  Drain-Inv m (Drain.drained {irqs = irqs} e) =
      moved (marking irqs) (ground arith) (ground arith) (ground arith) (ground arith) tt
  Drain-Inv m (Drain.mark {irqs = irqs}) =
      moved (writing irqs) (ground arith) (ground arith) (ground arith) (ground arith) tt

  WriteAcquire-Inv :
      {p p' : Pc} {l : Lock}
      → Mover n s.pc i p p'
      → WriteAcquire s.lock p l p'
      → Inv n (record { lock = l; pc = put s.pc i p' })
  WriteAcquire-Inv m (WriteAcquire.come irqs) =
      moved (write_try irqs) (ground arith) (ground arith) (ground arith) (ground arith) tt
  WriteAcquire-Inv m (WriteAcquire.busy {irqs = irqs} e) =
      moved (write_try irqs) (ground arith) (ground arith) (ground arith) (ground arith) tt
  WriteAcquire-Inv m (WriteAcquire.request {irqs = irqs} e) =
      moved (draining irqs) (ground arith) (ground arith) (ground arith) (ground arith) tt
  WriteAcquire-Inv m (WriteAcquire.drain d) = Drain-Inv m d

  -- The flag is that of the writer at the release: no other thread set it.
  WriteRelease-Inv :
      {p p' : Pc} {l : Lock}
      → Mover n s.pc i p p'
      → Mover n s.pc i p (writing true)
      → WriteRelease s.lock p l p'
      → Inv n (record { lock = l; pc = put s.pc i p' })
  WriteRelease-Inv m alone (WriteRelease.take_flag {irqs = irqs}) =
      moved (clearing s.lock.irqs_were_enabled irqs) (ground arith) (ground arith) (ground arith)
        (ground arith) (ground arith)
  WriteRelease-Inv m alone (WriteRelease.clear {enable_irqs = enable_irqs} {irqs = irqs}) =
      moved (idle) (ground arith) (ground arith) (ground arith) (ground arith) tt

  ReadReleaseWriteAcquire-Inv :
      {p p' : Pc} {l : Lock}
      → Mover n s.pc i p p'
      → ReadReleaseWriteAcquire s.lock p l p'
      → Inv n (record { lock = l; pc = put s.pc i p' })
  ReadReleaseWriteAcquire-Inv m (ReadReleaseWriteAcquire.start {irqs = irqs}) =
      moved (upgrade_try irqs) (ground arith) (ground arith) (ground arith) (ground arith) tt
  ReadReleaseWriteAcquire-Inv m (ReadReleaseWriteAcquire.busy {irqs = irqs} e) =
      moved (upgrade_try irqs) (ground arith) (ground arith) (ground arith) (ground arith) tt
  ReadReleaseWriteAcquire-Inv m (ReadReleaseWriteAcquire.request {irqs = irqs} e) =
      moved (upgrade_out irqs) (ground arith) (ground arith) (ground arith) (ground arith) tt
  ReadReleaseWriteAcquire-Inv m (ReadReleaseWriteAcquire.go_out {irqs = irqs}) =
      moved (draining irqs) (ground arith) (ground arith) (ground arith) (ground arith) tt
  ReadReleaseWriteAcquire-Inv m (ReadReleaseWriteAcquire.drain d) = Drain-Inv m d

Move-Inv :
    {n : ℕ} {s : System} (inv : Inv n s) (i : ℕ) {l : Lock} {p' : Pc}
    → i < n
    → Move s.lock (s.pc i) l p'
    → Inv n (record { lock = l; pc = put s.pc i p' })
Move-Inv {n = n} {s = s} inv i {p' = p'} lt (read_acquire mv) =
    ReadAcquire-Inv inv i (mover n s.pc i p' lt) mv
Move-Inv {n = n} {s = s} inv i {p' = p'} lt (read_release mv) =
    ReadRelease-Inv inv i (mover n s.pc i p' lt) mv
Move-Inv {n = n} {s = s} inv i {p' = p'} lt (write_acquire mv) =
    WriteAcquire-Inv inv i (mover n s.pc i p' lt) mv
Move-Inv {n = n} {s = s} inv i {p' = p'} lt (write_release mv) =
    WriteRelease-Inv inv i (mover n s.pc i p' lt) (mover n s.pc i (writing true) lt) mv
Move-Inv {n = n} {s = s} inv i {p' = p'} lt (upgrade mv) =
    ReadReleaseWriteAcquire-Inv inv i (mover n s.pc i p' lt) mv

pub Steps-Inv : {n : ℕ} {s t : System} → Inv n s → Steps n s t → Inv n t
Steps-Inv inv here = inv
Steps-Inv inv (later steps (pick i lt mv)) = Move-Inv (Steps-Inv inv steps) i lt mv

pub Reach-Inv : {n : ℕ} {s : System} → n < 2 ^ 24 → Reach n s → Inv n s
Reach-Inv {n = n} few r = Steps-Inv (init-Inv n few) r
