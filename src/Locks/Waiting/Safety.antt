-- ===== src/Locks/Waiting/Safety.antt =====
-- What holds in every state that the threads on a `WaitLock` reach.
use Prim.{Unit, tt}
use zambesii.Prelude.{
  ℕ, ◌+◌, ◌≤◌, ◌<◌, ◌≡◌, refl, sym, Bool, true, if◌then◌else◌, arith, ℕ_discrete,
}
use zambesii.Locks.Threads.{
  put, put_same, put_other, total, total-put, total_mono, total_still, two_weights-le-total,
  weight-le-total,
}
use zambesii.Locks.Waiting.{
  Lock, Pc, idle, trying, marking, holding, freeing, freeing_no_irqs, Acquire, Release,
  ReleaseNoIrqs, Move, acquire, release, release_no_irqs, System, pick, init, Reach, start, later,
}

-- The thread that set the lock word.
abbrev pub owns : Pc → ℕ
owns idle = 0
owns (trying _) = 0
owns _ = 1

abbrev flagged : Pc → ℕ
flagged (holding true) = 1
flagged _ = 0

abbrev FlagKept : Pc → Type 0
FlagKept (freeing enable_irqs irqs) = enable_irqs ≡ irqs
FlagKept _ = Unit {0}

abbrev as_bit : Bool → ℕ
as_bit b = if b then 1 else 0

record Inv (n : ℕ) (s : System) : Type 0 where
  pub word : s.lock.word ≡ total owns n s.pc
  pub one_owner : total owns n s.pc ≤ 1
  pub flag : as_bit s.lock.irqs_were_enabled ≡ total flagged n s.pc
  pub kept : (i : ℕ) → FlagKept (s.pc i)

init-Inv : (n : ℕ) → Inv n init
init-Inv n = record {
  word = sym (total_still owns n idle refl);
  one_owner = omega (arith, total_still owns n idle refl);
  flag = sym (total_still flagged n idle refl);
  kept = λ i. tt;
}

flagged-le-owns : (p : Pc) → flagged p ≤ owns p
flagged-le-owns p = ground arith

-- The totals when thread `i` goes from `p` to `p'`.
record Mover (n : ℕ) (pc : ℕ → Pc) (i : ℕ) (p p' : Pc) : Type 0 where
  all_owns : total owns n (put pc i p') + owns p ≡ total owns n pc + owns p'
  all_flagged : total flagged n (put pc i p') + flagged p ≡ total flagged n pc + flagged p'
  flagged_own : total flagged n pc ≤ total owns n pc
  flagged_own_after : total flagged n (put pc i p') ≤ total owns n (put pc i p')

mover : (n : ℕ) (pc : ℕ → Pc) (i : ℕ) (p' : Pc) → i < n → Mover n pc i (pc i) p'
mover n pc i p' lt = record {
  all_owns = total-put owns n pc i p' lt;
  all_flagged = total-put flagged n pc i p' lt;
  flagged_own = total_mono flagged owns flagged-le-owns n pc;
  flagged_own_after = total_mono flagged owns flagged-le-owns n (put pc i p');
}

put-FlagKept :
    (pc : ℕ → Pc) (i : ℕ) (p' : Pc)
    → ((j : ℕ) → FlagKept (pc j))
    → FlagKept p'
    → (j : ℕ) → FlagKept (put pc i p' j)
put-FlagKept pc i p' kept own j = elim (ℕ_discrete j i) [
  | yes e ↦ rw e (rw (put_same pc i p') own)
  | no ne ↦ rw (put_other pc i j p' ne) (kept j)
]

module _ {n : ℕ} {s : System} (inv : Inv n s) (i : ℕ) where
  open inv use {word, one_owner, flag}

  moved :
      {l : Lock} (p' : Pc)
      → l.word ≡ total owns n (put s.pc i p')
      → total owns n (put s.pc i p') ≤ 1
      → as_bit l.irqs_were_enabled ≡ total flagged n (put s.pc i p')
      → FlagKept p'
      → Inv n (record { lock = l; pc = put s.pc i p' })
  moved p' w o f own = record {
    word = w;
    one_owner = o;
    flag = f;
    kept = put-FlagKept s.pc i p' inv.kept own;
  }

  Acquire-Inv :
      {p p' : Pc} {l : Lock}
      → Mover n s.pc i p p'
      → Acquire s.lock p l p'
      → Inv n (record { lock = l; pc = put s.pc i p' })
  Acquire-Inv m (Acquire.come irqs) =
      moved (trying irqs) (ground arith) (ground arith) (ground arith) tt
  Acquire-Inv m (Acquire.spin {irqs = irqs} e) =
      moved (trying irqs) (ground arith) (ground arith) (ground arith) tt
  Acquire-Inv m (Acquire.take {irqs = irqs} e) =
      moved (marking irqs) (ground arith) (ground arith) (ground arith) tt
  Acquire-Inv m (Acquire.mark {irqs = irqs}) =
      moved (holding irqs) (ground arith) (ground arith) (ground arith) tt

  -- The flag is that of the thread that holds the lock: no other thread set it.
  Release-Inv :
      {p p' : Pc} {l : Lock}
      → Mover n s.pc i p p'
      → Mover n s.pc i p (holding true)
      → Release s.lock p l p'
      → Inv n (record { lock = l; pc = put s.pc i p' })
  Release-Inv m alone (Release.take_flag {irqs = irqs}) =
      moved (freeing s.lock.irqs_were_enabled irqs) (ground arith) (ground arith) (ground arith)
        (ground arith)
  Release-Inv m alone (Release.free {enable_irqs = enable_irqs} {irqs = irqs}) =
      moved (idle) (ground arith) (ground arith) (ground arith) tt

  ReleaseNoIrqs-Inv :
      {p p' : Pc} {l : Lock}
      → Mover n s.pc i p p'
      → Mover n s.pc i p (holding true)
      → ReleaseNoIrqs s.lock p l p'
      → Inv n (record { lock = l; pc = put s.pc i p' })
  ReleaseNoIrqs-Inv m alone (ReleaseNoIrqs.drop_flag {irqs = irqs}) =
      moved (freeing_no_irqs) (ground arith) (ground arith) (ground arith) tt
  ReleaseNoIrqs-Inv m alone ReleaseNoIrqs.free =
      moved (idle) (ground arith) (ground arith) (ground arith) tt

Move-Inv :
    {n : ℕ} {s : System} (inv : Inv n s) (i : ℕ) {l : Lock} {p' : Pc}
    → i < n
    → Move s.lock (s.pc i) l p'
    → Inv n (record { lock = l; pc = put s.pc i p' })
Move-Inv {n = n} {s = s} inv i {p' = p'} lt (acquire mv) =
    Acquire-Inv inv i (mover n s.pc i p' lt) mv
Move-Inv {n = n} {s = s} inv i {p' = p'} lt (release mv) =
    Release-Inv inv i (mover n s.pc i p' lt) (mover n s.pc i (holding true) lt) mv
Move-Inv {n = n} {s = s} inv i {p' = p'} lt (release_no_irqs mv) =
    ReleaseNoIrqs-Inv inv i (mover n s.pc i p' lt) (mover n s.pc i (holding true) lt) mv

Reach-Inv : {n : ℕ} {s : System} → Reach n s → Inv n s
Reach-Inv {n = n} start = init-Inv n
Reach-Inv (later r (pick i lt mv)) = Move-Inv (Reach-Inv r) i lt mv

-- In every order of the steps of any number of threads, at most one thread has the lock between the
-- exchange that took it and the write that frees it; while one has it the lock word is 1, so no
-- other thread gets past its loop; and a release enables interrupts exactly if they were enabled when
-- the thread came for the lock.
pub wait_lock_safe :
    {n : ℕ} {s : System} (i : ℕ)
    → Reach n s
    → i < n
    → owns (s.pc i) ≡ 1
    → (s.lock.word ≡ 1)
      × ((j : ℕ) → j < n → owns (s.pc j) ≡ 1 → i ≡ j)
      × ((enable_irqs irqs : Bool) → s.pc i ≡ freeing enable_irqs irqs → enable_irqs ≡ irqs)
wait_lock_safe {n = n} {s = s} i r h own =
    let inv : Inv n s = Reach-Inv r in
    let owned = weight-le-total owns n s.pc i h in
    (
      omega (arith, inv.word, inv.one_owner, owned, own),
      λ j k other. elim (ℕ_discrete i j) [
        | yes e ↦ e
        | no ne ↦
            absurd (
              omega (arith, inv.one_owner, two_weights-le-total owns n s.pc i j h k ne, own, other))
      ],
      λ enable_irqs irqs at. ground (arith, inv.kept i, at),
    )
