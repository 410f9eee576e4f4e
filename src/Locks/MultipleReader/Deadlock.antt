-- ===== src/Locks/MultipleReader/Deadlock.antt =====
-- A writer and a reader that wait for each other forever.
use zambesii.Prelude.{
  ℕ, ◌^◌, ◌≤◌, ◌<◌, ◌≡◌, ◌≢◌, refl, sym, ap, ◌∙◌, Bool, true, false, arith, ℕ_discrete,
}
use zambesii.Locks.Threads.{total, weight-le-total, total-le-times}
use zambesii.Locks.MultipleReader.{
  Lock, requested, readers, Pc, read_spin, draining, upgrade_try, ReadAcquire, ReadRelease, Drain,
  WriteAcquire, WriteRelease, ReadReleaseWriteAcquire, Move, read_acquire, read_release,
  write_acquire, write_release, upgrade, System, Step, pick, Steps, here, later, Reach,
}
use zambesii.Locks.MultipleReader.Invariant.{counts, owns, Inv, Reach-Inv, Steps-Inv}

-- A thread that counts as a reader and waits for the request to go away.
abbrev pub waits : Pc → Bool
waits (read_spin _) = true
waits (upgrade_try _) = true
waits _ = false

draining_stays :
    {l l' : Lock} {p p' : Pc} {irqs : Bool}
    → Move l p l' p'
    → p ≡ draining irqs
    → readers l.word ≢ 0
    → p' ≡ draining irqs
draining_stays (read_acquire (ReadAcquire.enter irqs)) e some_left = ground arith
draining_stays (read_acquire (ReadAcquire.spin g)) e some_left = ground arith
draining_stays (read_acquire (ReadAcquire.pass g)) e some_left = ground arith
draining_stays (read_release (ReadRelease.leave)) e some_left = ground arith
draining_stays (write_acquire (WriteAcquire.come irqs)) e some_left = ground arith
draining_stays (write_acquire (WriteAcquire.busy g)) e some_left = ground arith
draining_stays (write_acquire (WriteAcquire.request g)) e some_left = ground arith
draining_stays (write_acquire (WriteAcquire.drain (Drain.wait g))) e some_left = ground arith
draining_stays (write_acquire (WriteAcquire.drain (Drain.drained g))) e some_left = ground arith
draining_stays (write_acquire (WriteAcquire.drain (Drain.mark))) e some_left = ground arith
draining_stays (write_release (WriteRelease.take_flag)) e some_left = ground arith
draining_stays (write_release (WriteRelease.clear)) e some_left = ground arith
draining_stays (upgrade (ReadReleaseWriteAcquire.start)) e some_left = ground arith
draining_stays (upgrade (ReadReleaseWriteAcquire.busy g)) e some_left = ground arith
draining_stays (upgrade (ReadReleaseWriteAcquire.request g)) e some_left = ground arith
draining_stays (upgrade (ReadReleaseWriteAcquire.go_out)) e some_left = ground arith
draining_stays (upgrade (ReadReleaseWriteAcquire.drain (Drain.wait g))) e some_left = ground arith
draining_stays (upgrade (ReadReleaseWriteAcquire.drain (Drain.drained g))) e some_left =
    ground arith
draining_stays (upgrade (ReadReleaseWriteAcquire.drain (Drain.mark))) e some_left = ground arith

waiting_stays :
    {l l' : Lock} {p p' : Pc} → Move l p l' p' → waits p ≡ true → requested l.word ≡ true → p' ≡ p
waiting_stays (read_acquire (ReadAcquire.enter irqs)) e set = ground arith
waiting_stays (read_acquire (ReadAcquire.spin g)) e set = ground arith
waiting_stays (read_acquire (ReadAcquire.pass g)) e set = ground arith
waiting_stays (read_release (ReadRelease.leave)) e set = ground arith
waiting_stays (write_acquire (WriteAcquire.come irqs)) e set = ground arith
waiting_stays (write_acquire (WriteAcquire.busy g)) e set = ground arith
waiting_stays (write_acquire (WriteAcquire.request g)) e set = ground arith
waiting_stays (write_acquire (WriteAcquire.drain (Drain.wait g))) e set = ground arith
waiting_stays (write_acquire (WriteAcquire.drain (Drain.drained g))) e set = ground arith
waiting_stays (write_acquire (WriteAcquire.drain (Drain.mark))) e set = ground arith
waiting_stays (write_release (WriteRelease.take_flag)) e set = ground arith
waiting_stays (write_release (WriteRelease.clear)) e set = ground arith
waiting_stays (upgrade (ReadReleaseWriteAcquire.start)) e set = ground arith
waiting_stays (upgrade (ReadReleaseWriteAcquire.busy g)) e set = ground arith
waiting_stays (upgrade (ReadReleaseWriteAcquire.request g)) e set = ground arith
waiting_stays (upgrade (ReadReleaseWriteAcquire.go_out)) e set = ground arith
waiting_stays (upgrade (ReadReleaseWriteAcquire.drain (Drain.wait g))) e set = ground arith
waiting_stays (upgrade (ReadReleaseWriteAcquire.drain (Drain.drained g))) e set = ground arith
waiting_stays (upgrade (ReadReleaseWriteAcquire.drain (Drain.mark))) e set = ground arith

-- What the lock word shows to a writer that waits for the readers, and to a counted reader.
word_shows :
    {n : ℕ} {s : System} (i j : ℕ) (irqs : Bool)
    → Inv n s
    → i < n
    → j < n
    → s.pc i ≡ draining irqs
    → waits (s.pc j) ≡ true
    → (readers s.lock.word ≢ 0) × (requested s.lock.word ≡ true)
word_shows {n = n} {s = s} i j irqs inv h k e w =
    let owner : 1 ≤ owns (s.pc i) = ground (arith, e) in
    let counted : 1 ≤ counts (s.pc j) = ground (arith, w) in
    let all_owners = weight-le-total owns n s.pc i h in
    let all_counts = weight-le-total counts n s.pc j k in
    let few_counts = total-le-times counts 1 n s.pc (λ i. ground arith) in
    let one : total owns n s.pc ≡ 1 = omega (arith, inv.one_owner, owner, all_owners) in
    (
      λ none_left.
          absurd
            (omega (arith, inv.word, one, counted, all_counts, few_counts, inv.few, none_left)),
      ground (arith, inv.word, one, few_counts, inv.few),
    )

Step-stays :
    {n : ℕ} {s t : System} (i j : ℕ) (irqs : Bool)
    → Inv n s
    → i < n
    → j < n
    → s.pc i ≡ draining irqs
    → waits (s.pc j) ≡ true
    → Step n s t
    → (t.pc i ≡ draining irqs) × (t.pc j ≡ s.pc j)
Step-stays {s = s} i j irqs inv h k e w (pick m {l} {p} lt mv) =
    let (some_left, set) = word_shows i j irqs inv h k e w in
    (
      elim (ℕ_discrete i m) [
        | yes same ↦ ground (arith, draining_stays mv (ap s.pc (sym same) ∙ e) some_left)
        | no other ↦ ground (arith, e)
      ],
      elim (ℕ_discrete j m) [
        | yes same ↦
            let at : s.pc m ≡ s.pc j = ap s.pc (sym same) in
            ground (arith, waiting_stays mv (ap waits at ∙ w) set, at)
        | no other ↦ ground arith
      ],
    )

-- A deadlock: when a writer waits for the readers while another thread is counted as a reader and
-- waits for the request to go away, be it in `readAcquire` or in `readReleaseWriteAcquire`, then both
-- wait in every state that any steps of fewer than 2 ^ 24 threads lead to.
pub wait_forever :
    {n : ℕ} {s t : System} (i j : ℕ) (irqs : Bool)
    → n < 2 ^ 24
    → Reach n s
    → i < n
    → j < n
    → s.pc i ≡ draining irqs
    → waits (s.pc j) ≡ true
    → Steps n s t
    → (t.pc i ≡ draining irqs) × (t.pc j ≡ s.pc j)
wait_forever i j irqs few r h k e w here = (e, refl)
wait_forever {s = s} i j irqs few r h k e w (later steps step) =
    let (e', same) = wait_forever i j irqs few r h k e w steps in
    let (e'', same') =
      Step-stays i j irqs (Steps-Inv (Reach-Inv few r) steps) h k e' (ap waits same ∙ w) step in
    (e'', same' ∙ same)
