-- ===== src/Locks/MultipleReader/Tests.antt =====
-- A reader comes between the request of a writer and its wait for the readers.
use zambesii.Prelude.{ℕ, ◌+◌, ◌^◌, ◌≡◌, refl, true, false, arith}
use zambesii.Locks.Threads.{put}
use zambesii.Locks.MultipleReader.{
  Lock, read_spin, draining, writing, marking, clearing, write_try, ReadAcquire, WriteAcquire,
  WriteRelease, Drain, read_acquire, write_acquire, write_release, System, pick, init, here, later,
  Reach,
}
use zambesii.Locks.MultipleReader.Exclusion.{may_read, may_write, mutual_exclusion}
use zambesii.Locks.MultipleReader.Deadlock.{wait_forever}

abbrev with_word : ℕ → Lock
with_word w = record { word = w; irqs_were_enabled = false }

-- Thread 0 asks to write, thread 1 to read.
abbrev came : System
came = record { lock = with_word 0; pc = put init.pc 0 (write_try true) }

abbrev asked : System
asked = record { lock = with_word (2 ^ 25); pc = put came.pc 0 (draining true) }

abbrev stuck : System
stuck = record { lock = with_word (2 ^ 25 + 1); pc = put asked.pc 1 (read_spin true) }

asked_reached : Reach 2 asked
asked_reached =
    later (later here (pick 0 (omega arith) (write_acquire (WriteAcquire.come true))))
      (pick 0 (omega arith) (write_acquire (WriteAcquire.request refl)))

stuck_reached : Reach 2 stuck
stuck_reached = later asked_reached (pick 1 (omega arith) (read_acquire (ReadAcquire.enter true)))

wait_forever_example : (stuck.pc 0 ≡ draining true) × (stuck.pc 1 ≡ read_spin true)
wait_forever_example =
    wait_forever 0 1 true (omega arith) stuck_reached (omega arith) (omega arith) refl refl here

abbrev let_in : System
let_in = record { lock = with_word (2 ^ 25); pc = put asked.pc 0 (marking true) }

abbrev inside_it : System
inside_it = record {
  lock = record { word = 2 ^ 25; irqs_were_enabled = true };
  pc = put let_in.pc 0 (writing true);
}

abbrev releasing : System
releasing = record { lock = with_word (2 ^ 25); pc = put inside_it.pc 0 (clearing true true) }

inside_reached : Reach 2 inside_it
inside_reached =
    later
      (later asked_reached
        (pick 0 (omega arith) (write_acquire (WriteAcquire.drain (Drain.drained refl)))))
      (pick 0 (omega arith) (write_acquire (WriteAcquire.drain Drain.mark)))

releasing_reached : Reach 2 releasing
releasing_reached =
    later inside_reached (pick 0 (omega arith) (write_release WriteRelease.take_flag))

mutual_exclusion_example :
    (may_read (inside_it.pc 1) ≡ false) × (may_write (inside_it.pc 1) ≡ false)
mutual_exclusion_example =
    mutual_exclusion 0 1 (omega arith) inside_reached (omega arith) (omega arith) (omega arith) refl
