-- ===== src/Locks/Waiting/Tests.antt =====
-- One thread has the lock and another spins.
use zambesii.Prelude.{ℕ, ◌<◌, ◌≡◌, refl, Bool, true, false, arith}
use zambesii.Locks.Threads.{put}
use zambesii.Locks.Waiting.{
  trying, marking, freeing, Acquire, acquire, System, pick, init, Reach, start, later,
}
use zambesii.Locks.Waiting.Safety.{owns, wait_lock_safe}

abbrev came : System
came = record { lock = init.lock; pc = put init.pc 0 (trying true) }

abbrev taken : System
taken = record {
  lock = record { word = 1; irqs_were_enabled = false };
  pc = put came.pc 0 (marking true);
}

taken_reached : Reach 2 taken
taken_reached =
    later (later start (pick 0 (omega arith) (acquire (Acquire.come true))))
      (pick 0 (omega arith) (acquire (Acquire.take refl)))

wait_lock_safe_example :
    (taken.lock.word ≡ 1)
    × ((j : ℕ) → j < 2 → owns (taken.pc j) ≡ 1 → 0 ≡ j)
    × ((enable_irqs irqs : Bool) → taken.pc 0 ≡ freeing enable_irqs irqs → enable_irqs ≡ irqs)
wait_lock_safe_example = wait_lock_safe 0 taken_reached (omega arith) refl
