-- ===== src/Locks/Recursive/Tests.antt =====
-- A thread takes the lock twice.
use zambesii.Prelude.{false, ℕ, ◌≡◌, refl, Bool, true, arith, Option, some, none, ◌⊎◌}
use zambesii.Locks.Threads.{put}
use zambesii.Locks.Recursive.{
  Pc, trying, won, counted, again, holding, releasing, freeing, Acquire, acquire, System, pick,
  init, Reach, start, later,
}
use zambesii.Locks.Recursive.Safety.{owns, recursive_lock_safe}

abbrev at : Option ℕ → ℕ → Bool → Pc → System → System
at word count flag p s = record {
  lock = record { word = word; recursion_count = count; irqs_were_enabled = flag };
  pc = put s.pc 3 p;
}

abbrev came : System
came = at none 0 false (trying 0 true true) init

abbrev taken : System
taken = at (some 3) 0 false (won true) came

abbrev once : System
once = at (some 3) 1 false (counted true) taken

abbrev held : System
held = at (some 3) 1 true (holding 1 true) once

abbrev came_again : System
came_again = at (some 3) 1 true (trying 1 true false) held

abbrev own : System
own = at (some 3) 1 true (again 1 true) came_again

abbrev twice : System
twice = at (some 3) 2 true (holding 2 true) own

twice_reached : Reach twice
twice_reached =
    later
      (later
        (later
          (later
            (later
              (later (later start (pick 3 (acquire (Acquire.come true))))
                (pick 3 (acquire (Acquire.take refl))))
              (pick 3 (acquire Acquire.count)))
            (pick 3 (acquire Acquire.mark)))
          (pick 3 (acquire (Acquire.come_again false (omega arith)))))
        (pick 3 (acquire (Acquire.own refl))))
      (pick 3 (acquire Acquire.count_again))

recursive_lock_safe_example :
    (twice.lock.word ≡ some 3)
    × ((j : ℕ) → owns (twice.pc j) ≡ true → 3 ≡ j)
    × ((depth : ℕ) (outer : Bool)
        → (twice.pc 3 ≡ holding depth outer) ⊎ (twice.pc 3 ≡ releasing depth outer)
        → twice.lock.recursion_count ≡ depth)
    × ((enable_irqs outer : Bool) → twice.pc 3 ≡ freeing enable_irqs outer → enable_irqs ≡ outer)
recursive_lock_safe_example = recursive_lock_safe 3 twice_reached refl
