-- ===== src/Clock/Tests.antt =====
-- Clocks next to a carry.
use zambesii.Prelude.{◌+◌, ◌%◌, ◌^◌, ◌≡◌, arith}
use zambesii.Clock.{Clock, add}
use zambesii.Clock.Value.{IsValid, value, value-add}

abbrev before_carry : Clock
before_carry = record { high = 4; low = 0xFFFFFFFE }

abbrev later : Clock
later = record { high = 5; low = 0 }

before_carry-IsValid : IsValid before_carry
before_carry-IsValid = record { low_word = omega arith; high_word = omega arith }

later-IsValid : IsValid later
later-IsValid = record { low_word = omega arith; high_word = omega arith }

value-add_example :
    (value (add before_carry 7) ≡ (value before_carry + 7) % 2 ^ 64) × IsValid (add before_carry 7)
value-add_example = value-add before_carry-IsValid (omega arith)
