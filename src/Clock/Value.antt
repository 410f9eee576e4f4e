-- ===== src/Clock/Value.antt =====
-- A `clock_t` as a 64-bit count.
use zambesii.Prelude.{ℕ, ◌+◌, ◌*◌, ◌/◌, ◌<◌, ◌^◌, ◌%◌, ◌≡◌, not, ◌==◌, ltb, leb, arith}
use zambesii.Clock.{
  Clock, add, increment, equal, greater, less, greater_equal, less_equal, not_equal,
}

pub record IsValid (c : Clock) : Type 0 where
  pub low_word : c.low < 2 ^ 32
  pub high_word : c.high < 2 ^ 32

abbrev pub value : Clock → ℕ
value c = c.high * 2 ^ 32 + c.low

-- `operator+=` adds a word to the count modulo 2 ^ 64, in every case of a carry, and both words of
-- the clock stay 32 bits wide.
pub value-add :
    {c : Clock} {i : ℕ}
    → IsValid c
    → i < 2 ^ 32
    → (value (add c i) ≡ (value c + i) % 2 ^ 64) × IsValid (add c i)
unfolding add
value-add v small = (ground arith, record { low_word = ground arith; high_word = ground arith })

-- `operator++` adds one to the count modulo 2 ^ 64, and both words stay 32 bits wide.
value-increment :
    {c : Clock} → IsValid c → (value (increment c) ≡ (value c + 1) % 2 ^ 64) × IsValid (increment c)
unfolding increment
value-increment v = (ground arith, record { low_word = ground arith; high_word = ground arith })

-- Of two clocks, `==`, `!=`, `>` and `<` compare the 64-bit counts. `>=` and `<=` compare the high
-- words alone: with equal high words they hold whatever the low words are.
comparisons :
    {a c : Clock}
    → IsValid a
    → IsValid c
    → (equal a c ≡ (value a == value c))
      × (not_equal a c ≡ not (value a == value c))
      × (greater a c ≡ ltb (value c) (value a))
      × (less a c ≡ ltb (value a) (value c))
      × (greater_equal a c ≡ leb (value c / 2 ^ 32) (value a / 2 ^ 32))
      × (less_equal a c ≡ leb (value a / 2 ^ 32) (value c / 2 ^ 32))
unfolding equal not_equal greater less greater_equal less_equal
comparisons v w =
    (ground arith, ground arith, ground arith, ground arith, ground arith, ground arith)
