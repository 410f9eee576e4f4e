-- ===== src/Clock.antt =====
-- `clock_t`, a count of ticks in two words: __kcore/include/__kclasses/clock_t.h, with 32-bit words.
pub mod Value
mod Tests
use zambesii.Prelude.{
  ℕ, ◌+◌, ◌^◌, ◌%◌, Bool, true, false, ◌&&◌, ◌||◌, not, ◌==◌, ltb, leb, if◌then◌else◌, add_uarch,
  sub_uarch,
}

pub record Clock : Type 0 where
  pub low : ℕ
  pub high : ℕ

-- CLOCK_UARCH_MAX
abbrev pub uarch_max : ℕ
uarch_max = 0xFFFFFFFF

-- `operator+=`
pub add : Clock → ℕ → Clock
add c i =
    if ltb (sub_uarch uarch_max i) c.low
    then record {
      high = add_uarch c.high 1;
      low = add_uarch 0 (sub_uarch (sub_uarch i (sub_uarch uarch_max c.low)) 1);
    }
    else record c { low = add_uarch c.low i }

-- `operator++`
pub increment : Clock → Clock
increment c =
    if c.low == uarch_max
    then record { high = add_uarch c.high 1; low = 0 }
    else record c { low = add_uarch c.low 1 }

pub equal : Clock → Clock → Bool
equal a c = c.low == a.low && c.high == a.high

pub greater : Clock → Clock → Bool
greater a c = ltb c.high a.high || (a.high == c.high && ltb c.low a.low)

pub less : Clock → Clock → Bool
less a c = ltb a.high c.high || (a.high == c.high && ltb a.low c.low)

pub greater_equal : Clock → Clock → Bool
greater_equal a c = leb c.high a.high || (a.high == c.high && leb c.low a.low)

pub less_equal : Clock → Clock → Bool
less_equal a c = leb a.high c.high || (a.high == c.high && leb a.low c.low)

pub not_equal : Clock → Clock → Bool
not_equal a c = not (a.high == c.high) || not (a.low == c.low)
