-- ===== src/Bits/Words.antt =====
-- The bits of a machine word: how `|`, `&` and a power of two act on each binary digit.
use Prim.Native.Nat.{digits, bitwise, bit_and-bitwise, bit_or-bitwise}
use native.Mathlib.Nat.{le_refl, pow-suc, one-le-pow}
use zambesii.Prelude.{
  ℕ, zero, suc, ◌+◌, ◌-◌, ◌*◌, ◌/◌, ◌%◌, ◌^◌, ◌≤◌, ◌<◌, min, max, bit_and, bit_or, ◌≡◌, refl, ap,
  arith, if◌then◌else◌, ◌==◌,
}

-- The digit of weight `2 ^ k`.
abbrev pub digit : ℕ → ℕ → ℕ
digit w zero = w % 2
digit w (suc k) = digit (w / 2) k

module _ (z : ℕ → ℕ) (f : ℕ → ℕ → ℕ) where
  enough_digits : (n m a b : ℕ) → a ≤ n → a ≤ m → digits z f n a b ≡ digits z f m a b
  enough_digits zero zero a b p q = refl
  enough_digits zero (suc m) zero b p q = refl
  enough_digits zero (suc m) (suc a) b p q = absurd (omega arith)
  enough_digits (suc n) zero zero b p q = refl
  enough_digits (suc n) zero (suc a) b p q = absurd (omega arith)
  enough_digits (suc n) (suc m) zero b p q = refl
  enough_digits (suc n) (suc m) (suc a) b p q =
      rw (enough_digits n m (suc a / 2) (b / 2) (omega arith) (omega arith))

  lowest_digit :
      (a b : ℕ)
      → bitwise z f (suc a) b ≡ bitwise z f (suc a / 2) (b / 2) * 2 + f (suc a % 2) (b % 2)
  lowest_digit a b =
      omega (arith, enough_digits a (suc a / 2) (suc a / 2) (b / 2) (omega arith) (le_refl _))

or_step : (a b : ℕ) → bit_or a b ≡ bit_or (a / 2) (b / 2) * 2 + max (a % 2) (b % 2)
or_step zero b = simp bit_or-bitwise (omega arith)
or_step (suc a) b = simp bit_or-bitwise (lowest_digit (λ y. y) max a b)

and_step : (a b : ℕ) → bit_and a b ≡ bit_and (a / 2) (b / 2) * 2 + min (a % 2) (b % 2)
and_step zero b = simp bit_and-bitwise (omega arith)
and_step (suc a) b = simp bit_and-bitwise (lowest_digit (λ y. 0) min a b)

pub digit-le : (w k : ℕ) → digit w k ≤ 1
digit-le w zero = omega arith
digit-le w (suc k) = digit-le (w / 2) k

pub digit-bit_or : (a b k : ℕ) → digit (bit_or a b) k ≡ max (digit a k) (digit b k)
digit-bit_or a b zero = omega (arith, or_step a b)
digit-bit_or a b (suc k) = rw (halved) (digit-bit_or (a / 2) (b / 2) k)
  where
    halved : bit_or a b / 2 ≡ bit_or (a / 2) (b / 2)
    halved = omega (arith, or_step a b)

pub digit-bit_and : (a b k : ℕ) → digit (bit_and a b) k ≡ min (digit a k) (digit b k)
digit-bit_and a b zero = omega (arith, and_step a b)
digit-bit_and a b (suc k) = rw (halved) (digit-bit_and (a / 2) (b / 2) k)
  where
    halved : bit_and a b / 2 ≡ bit_and (a / 2) (b / 2)
    halved = omega (arith, and_step a b)

digit-zero : (k : ℕ) → digit 0 k ≡ 0
digit-zero zero = refl
digit-zero (suc k) = digit-zero k

half_pow : (k : ℕ) → 2 ^ suc k / 2 ≡ 2 ^ k
half_pow k = omega (arith, pow-suc 2 k)

-- A power of two has one digit set.
pub digit-pow : (k j : ℕ) → digit (2 ^ k) j ≡ (if k == j then 1 else 0)
digit-pow zero zero = refl
digit-pow zero (suc j) = ground (arith, digit-zero j)
digit-pow (suc k) zero = ground (arith, pow-suc 2 k)
digit-pow (suc k) (suc j) = rw (half_pow k) (ground (arith, digit-pow k j))

-- A word of ones has every digit set.
pub digit-ones : (n j : ℕ) → j < n → digit (2 ^ n - 1) j ≡ 1
digit-ones zero j h = absurd (omega arith)
digit-ones (suc n) zero h = omega (arith, pow-suc 2 n, one-le-pow n 2)
digit-ones (suc n) (suc j) h = rw (halved) (digit-ones n j (omega arith))
  where
    halved : (2 ^ suc n - 1) / 2 ≡ 2 ^ n - 1
    halved = omega (arith, pow-suc 2 n, one-le-pow n 2)

shaved : (n : ℕ) → (2 ^ suc n - 1 - 2 ^ 0) / 2 ≡ 2 ^ n - 1
shaved n = omega (arith, pow-suc 2 n, one-le-pow n 2)

pow_mono : (k n : ℕ) → k < n → 2 ^ k < 2 ^ n
pow_mono k zero h = absurd (omega arith)
pow_mono zero (suc n) h = omega (arith, pow-suc 2 n, one-le-pow n 2)
pow_mono (suc k) (suc n) h = omega (arith, pow-suc 2 k, pow-suc 2 n, pow_mono k n (omega arith))

-- The complement of one bit, within a word of `n` bits.
pub digit-ones-sub-pow :
    (n k j : ℕ) → k < n → j < n → digit (2 ^ n - 1 - 2 ^ k) j ≡ (if k == j then 0 else 1)
digit-ones-sub-pow zero k j p q = absurd (omega arith)
digit-ones-sub-pow (suc n) zero zero p q = omega (arith, pow-suc 2 n, one-le-pow n 2)
digit-ones-sub-pow (suc n) zero (suc j) p q =
    ground (arith, pow-suc 2 n, one-le-pow n 2, shaved n, digit-ones n j)
digit-ones-sub-pow (suc n) (suc k) zero p q =
    ground (arith, pow-suc 2 n, pow-suc 2 k, one-le-pow k 2, pow_mono k n)
digit-ones-sub-pow (suc n) (suc k) (suc j) p q =
    rw (halved) (ground (arith, digit-ones-sub-pow n k j))
  where
    halved : (2 ^ suc n - 1 - 2 ^ suc k) / 2 ≡ 2 ^ n - 1 - 2 ^ k
    halved = omega (arith, pow-suc 2 n, pow-suc 2 k, one-le-pow n 2)

and_zero : (n w : ℕ) → w ≤ n → bit_and w 0 ≡ 0
and_zero n zero h = omega (arith, and_step 0 0)
and_zero zero (suc w) h = absurd (omega arith)
and_zero (suc n) (suc w) h = omega (arith, and_step (suc w) 0, and_zero n (suc w / 2) (omega arith))

-- `w & (1 << k)` is the digit at its weight.
pub bit_and-pow : (w k : ℕ) → bit_and w (2 ^ k) ≡ digit w k * 2 ^ k
bit_and-pow w zero = omega (arith, and_step w 1, and_zero (w / 2) (w / 2) (le_refl _))
bit_and-pow w (suc k) = omega (
  arith,
  and_step w (2 ^ suc k),
  pow-suc 2 k,
  ap (bit_and (w / 2)) (half_pow k),
  bit_and-pow (w / 2) k,
  ap (λ (t : ℕ). digit (w / 2) k * t) (pow-suc 2 k),
)
