-- ===== src/Bits/Arrays.antt =====
-- What the bitmap operations of __kcore/include/__kstdlib/__kbitManipulation.h do to each bit of
-- an array of words.
use native.Mathlib.Nat.{one-le-pow}
use zambesii.Prelude.{
  ℕ, zero, suc, ◌-◌, ◌*◌, ◌/◌, ◌%◌, ◌^◌, ◌<◌, ◌≡◌, ◌≢◌, refl, ap, Bool, true, false, List, arith,
  ◌==◌, if◌then◌else◌, get_or, set, replicate, length, length-set, get_or-set_self, get_or-set_ne,
  get_elem?-eq-get_or, get_or-replicate, ℕ_discrete,
}
use zambesii.Prelude.Result.{ok}
use zambesii.Bits.{
  word_bits, all_ones, kbit_set, kbit_unset, kbit_test, read, write, bit_is_set, set_bit, unset_bit,
}
use zambesii.Bits.Words.{
  digit, digit-le, digit-bit_or, digit-bit_and, digit-pow, digit-ones-sub-pow, digit-ones,
  bit_and-pow,
}

-- The state of bit `b`; a bit past the end reads as clear.
abbrev pub is_set : List ℕ → ℕ → Bool
is_set bmp b = kbit_test (get_or bmp (b / word_bits) 0) (b % word_bits)

pub kbit_test-digit : (w k : ℕ) → kbit_test w k ≡ (digit w k == 1)
unfolding kbit_test
kbit_test-digit w k = elim (ℕ_discrete (digit w k) 0) [
  | yes z ↦ ground (arith, bit_and-pow w k, ap (λ (t : ℕ). t * 2 ^ k) z)
  | no nz ↦
      let one : digit w k ≡ 1 = omega (arith, digit-le w k) in
      ground (arith, bit_and-pow w k, ap (λ (t : ℕ). t * 2 ^ k) one, one-le-pow k 2)
]

pub kbit_test-kbit_set :
    (w k j : ℕ) → kbit_test (kbit_set w k) j ≡ (if k == j then true else kbit_test w j)
unfolding kbit_set
kbit_test-kbit_set w k j = ground (
  arith,
  kbit_test-digit (kbit_set w k) j,
  kbit_test-digit w j,
  digit-bit_or w (2 ^ k) j,
  digit-pow k j,
  digit-le w j,
)

pub kbit_test-kbit_unset :
    (w k j : ℕ)
    → k < 32
    → j < 32
    → kbit_test (kbit_unset w k) j ≡ (if k == j then false else kbit_test w j)
unfolding kbit_unset
kbit_test-kbit_unset w k j hk hj = ground (
  arith,
  kbit_test-digit (kbit_unset w k) j,
  kbit_test-digit w j,
  digit-bit_and w (all_ones - 2 ^ k) j,
  digit-ones-sub-pow 32 k j hk hj,
  digit-le w j,
)

pub kbit_test-all_ones : (j : ℕ) → j < 32 → kbit_test all_ones j ≡ true
kbit_test-all_ones j h = ground (arith, kbit_test-digit all_ones j, digit-ones 32 j h)

kbit_test-zero : (j : ℕ) → kbit_test 0 j ≡ false
kbit_test-zero j = ground (arith, kbit_test-digit 0 j, none_set j)
  where
    none_set : (j : ℕ) → digit 0 j ≡ 0
    none_set zero = refl
    none_set (suc j) = none_set j

pub is_set-replicate : (n b : ℕ) → is_set (replicate n 0) b ≡ false
is_set-replicate n b =
    rw (get_or-replicate {A = ℕ} n 0 (b / word_bits)) (kbit_test-zero (b % word_bits))

abbrev pub with_set : List ℕ → ℕ → List ℕ
with_set bmp b = set bmp (b / word_bits) (kbit_set (get_or bmp (b / word_bits) 0) (b % word_bits))

abbrev pub with_unset : List ℕ → ℕ → List ℕ
with_unset bmp b =
    set bmp (b / word_bits) (kbit_unset (get_or bmp (b / word_bits) 0) (b % word_bits))

pub length-with_set : (bmp : List ℕ) (b : ℕ) → length (with_set bmp b) ≡ length bmp
length-with_set bmp b = length-set bmp (b / word_bits) _

pub length-with_unset : (bmp : List ℕ) (b : ℕ) → length (with_unset bmp b) ≡ length bmp
length-with_unset bmp b = length-set bmp (b / word_bits) _

module _ {ℓ} {A : Type ℓ} (xs : List A) (i : ℕ) (d : A) (inside : i < length xs) where
  pub read-get_or : read xs i ≡ ok (get_or xs i d)
  unfolding read
  read-get_or = ground (arith, get_elem?-eq-get_or xs i d)

  pub write-set : (v : A) → write xs i v ≡ ok (set xs i v)
  unfolding write
  write-set v = ground (arith, get_elem?-eq-get_or xs i d)

module _ (bmp : List ℕ) (b : ℕ) (inside : b < word_bits * length bmp) where
  index_inside : b / word_bits < length bmp
  index_inside = omega arith

  pub bit_is_set-is_set : bit_is_set bmp b ≡ ok (is_set bmp b)
  unfolding bit_is_set
  bit_is_set-is_set = ground (arith, get_elem?-eq-get_or bmp (b / word_bits) 0 index_inside)

  pub set_bit-with_set : set_bit bmp b ≡ ok (with_set bmp b)
  unfolding set_bit
  set_bit-with_set = ground (arith, get_elem?-eq-get_or bmp (b / word_bits) 0 index_inside)

  pub unset_bit-with_unset : unset_bit bmp b ≡ ok (with_unset bmp b)
  unfolding unset_bit
  unset_bit-with_unset = ground (arith, get_elem?-eq-get_or bmp (b / word_bits) 0 index_inside)

  word_at_self : (v : ℕ) → get_or (set bmp (b / word_bits) v) (b / word_bits) 0 ≡ v
  word_at_self v = get_or-set_self bmp (b / word_bits) v 0 index_inside

  word_at_other :
      (v j : ℕ) → b / word_bits ≢ j → get_or (set bmp (b / word_bits) v) j 0 ≡ get_or bmp j 0
  word_at_other v j ne = get_or-set_ne bmp (b / word_bits) j v 0 ne

  pub is_set-with_set :
      (c : ℕ) → is_set (with_set bmp b) c ≡ (if b == c then true else is_set bmp c)
  is_set-with_set c = elim (ℕ_discrete (b / word_bits) (c / word_bits)) [
    | yes same ↦ ground (
      arith,
      word_at_self (kbit_set (get_or bmp (b / word_bits) 0) (b % word_bits)),
      kbit_test-kbit_set (get_or bmp (b / word_bits) 0) (b % word_bits) (c % word_bits),
    )
    | no other ↦ ground (
      arith,
      word_at_other (kbit_set (get_or bmp (b / word_bits) 0) (b % word_bits)) (c / word_bits) other,
    )
  ]

  pub is_set-with_unset :
      (c : ℕ) → is_set (with_unset bmp b) c ≡ (if b == c then false else is_set bmp c)
  is_set-with_unset c = elim (ℕ_discrete (b / word_bits) (c / word_bits)) [
    | yes same ↦ ground (
      arith,
      word_at_self (kbit_unset (get_or bmp (b / word_bits) 0) (b % word_bits)),
      kbit_test-kbit_unset (get_or bmp (b / word_bits) 0) (b % word_bits) (c % word_bits),
    )
    | no other ↦ ground (
      arith,
      word_at_other (kbit_unset (get_or bmp (b / word_bits) 0) (b % word_bits)) (c / word_bits)
          other,
    )
  ]
