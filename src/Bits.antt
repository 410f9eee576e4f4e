-- ===== src/Bits.antt =====
-- Bitmaps as arrays of machine words: __kcore/include/__kstdlib/__kbitManipulation.h, and the
-- rounding macro of __kcore/include/__kstdlib/__kmath.h. A word is a `uarch_t` of 32 bits, as on
-- x8632. An access outside of the array is a fault.
mod Words
pub mod Arrays
pub mod Search
mod Tests
use zambesii.Prelude.{
  ℕ, suc, zero, ◌+◌, ◌-◌, ◌/◌, ◌%◌, ◌^◌, bit_and, bit_or, Bool, true, false, not, List, Option,
  none, some, ltb, leb, ◌==◌, ◌&&◌, if◌then◌else◌, get_elem?, set,
}
use zambesii.Prelude.Result.{
  Result, ok, fault, wild_access, invalid_arg_val, not_found, Status, value, failed, ◌>>=◌,
}

-- `__KBIT_NBITS_IN` of a `uarch_t`
abbrev pub word_bits : ℕ
word_bits = 32

-- `~((uarch_t)0)`
abbrev pub all_ones : ℕ
all_ones = 2 ^ 32 - 1

-- `__KBIT_SET`, `__KBIT_UNSET` and `__KBIT_TEST`
unfoldable pub kbit_set : ℕ → ℕ → ℕ
kbit_set var bit = bit_or var (2 ^ bit)

unfoldable pub kbit_unset : ℕ → ℕ → ℕ
kbit_unset var bit = bit_and var (all_ones - 2 ^ bit)

unfoldable pub kbit_test : ℕ → ℕ → Bool
kbit_test var bit = not (bit_and var (2 ^ bit) == 0)

-- `__KMATH_NELEMENTS`
abbrev pub nelements : ℕ → ℕ → ℕ
nelements raw block = raw / block + (if raw % block == 0 then 0 else 1)

-- a read and a write of one element of an array
unfoldable pub read {ℓ} : {A : Type ℓ} → List A → ℕ → Result A
read xs i = elim (get_elem? xs i) [ none ↦ fault wild_access | some x ↦ ok x ]

unfoldable pub write {ℓ} : {A : Type ℓ} → List A → ℕ → A → Result (List A)
write xs i v = elim (get_elem? xs i) [ none ↦ fault wild_access | some _ ↦ ok (set xs i v) ]

unfoldable pub bit_is_set : List ℕ → ℕ → Result Bool
unfolding read
bit_is_set bmp bit = do word ← read bmp (bit / word_bits); ok (kbit_test word (bit % word_bits))

unfoldable pub set_bit : List ℕ → ℕ → Result (List ℕ)
unfolding read write
set_bit bmp bit = do
  word ← read bmp (bit / word_bits)
  write bmp (bit / word_bits) (kbit_set word (bit % word_bits))

unfoldable pub unset_bit : List ℕ → ℕ → Result (List ℕ)
unfolding read write
unset_bit bmp bit = do
  word ← read bmp (bit / word_bits)
  write bmp (bit / word_bits) (kbit_unset word (bit % word_bits))

-- The loop of `checkForContiguousBitsAt` from bit `i` on, with `rounds` bits left to look at. It
-- gives the status that is returned and what is left in `*nFound`.
pub contiguous_from : List ℕ → ℕ → ℕ → ℕ → ℕ → ℕ → Result (Status × ℕ)
contiguous_from bmp min_frames max_frames zero i found = ok (failed not_found, found)
contiguous_from bmp min_frames max_frames (suc rounds) i found =
    let next = λ (n : ℕ). contiguous_from bmp min_frames max_frames rounds (i + 1) n in
    bit_is_set bmp i >>= λ used.
    if used
    then (let rest = next 0 in
        if found == 0
        then rest
        else if leb min_frames found
        then ok (value (i - found), found)
        else rest)
    else (let rest = next (found + 1) in
        if leb min_frames (found + 1) && (found + 1) == max_frames
        then ok (value (i - found), found + 1)
        else rest)

-- `checkForContiguousBitsAt`; `before` is what `*nFound` held.
pub check_for_contiguous_bits_at : List ℕ → ℕ → ℕ → ℕ → ℕ → ℕ → Result (Status × ℕ)
check_for_contiguous_bits_at bmp start_bit min_frames max_frames valid_bits before =
    if ltb max_frames min_frames
    then ok (failed invalid_arg_val, before)
    else contiguous_from bmp min_frames max_frames valid_bits start_bit 0
