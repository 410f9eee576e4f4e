-- ===== src/Bits/Tests.antt =====
-- Bitmaps of two words: runs of clear bits, found and missed.
use zambesii.Prelude.{ℕ, ◌+◌, ◌≡◌, refl, List, [], ◌∷◌, arith}
use zambesii.Prelude.Result.{ok, value, failed, not_found}
use zambesii.Bits.{kbit_test, contiguous_from, check_for_contiguous_bits_at, bit_is_set}
use zambesii.Bits.Search.{Clear, Outcome, check_for_contiguous_bits_at-Outcome}
use zambesii.Bits.Arrays.{is_set-replicate}

-- bits 4 to 9 and 12 to 63 are clear
abbrev holes : List ℕ
holes = 0xc0f ∷ 0 ∷ []

-- five bits at 4, the first run of three or more
finds_first : check_for_contiguous_bits_at holes 0 3 5 64 0 ≡ ok (value 4, 5)
unfolding check_for_contiguous_bits_at contiguous_from bit_is_set kbit_test
finds_first = refl

-- 52 clear bits are left at 12, and are not reported.
misses_tail : check_for_contiguous_bits_at holes 0 7 60 64 0 ≡ ok (failed not_found, 52)
unfolding check_for_contiguous_bits_at contiguous_from bit_is_set kbit_test
misses_tail = refl

check_for_contiguous_bits_at-Outcome_example :
    Outcome holes 3 5 0 (0 + 64) (check_for_contiguous_bits_at holes 0 3 5 64 0)
check_for_contiguous_bits_at-Outcome_example =
    check_for_contiguous_bits_at-Outcome holes 3 5 0 64 0 (omega arith) (omega arith) (omega arith)

no_bits_set : Clear (0 ∷ 0 ∷ []) 0 64
no_bits_set x lo hi = is_set-replicate 2 x
