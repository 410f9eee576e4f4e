-- ===== src/MemoryBmp/Fragmented.antt =====
-- `MemoryBmp::fragmentedGetFrames` of __kcore/__kclasses/memBmp.cpp, loop by loop. A loop over the
-- words of the array is a recursion on the words that are left.
pub mod Counting
pub mod Runs
pub mod Allocation
mod Tests
use zambesii.Prelude.{
  ℕ, zero, suc, ◌+◌, ◌-◌, ◌*◌, ◌/◌, ◌%◌, ◌^◌, Bool, true, false, not, List, [], ◌∷◌, Option, none,
  some, ltb, leb, ◌==◌, if◌then◌else◌, drop,
}
use zambesii.Prelude.Result.{
  Result, ok, fault, wild_access, invalid_arg, memory_nomem_physical, Status, value, failed, ◌>>=◌,
}
use zambesii.Bits.{word_bits, all_ones, kbit_test}
use zambesii.MemoryBmp.{MemoryBmp, page_size, set_frames}

-- How the loops that count a run end: by `goto out`, or by their own tests.
pub data Scan : Type 0 where
  out : ℕ → Scan
  ran_on : ℕ → Scan

-- `bitLimit` at word `i`
pub bit_limit : MemoryBmp → ℕ → ℕ
bit_limit m i =
    if i == m.n_indexes - 1
    then (if m.n_frames % word_bits == 0 then word_bits else m.n_frames % word_bits)
    else word_bits

-- The loop on `k`: counts the clear bits of one word, until it has `n`.
pub scan_word : ℕ → ℕ → ℕ → ℕ → ℕ → Scan
scan_word word zero k n found = ran_on found
scan_word word (suc rounds) k n found =
    if kbit_test word k
    then out found
    else (let rest = scan_word word rounds (k + 1) n (found + 1) in
        if leb n (found + 1) then out (found + 1) else rest)

-- The inner loop on `i`, with the run starting at bit `j` of its first word.
pub scan_words : MemoryBmp → List ℕ → ℕ → ℕ → ℕ → ℕ → Scan
scan_words m [] i j n found = ran_on found
scan_words m (word ∷ words) i j n found =
    let k : ℕ = if found == 0 then j else 0 in
    let scanned : Scan = elim (scan_word word (bit_limit m i - k) k n found) [
      | out f ↦ out f
      | ran_on f ↦ scan_words m words (i + 1) j n f
    ] in
    if word == all_ones then out found else scanned

-- The loop on `j`, up to the first clear bit.
pub find_clear : ℕ → ℕ → ℕ → Option ℕ
find_clear word zero j = none
find_clear word (suc rounds) j =
    let rest = find_clear word rounds (j + 1) in if kbit_test word j then rest else some j

-- The outer loop on `i`: the first frame and the length of the run to take, or `none` if the code
-- falls through to `ERROR_MEMORY_NOMEM_PHYSICAL`. Where the run reaches the end of the array before
-- it is long enough, `i` is past the array, and the loop on `j` reads there if it has bits left.
pub find_run : MemoryBmp → List ℕ → ℕ → ℕ → Result (Option (ℕ × ℕ))
find_run m [] i n = ok none
find_run m (word ∷ words) i n =
    let rest = find_run m words (i + 1) n in
    let here : Result (Option (ℕ × ℕ)) = elim (find_clear word (bit_limit m i) 0) [
      | none ↦ rest
      | some j ↦ elim (scan_words m (word ∷ words) i j n 0) [
        | out found ↦ ok (some (m.base_pfn + i * word_bits + j, found))
        | ran_on found ↦
            if ltb (j + 1) (bit_limit m (m.n_indexes - 1)) then fault wild_access else ok none
      ]
    ] in
    if word == all_ones then rest else here

-- The status, `*paddr` where it is written, and the bitmap. `has_paddr` is `paddr != NULL`.
pub fragmented_get_frames : MemoryBmp → Bool → ℕ → Result (Status × Option ℕ × MemoryBmp)
fragmented_get_frames m has_paddr n =
    if not has_paddr
    then ok (failed invalid_arg, none, m)
    else if n == 0
    then ok (value 0, none, m)
    else (find_run m (drop m.last_alloc_index m.bmp) m.last_alloc_index n >>= λ run. elim run [
      | none ↦ ok (failed memory_nomem_physical, none, m)
      | some (start, found) ↦ set_frames m start found >>= λ m'. ok (
        value found,
        some (start * page_size % 2 ^ 32),
        record m' { last_alloc_index = (start + found - m.base_pfn) / word_bits },
      )
    ])
