-- ===== src/MemoryBmp/Fragmented/Tests.antt =====
-- Allocations from bitmaps of 40 frames.
use zambesii.Prelude.{
  holds_on, holds_on-each, not, ◌*◌, ◌≡◌, refl, Bool, true, false, [], ◌∷◌, some, arith,
}
use zambesii.Prelude.Result.{ok, fault, wild_access, value}
use zambesii.Bits.{kbit_test, kbit_set, set_bit}
use zambesii.Bits.Arrays.{is_set}
use zambesii.MemoryBmp.{page_size, set_frame, set_frames}
use zambesii.MemoryBmp.Fragmented.{
  fragmented_get_frames, find_run, find_clear, scan_words, scan_word, bit_limit,
}
use zambesii.MemoryBmp.Fragmented.Runs.{ShortTail}
use zambesii.MemoryBmp.Fragmented.Allocation.{Allocates, fragmented_get_frames-Allocates}
use zambesii.MemoryBmp.Samples.{frames, some_used, two_left, some_used-IsValid}

takes_a_run :
    fragmented_get_frames some_used true 3
    ≡ ok (value 3, some (20 * page_size), frames (0x47f ∷ 0 ∷ []))
unfolding fragmented_get_frames find_run find_clear scan_words scan_word bit_limit set_frames
    set_frame set_bit kbit_set kbit_test
takes_a_run = refl

takes_part_of_it :
    fragmented_get_frames some_used true 30
    ≡ ok (value 6, some (20 * page_size), frames (0x7ff ∷ 0 ∷ []))
unfolding fragmented_get_frames find_run find_clear scan_words scan_word bit_limit set_frames
    set_frame set_bit kbit_set kbit_test
takes_part_of_it = refl

runs_past_the_end : fragmented_get_frames two_left true 3 ≡ fault wild_access
unfolding fragmented_get_frames find_run find_clear scan_words scan_word bit_limit kbit_test
runs_past_the_end = refl

fragmented_get_frames-Allocates_example :
    Allocates some_used 3 (fragmented_get_frames some_used true 3)
fragmented_get_frames-Allocates_example =
    fragmented_get_frames-Allocates some_used-IsValid 3 (omega arith)

before_table : holds_on 0 38 (is_set two_left.bmp) ≡ true
unfolding kbit_test
before_table = refl

after_table : holds_on 38 2 (λ y. not (is_set two_left.bmp y)) ≡ true
unfolding kbit_test
after_table = refl

clear_of_not : {b : Bool} → not b ≡ true → b ≡ false
clear_of_not h = ground arith

two_left-ShortTail : ShortTail two_left 3 0 true
unfolding bit_limit
two_left-ShortTail = record {
  bit = 38;
  after = omega arith;
  inside = omega arith;
  before = λ x lo hi. holds_on-each 38 0 (is_set two_left.bmp) x before_table lo hi;
  free = λ x lo hi.
      clear_of_not (holds_on-each 2 38 (λ y. not (is_set two_left.bmp y)) x after_table lo hi);
  short = omega arith;
  left = refl;
}
