-- ===== src/MemoryBmp/Tests.antt =====
-- Bitmaps of 40 frames from frame 16 on, in two words.
use zambesii.Prelude.{◌*◌, ◌/◌, ◌≡◌, refl, true, [], ◌∷◌, arith}
use zambesii.Prelude.Result.{ok, success}
use zambesii.Bits.{kbit_test, kbit_set, set_bit, bit_is_set}
use zambesii.MemoryBmp.{
  MemoryBmp, page_size, new, initialize, preallocated, set_frame, test_frame, merge_frames, merge,
  map_mem_used, release_frames,
}
use zambesii.MemoryBmp.Frames.{Marks}
use zambesii.MemoryBmp.Ranges.{Released, map_mem_used-Marks, release_frames-Released}
use zambesii.MemoryBmp.Merge.{Merges, merge-Merges}
use zambesii.MemoryBmp.Init.{Ready, initialize-Ready}
use zambesii.MemoryBmp.Samples.{frames, some_used, two_left, some_used-IsValid, two_left-IsValid}

map_mem_used-Marks_example :
    Marks true some_used
      ((10 * page_size) / page_size)
      20
      (map_mem_used some_used (10 * page_size) 20)
map_mem_used-Marks_example =
    map_mem_used-Marks some_used (10 * page_size) 20 some_used-IsValid (omega arith)

release_frames-Released_example :
    (m' : MemoryBmp) × (release_frames some_used (17 * page_size) 2 ≡ ok (true, m'))
    × Released some_used ((17 * page_size) / page_size) 2 m'
release_frames-Released_example =
    release_frames-Released some_used (17 * page_size) 2 some_used-IsValid (omega arith)
      (omega arith) (omega arith)

-- The last frame that both cover is used in the second, and stays free in the first.
merge_skips_last : merge some_used (frames (0x1 ∷ 0x80 ∷ [])) ≡ ok (1, some_used)
unfolding merge merge_frames test_frame set_frame bit_is_set set_bit kbit_test kbit_set
merge_skips_last = refl

merge-Merges_example : Merges some_used two_left 16 39 0 (merge some_used two_left)
merge-Merges_example = merge-Merges some_used two_left some_used-IsValid two_left-IsValid

initialize-Ready_example :
    (m' : MemoryBmp) × (initialize (new 0x1800 0x8000) preallocated ≡ ok (success, m'))
    × Ready 0x1800 0x8000 (omega arith) (omega arith) m'
initialize-Ready_example =
    initialize-Ready 0x1800 0x8000 (omega arith) (omega arith) preallocated (λ e. cc e)
