-- ===== src/MemoryBmp/Samples.antt =====
-- Bitmaps of 40 frames from frame 16 on, in two words, for the tests.
use zambesii.Prelude.{ℕ, ◌*◌, ◌-◌, false, List, [], ◌∷◌, arith}
use zambesii.MemoryBmp.{MemoryBmp, page_size}
use zambesii.MemoryBmp.Frames.{IsValid}

abbrev pub frames : List ℕ → MemoryBmp
frames words = record {
  base_addr = 16 * page_size;
  end_addr = 56 * page_size - 1;
  base_pfn = 16;
  end_pfn = 55;
  n_frames = 40;
  n_indexes = 2;
  bmp_size = 8;
  dynamic = false;
  bmp = words;
  last_alloc_index = 0;
}

-- Frames 16 to 19 and 26 are used.
abbrev pub some_used : MemoryBmp
some_used = frames (0x40f ∷ 0 ∷ [])

-- Frames 54 and 55 are free.
abbrev pub two_left : MemoryBmp
two_left = frames (0xffff_ffff ∷ 0x3f ∷ [])

pub some_used-IsValid : IsValid some_used
some_used-IsValid = ground arith

pub two_left-IsValid : IsValid two_left
two_left-IsValid = ground arith
