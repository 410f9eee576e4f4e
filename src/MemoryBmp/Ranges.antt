-- ===== src/MemoryBmp/Ranges.antt =====
-- `mapMemUsed`, `mapMemUnused` and `releaseFrames` of __kcore/__kclasses/memBmp.cpp, frame by frame.
use zambesii.Prelude.{
  ℕ, zero, suc, ◌+◌, ◌-◌, ◌/◌, ◌^◌, ◌≤◌, ◌<◌, ◌≡◌, Bool, true, false, ◌&&◌, arith, ltb, leb,
  if◌then◌else◌, add_uarch, sub_uarch,
}
use zambesii.Prelude.Result.{ok, fault, panic, ◌>>=◌}
use zambesii.Bits.{word_bits}
use zambesii.MemoryBmp.{
  MemoryBmp, page_size, unset_frames, unset_frame, clamp_start, clamp_end, map_mem_used,
  map_mem_unused, release_frames,
}
use zambesii.MemoryBmp.Frames.{
  IsValid, InRange, used, Marked, Marks, set_frames-Marks, unset_frames-Marks,
}

module _ (m : MemoryBmp) (range_base n : ℕ) (v : IsValid m)
    (fits : range_base / page_size + n < 2 ^ 32) where
  abbrev start : ℕ
  start = clamp_start m range_base

  abbrev rounds : ℕ
  rounds = clamp_end m range_base n - clamp_start m range_base

  start_in : m.base_pfn ≤ start
  unfolding clamp_start
  start_in = ground (arith, v.start)

  rounds_in : 0 < rounds → start + rounds ≤ m.end_pfn + 1
  unfolding clamp_end
  rounds_in h = ground arith

  -- The clamped range holds the frames of the bitmap that the range asked for holds.
  Marked-clamped :
      (mark : Bool) {m' : MemoryBmp}
      → Marked mark m start rounds m'
      → Marked mark m (range_base / page_size) n m'
  unfolding clamp_start clamp_end
  Marked-clamped mark h = record {
    valid = h.valid;
    shape = h.shape;
    frames = λ q r. ground (arith, h.frames q r, v.start);
  }

  -- In a valid bitmap, for a range whose first frame number and number of frames add up to less
  -- than 2 ^ 32, so that its end does not wrap, `mapMemUsed` never panics: it marks used the frames
  -- of the range that the bitmap covers, changes no other frame, and keeps the bitmap valid.
  pub map_mem_used-Marks : Marks true m (range_base / page_size) n (map_mem_used m range_base n)
  unfolding map_mem_used
  map_mem_used-Marks =
      let (m', e, h) = set_frames-Marks rounds m start v start_in rounds_in in
      (m', e, Marked-clamped true h)

  -- In a valid bitmap, for a range whose first frame number and number of frames add up to less
  -- than 2 ^ 32, `mapMemUnused` never panics: it marks free the frames of the range that the bitmap
  -- covers, changes no other frame, and keeps the bitmap valid.
  map_mem_unused-Marks : Marks false m (range_base / page_size) n (map_mem_unused m range_base n)
  unfolding map_mem_unused
  map_mem_unused-Marks =
      let (m', e, h) = unset_frames-Marks rounds m start v start_in rounds_in in
      (m', e, Marked-clamped false h)

-- The bitmap after a release of the `n` frames from `pfn` on.
pub record Released (m : MemoryBmp) (pfn n : ℕ) (m' : MemoryBmp) : Type 0 where
  pub valid : IsValid m'
  pub base_pfn : m'.base_pfn ≡ m.base_pfn
  pub end_pfn : m'.end_pfn ≡ m.end_pfn
  pub frames :
      (q : ℕ) → InRange m q → used m' q ≡ (if leb pfn q && ltb q (pfn + n) then false else used m q)
  pub next_search : m'.last_alloc_index ≡ (pfn - m.base_pfn) / word_bits

module _ (m : MemoryBmp) (frame_addr n : ℕ) (v : IsValid m) where
  -- A request that passes the test comes down to clearing the frames.
  past_test :
      0 < n
      → frame_addr / page_size + n ≤ m.end_pfn
      → release_frames m frame_addr n ≡ (
          unset_frames m (frame_addr / page_size) n >>= λ m'. ok (
            true,
            record m' {
              last_alloc_index = sub_uarch (frame_addr / page_size) m.base_pfn / word_bits;
            },
          ))
  unfolding release_frames
  past_test pos hi =
      let fits : add_uarch (frame_addr / page_size) n ≡ frame_addr / page_size + n =
        omega (arith, v.pfns) in
      let whole : add_uarch (frame_addr / page_size) n - frame_addr / page_size ≡ n =
        omega (arith, fits) in
      rw (whole) (ground (arith, fits))

  -- `releaseFrames` of frames of a valid bitmap, the last frame of the bitmap not among them,
  -- returns 1, frees exactly those frames, keeps the bitmap valid, and makes the next search start
  -- at their word.
  pub release_frames-Released :
      0 < n
      → m.base_pfn ≤ frame_addr / page_size
      → frame_addr / page_size + n ≤ m.end_pfn
      → (m' : MemoryBmp) × (release_frames m frame_addr n ≡ ok (true, m'))
        × Released m (frame_addr / page_size) n m'
  release_frames-Released pos lo hi =
      let start : ℕ = frame_addr / page_size in
      let (m', e, h) = unset_frames-Marks n m start v lo (λ _. omega arith) in
      (
        record m' { last_alloc_index = sub_uarch start m.base_pfn / word_bits },
        ground (arith, past_test pos hi, e),
        record {
          valid = ground (arith, h.valid);
          base_pfn = h.shape.base_pfn;
          end_pfn = h.shape.end_pfn;
          frames = h.frames;
          next_search = omega (arith, v.pfns, v.ordered);
        },
      )

  -- `releaseFrames` of a range that ends with the last frame of a valid bitmap returns 0 and
  -- changes nothing, unless the address itself is no greater than the number of the last frame.
  release_frames_last :
      m.end_pfn < frame_addr
      → frame_addr / page_size + n ≡ m.end_pfn + 1
      → release_frames m frame_addr n ≡ ok (false, m)
  unfolding release_frames
  release_frames_last far last = ground (arith, v.pfns)

  unset_frames_below :
      (rounds : ℕ)
      → 0 < rounds
      → frame_addr / page_size < m.base_pfn
      → unset_frames m (frame_addr / page_size) rounds ≡ fault panic
  unfolding unset_frames unset_frame
  unset_frames_below zero pos low = absurd (omega arith)
  unset_frames_below (suc rounds) pos low = ground arith

  -- `releaseFrames` of a range that starts below a valid bitmap and ends before its last frame
  -- panics.
  release_frames_below :
      0 < n
      → frame_addr / page_size < m.base_pfn
      → frame_addr / page_size + n ≤ m.end_pfn
      → release_frames m frame_addr n ≡ fault panic
  release_frames_below pos low hi = rw (past_test pos hi) (ground (arith, unset_frames_below n pos))
