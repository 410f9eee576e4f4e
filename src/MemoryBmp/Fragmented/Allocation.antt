-- ===== src/MemoryBmp/Fragmented/Allocation.antt =====
-- What `MemoryBmp::fragmentedGetFrames` allocates, and how it fails.
use zambesii.Prelude.{
  ℕ, ◌+◌, ◌-◌, ◌*◌, ◌/◌, ◌%◌, ◌^◌, ◌≤◌, ◌<◌, ◌≡◌, refl, ◌⊎◌, inl, inr, Bool, true, false, Option,
  none, some, arith, ltb, leb, ◌==◌, if◌then◌else◌, drop, dec_lt, ◌&&◌,
}
use zambesii.Prelude.Result.{
  Result, ok, fault, panic, no_rounds, wild_access, memory_nomem_physical, Status, value, failed,
  ◌>>=◌,
}
use zambesii.Bits.{word_bits}
use zambesii.Bits.Arrays.{is_set}
use zambesii.MemoryBmp.{MemoryBmp, page_size, set_frames}
use zambesii.MemoryBmp.Frames.{IsValid, InRange, used, set_frames-Marks}
use zambesii.MemoryBmp.Fragmented.{find_run, fragmented_get_frames}
use zambesii.MemoryBmp.Fragmented.Runs.{Full, ShortTail, FirstRun, RunFound, find_run-RunFound}

-- The bit that the search starts at.
abbrev pub search_bit : MemoryBmp → ℕ
search_bit m = word_bits * m.last_alloc_index

-- `m'` is `m` with its first run of free frames after `search_bit`, cut at `n`, marked used.
pub record Taken (m : MemoryBmp) (n start found : ℕ) (m' : MemoryBmp) : Type 0 where
  pub run : FirstRun m n (search_bit m) start found
  pub valid : IsValid m'
  pub base_pfn : m'.base_pfn ≡ m.base_pfn
  pub end_pfn : m'.end_pfn ≡ m.end_pfn
  pub frames :
      (q : ℕ)
      → InRange m q
      → used m' q ≡ (if leb start q && ltb q (start + found) then true else used m q)
  pub next_search : m'.last_alloc_index ≡ (start + found - m.base_pfn) / word_bits

abbrev pub Allocates : MemoryBmp → ℕ → Result (Status × Option ℕ × MemoryBmp) → Type 0
Allocates m n (ok (value found, some paddr, m')) =
    (start : ℕ) × (paddr ≡ start * page_size) × Taken m n start found m'
Allocates m n (ok (failed e, none, m')) =
    (e ≡ memory_nomem_physical)
    × (m' ≡ m)
    × (Full m.bmp (search_bit m) m.n_frames ⊎ ShortTail m n (search_bit m) false)
Allocates m n (fault wild_access) = ShortTail m n (search_bit m) true
Allocates m n _ = ⊥

module _ {m : MemoryBmp} (v : IsValid m) (n : ℕ) (pos : 0 < n) where
  take_it :
      (r : Result (Option (ℕ × ℕ)))
      → RunFound m n (search_bit m) r
      → Allocates m n (
          r >>= λ run. elim run [
            | none ↦ ok (failed memory_nomem_physical, none, m)
            | some (start, found) ↦ set_frames m start found >>= λ m'. ok (
              value found,
              some (start * page_size % 2 ^ 32),
              record m' { last_alloc_index = (start + found - m.base_pfn) / word_bits },
            )
          ])
  take_it (ok none) h = (refl, refl, h)
  take_it (ok (some (start, found))) h =
      let (m', e, k) = set_frames-Marks found m start v (omega (arith, h.above)) (λ _. h.inside) in
      rw e (
        start,
        omega (arith, h.inside, h.some_frames, v.pfns),
        record {
          run = h;
          valid = ground (arith, k.valid);
          base_pfn = k.shape.base_pfn;
          end_pfn = k.shape.end_pfn;
          frames = k.frames;
          next_search = refl;
        },
      )
  take_it (fault wild_access) h = h
  take_it (fault panic) h = h
  take_it (fault no_rounds) h = h

  -- `fragmentedGetFrames` of a positive number `n` of frames of a valid bitmap never panics, and
  -- searches from the bit that the last allocation or release left. If the first run of free frames
  -- that it meets has `n` frames or ends before the last frame of the bitmap, the code takes at
  -- most `n` frames of it, returns their number and the address of the first, marks them used,
  -- changes no other frame, and keeps the bitmap valid. If it meets no free frame, it returns
  -- `ERROR_MEMORY_NOMEM_PHYSICAL` and changes nothing. If the run is shorter than `n` and ends with
  -- the last frame of the bitmap, the code takes nothing of it: it reads past the end of the array
  -- where the run does not start in the last bit looked at in its word, else it returns that error.
  pub fragmented_get_frames-Allocates : Allocates m n (fragmented_get_frames m true n)
  unfolding fragmented_get_frames
  fragmented_get_frames-Allocates =
      let e : (n == 0) ≡ false = ground arith in
      rw e (
        take_it (find_run m _ m.last_alloc_index n) (
          find_run-RunFound v n (search_bit m) pos (drop m.last_alloc_index m.bmp)
            m.last_alloc_index refl (omega arith) (λ x p q. absurd (omega arith))))

  first_clear_unique :
      (a b : ℕ)
      → search_bit m ≤ a
      → search_bit m ≤ b
      → Full m.bmp (search_bit m) a
      → is_set m.bmp a ≡ false
      → Full m.bmp (search_bit m) b
      → is_set m.bmp b ≡ false
      → a ≡ b
  first_clear_unique a b la lb fa ca fb cb = elim (dec_lt a b) [
    | yes below ↦ cc (ca, fb a la below)
    | no above ↦ elim (dec_lt b a) [ yes below ↦ cc (cb, fa b lb below) | no same ↦ omega arith ]
  ]

  run_leaves_tail :
      {over : Bool} {start found : ℕ}
      → ShortTail m n (search_bit m) over
      → ¬ FirstRun m n (search_bit m) start found
  run_leaves_tail {start} {found} t r =
      let same : start - m.base_pfn ≡ t.bit =
        first_clear_unique _ _ (omega (arith, r.above)) t.after r.before
          (r.free _ (omega arith) (omega (arith, r.some_frames))) t.before
          (t.free _ (omega arith) (omega (arith, t.inside))) in
      elim r.whole [
        | inl full ↦ absurd (omega (arith, r.inside, r.above, t.short, t.inside, v.counted))
        | inr (lt, set) ↦ cc (
          set,
          t.free (start + found - m.base_pfn) (omega (arith, r.above))
              (omega (arith, r.above, t.inside, v.counted)),
        )
      ]

  only_wild :
      (r : Result (Status × Option ℕ × MemoryBmp))
      → ShortTail m n (search_bit m) true
      → Allocates m n r
      → r ≡ fault wild_access
  only_wild (ok (value found, some paddr, m')) t (start, _, k) = absurd (run_leaves_tail t k.run)
  only_wild (ok (value found, none, m')) t h = absurd h
  only_wild (ok (failed e, some paddr, m')) t h = absurd h
  only_wild (ok (failed e, none, m')) t (_, _, inl full) =
      cc (full t.bit t.after t.inside, t.free t.bit (omega arith) (omega (arith, t.inside)))
  only_wild (ok (failed e, none, m')) t (_, _, inr u) =
      let same : u.bit ≡ t.bit =
        first_clear_unique _ _ u.after t.after u.before
          (u.free _ (omega arith) (omega (arith, u.inside))) t.before
          (t.free _ (omega arith) (omega (arith, t.inside))) in
      cc (u.left, t.left, same)
  only_wild (fault wild_access) t h = refl
  only_wild (fault panic) t h = absurd h
  only_wild (fault no_rounds) t h = absurd h

  -- If the first free frames from the search position on are the last frames of a valid bitmap,
  -- fewer than `n`, and the run does not start in the last bit looked at in its word,
  -- `fragmentedGetFrames` of `n` frames reads past the end of the array.
  fragmented_get_frames_past_end :
      ShortTail m n (search_bit m) true → fragmented_get_frames m true n ≡ fault wild_access
  fragmented_get_frames_past_end t = only_wild _ t fragmented_get_frames-Allocates
