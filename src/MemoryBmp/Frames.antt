-- ===== src/MemoryBmp/Frames.antt =====
-- The invariant of `MemoryBmp`, and what setting and clearing runs of frames does to each frame.
use zambesii.Prelude.{
  ℕ, zero, suc, ◌+◌, ◌-◌, ◌*◌, ◌/◌, ◌^◌, ◌≤◌, ◌<◌, ◌≡◌, refl, Bool, true, false, ◌&&◌, arith, ltb,
  leb, if◌then◌else◌, length,
}
use zambesii.Prelude.Result.{Result, ok}
use zambesii.Bits.{word_bits, nelements}
use zambesii.Bits.Arrays.{
  is_set, with_set, with_unset, bit_is_set-is_set, set_bit-with_set, unset_bit-with_unset,
  is_set-with_set, is_set-with_unset, length-with_set, length-with_unset,
}
use zambesii.MemoryBmp.{
  MemoryBmp, page_size, set_frame, unset_frame, test_frame, set_frames, unset_frames,
}

-- The frame numbers are those of the addresses, the array has a bit for each frame, and the addresses have 32 bits.
pub record IsValid (m : MemoryBmp) : Type 0 where
  pub ordered : m.base_pfn ≤ m.end_pfn
  pub pfns : m.end_pfn < 2 ^ 20
  pub start : m.base_pfn ≡ m.base_addr / page_size
  pub last : m.end_pfn ≡ m.end_addr / page_size
  pub counted : m.end_pfn + 1 ≡ m.base_pfn + m.n_frames
  pub indexed : m.n_indexes ≡ nelements m.n_frames word_bits
  pub sized : length m.bmp ≡ m.n_indexes

abbrev pub InRange : MemoryBmp → ℕ → Type 0
InRange m pfn = (m.base_pfn ≤ pfn) × (pfn ≤ m.end_pfn)

-- Whether frame `pfn` is marked used.
abbrev pub used : MemoryBmp → ℕ → Bool
used m pfn = is_set m.bmp (pfn - m.base_pfn)

-- The part of the state that marking frames leaves alone.
pub record SameShape (m m' : MemoryBmp) : Type 0 where
  pub base_addr : m'.base_addr ≡ m.base_addr
  pub end_addr : m'.end_addr ≡ m.end_addr
  pub base_pfn : m'.base_pfn ≡ m.base_pfn
  pub end_pfn : m'.end_pfn ≡ m.end_pfn
  pub n_frames : m'.n_frames ≡ m.n_frames
  pub n_indexes : m'.n_indexes ≡ m.n_indexes
  pub bmp_size : m'.bmp_size ≡ m.bmp_size
  pub dynamic : m'.dynamic ≡ m.dynamic
  pub last_alloc_index : m'.last_alloc_index ≡ m.last_alloc_index

pub SameShape-refl : (m : MemoryBmp) → SameShape m m
SameShape-refl m = ground arith

pub SameShape-trans : {m n p : MemoryBmp} → SameShape m n → SameShape n p → SameShape m p
SameShape-trans h k = ground arith

pub bit_in_array :
    {m : MemoryBmp} (pfn : ℕ)
    → IsValid m
    → InRange m pfn
    → pfn - m.base_pfn < word_bits * length m.bmp
bit_in_array pfn v r = ground arith

-- `m'` is `m` with the `n` frames from `pfn` on marked by `mark`, and no other frame changed.
pub record Marked (mark : Bool) (m : MemoryBmp) (pfn n : ℕ) (m' : MemoryBmp) : Type 0 where
  pub valid : IsValid m'
  pub shape : SameShape m m'
  pub frames :
      (q : ℕ) → InRange m q → used m' q ≡ (if leb pfn q && ltb q (pfn + n) then mark else used m q)

abbrev pub Marks : Bool → MemoryBmp → ℕ → ℕ → Result MemoryBmp → Type 0
Marks mark m pfn n r = (m' : MemoryBmp) × (r ≡ ok m') × Marked mark m pfn n m'

module _ (m : MemoryBmp) (pfn : ℕ) (v : IsValid m) (r : InRange m pfn) where
  pub set_frame-Marks : Marks true m pfn 1 (set_frame m pfn)
  unfolding set_frame
  set_frame-Marks = (
    record m { bmp = with_set m.bmp (pfn - m.base_pfn) },
    ground (arith, set_bit-with_set m.bmp (pfn - m.base_pfn) (bit_in_array pfn v r)),
    record {
      valid = ground (arith, length-with_set m.bmp (pfn - m.base_pfn));
      shape = ground arith;
      frames = λ q h.
          ground (
            arith,
            is_set-with_set m.bmp (pfn - m.base_pfn) (bit_in_array pfn v r) (q - m.base_pfn),
          );
    },
  )

  pub unset_frame-Marks : Marks false m pfn 1 (unset_frame m pfn)
  unfolding unset_frame
  unset_frame-Marks = (
    record m { bmp = with_unset m.bmp (pfn - m.base_pfn) },
    ground (arith, unset_bit-with_unset m.bmp (pfn - m.base_pfn) (bit_in_array pfn v r)),
    record {
      valid = ground (arith, length-with_unset m.bmp (pfn - m.base_pfn));
      shape = ground arith;
      frames = λ q h. ground (
        arith,
        is_set-with_unset m.bmp (pfn - m.base_pfn) (bit_in_array pfn v r) (q - m.base_pfn),
      );
    },
  )

  pub test_frame-used : test_frame m pfn ≡ ok (used m pfn)
  unfolding test_frame
  test_frame-used =
      ground (arith, bit_is_set-is_set m.bmp (pfn - m.base_pfn) (bit_in_array pfn v r))

Marked-nil : (mark : Bool) (m : MemoryBmp) (pfn : ℕ) → IsValid m → Marked mark m pfn 0 m
Marked-nil mark m pfn v = record {
  valid = v;
  shape = SameShape-refl m;
  frames = λ q h. ground arith;
}

pub InRange-shape : {m m' : MemoryBmp} (q : ℕ) → SameShape m m' → InRange m q → InRange m' q
InRange-shape q s h = ground arith

Marked-cons :
    {mark : Bool} {m n p : MemoryBmp} {pfn rounds : ℕ}
    → Marked mark m pfn 1 n
    → Marked mark n (pfn + 1) rounds p
    → Marked mark m pfn (suc rounds) p
Marked-cons {m} {n} {p} {pfn} {rounds} h k = record {
  valid = k.valid;
  shape = SameShape-trans h.shape k.shape;
  frames = λ q r. ground (arith, h.frames q r, k.frames q (InRange-shape q h.shape r));
}

pub set_frames-Marks :
    (rounds : ℕ) (m : MemoryBmp) (pfn : ℕ)
    → IsValid m
    → m.base_pfn ≤ pfn
    → (0 < rounds → pfn + rounds ≤ m.end_pfn + 1)
    → Marks true m pfn rounds (set_frames m pfn rounds)
unfolding set_frames
set_frames-Marks zero m pfn v lo hi = (m, refl, Marked-nil true m pfn v)
set_frames-Marks (suc rounds) m pfn v lo hi =
    let top : pfn + suc rounds ≤ m.end_pfn + 1 = hi (omega arith) in
    let (n, first, h) = set_frame-Marks m pfn v (omega arith) in
    let (p, rest, k) =
      set_frames-Marks rounds n (pfn + 1) h.valid (omega (arith, h.shape.base_pfn))
        (λ _. omega (arith, h.shape.end_pfn)) in
    (p, rw (first) rest, Marked-cons h k)

pub unset_frames-Marks :
    (rounds : ℕ) (m : MemoryBmp) (pfn : ℕ)
    → IsValid m
    → m.base_pfn ≤ pfn
    → (0 < rounds → pfn + rounds ≤ m.end_pfn + 1)
    → Marks false m pfn rounds (unset_frames m pfn rounds)
unfolding unset_frames
unset_frames-Marks zero m pfn v lo hi = (m, refl, Marked-nil false m pfn v)
unset_frames-Marks (suc rounds) m pfn v lo hi =
    let top : pfn + suc rounds ≤ m.end_pfn + 1 = hi (omega arith) in
    let (n, first, h) = unset_frame-Marks m pfn v (omega arith) in
    let (p, rest, k) =
      unset_frames-Marks rounds n (pfn + 1) h.valid (omega (arith, h.shape.base_pfn))
        (λ _. omega (arith, h.shape.end_pfn)) in
    (p, rw (first) rest, Marked-cons h k)
