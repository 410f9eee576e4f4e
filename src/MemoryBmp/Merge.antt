-- ===== src/MemoryBmp/Merge.antt =====
-- `MemoryBmp::merge` of __kcore/__kclasses/memBmp.cpp.
use zambesii.Prelude.{
  ℕ, zero, suc, ◌+◌, ◌-◌, ◌≤◌, ◌<◌, ◌≡◌, ap, true, false, ◌&&◌, ◌||◌, arith, ltb, leb,
  if◌then◌else◌, Bool-cases, inl, inr, min, max,
}
use zambesii.Prelude.Result.{Result, ok}
use zambesii.MemoryBmp.{MemoryBmp, merge_frames, merge}
use zambesii.MemoryBmp.Frames.{
  IsValid, InRange, used, SameShape, SameShape-refl, SameShape-trans, InRange-shape,
  set_frame-Marks, test_frame-used,
}

-- The used frames among the `n` from `pfn` on.
pub count_used : MemoryBmp → ℕ → ℕ → ℕ
count_used b pfn zero = 0
count_used b pfn (suc n) = (if used b pfn then 1 else 0) + count_used b (pfn + 1) n

-- `m'` is `m` with each of the `n` frames from `pfn` on that is used in `b` marked used.
pub record Merged (m b : MemoryBmp) (pfn n : ℕ) (m' : MemoryBmp) : Type 0 where
  pub valid : IsValid m'
  pub shape : SameShape m m'
  pub frames :
      (q : ℕ)
      → InRange m q
      → used m' q ≡ (if leb pfn q && ltb q (pfn + n) && used b q then true else used m q)

abbrev pub Merges : MemoryBmp → MemoryBmp → ℕ → ℕ → ℕ → Result (ℕ × MemoryBmp) → Type 0
Merges m b pfn n before r =
    (m' : MemoryBmp) × (r ≡ ok (before + count_used b pfn n, m')) × Merged m b pfn n m'

merge_frames-Merges :
    (rounds : ℕ) (m b : MemoryBmp) (pfn ret : ℕ)
    → IsValid m
    → IsValid b
    → m.base_pfn ≤ pfn
    → b.base_pfn ≤ pfn
    → (0 < rounds → pfn + rounds ≤ m.end_pfn + 1)
    → (0 < rounds → pfn + rounds ≤ b.end_pfn + 1)
    → Merges m b pfn rounds ret (merge_frames m b pfn rounds ret)
unfolding merge_frames count_used
merge_frames-Merges zero m b pfn ret v w lo lo' hi hi' = (
  m,
  ap (λ n. ok (n, m)) (omega arith),
  record { valid = v; shape = SameShape-refl m; frames = λ q r. ground arith },
)
merge_frames-Merges (suc rounds) m b pfn ret v w lo lo' hi hi' =
    let top : pfn + suc rounds ≤ m.end_pfn + 1 = hi (omega arith) in
    let top' : pfn + suc rounds ≤ b.end_pfn + 1 = hi' (omega arith) in
    let tested = test_frame-used b pfn w (omega arith) in
    elim (Bool-cases (used b pfn)) [
      | inl u ↦
          let (n, first, h) = set_frame-Marks m pfn v (omega arith) in
          let (p, rest, k) =
            merge_frames-Merges rounds n b (pfn + 1) (ret + 1) h.valid w
              (omega (arith, h.shape.base_pfn)) (omega arith) (λ _. omega (arith, h.shape.end_pfn))
              (λ _. omega arith) in
          (
            p,
            ground (arith, tested, first, rest),
            record {
              valid = k.valid;
              shape = SameShape-trans h.shape k.shape;
              frames = λ q r. ground (arith, h.frames q r, k.frames q (InRange-shape q h.shape r));
            },
          )
      | inr u ↦
          let (p, rest, k) =
            merge_frames-Merges rounds m b (pfn + 1) ret v w (omega arith) (omega arith)
              (λ _. omega arith) (λ _. omega arith) in
          (
            p,
            ground (arith, tested, rest),
            record {
              valid = k.valid;
              shape = k.shape;
              frames = λ q r. ground (arith, k.frames q r);
            },
          )
    ]

module _ (m b : MemoryBmp) (v : IsValid m) (w : IsValid b) where
  abbrev pub first_shared : ℕ
  first_shared = max m.base_pfn b.base_pfn

  abbrev pub n_shared : ℕ
  n_shared = min m.end_pfn b.end_pfn - max m.base_pfn b.base_pfn

  none_shared : ltb m.end_pfn b.base_pfn || ltb b.end_pfn m.base_pfn ≡ true → n_shared ≡ 0
  none_shared h = ground arith

  merge_overlapping :
      ltb m.end_pfn b.base_pfn || ltb b.end_pfn m.base_pfn ≡ false
      → merge m b ≡ merge_frames m b first_shared n_shared 0
  unfolding merge
  merge_overlapping h =
      let s : (if ltb b.base_pfn m.base_pfn then m.base_pfn else b.base_pfn) ≡ first_shared =
        ground arith in
      let e : (if ltb m.end_pfn b.end_pfn then m.end_pfn else b.end_pfn) ≡ min m.end_pfn b.end_pfn =
        ground arith in
      rw (h, s, e)

  -- `merge` of two valid bitmaps never panics. Over the frames that both cover, but for the last
  -- such frame, it marks used in the first what is used in the second; it changes no other frame,
  -- keeps the first bitmap valid, and returns how many of those frames are used in the second.
  pub merge-Merges : Merges m b first_shared n_shared 0 (merge m b)
  unfolding merge merge_frames
  merge-Merges = elim (Bool-cases (ltb m.end_pfn b.base_pfn || ltb b.end_pfn m.base_pfn)) [
    | inl apart ↦
        rw (apart, none_shared apart)
          (merge_frames-Merges 0 m b first_shared 0 v w (omega arith) (omega arith)
            (λ h. absurd (omega arith)) (λ h. absurd (omega arith)))
    | inr meet ↦ rw (merge_overlapping meet) (
        merge_frames-Merges n_shared m b first_shared 0 v w (omega arith) (omega arith)
          (λ h. omega arith) (λ h. omega arith))
  ]
