-- ===== src/MemoryBmp/Init.antt =====
-- The constructor and `initialize` of `MemoryBmp`, __kcore/__kclasses/memBmp.cpp.
use zambesii.Prelude.{
  ℕ, ◌+◌, ◌-◌, ◌/◌, ◌%◌, ◌^◌, ◌≤◌, ◌<◌, ◌≡◌, ◌≢◌, refl, Bool, true, false, not, ◌&&◌, ◌||◌, arith,
  ◌==◌, if◌then◌else◌, replicate, length-replicate, Bool-cases, inl, inr,
}
use zambesii.Prelude.Result.{ok, success}
use zambesii.Bits.Arrays.{is_set-replicate}
use zambesii.MemoryBmp.{
  MemoryBmp, page_size, new, mark_edges, set_frame, initialize, Storage, preallocated, allocated,
  out_of_memory,
}
use zambesii.MemoryBmp.Frames.{
  IsValid, InRange, used, SameShape, set_frame-Marks, SameShape-trans, SameShape-refl,
  InRange-shape,
}

-- A frame that `initialize` keeps from being handed out.
abbrev pub is_edge : MemoryBmp → ℕ → Bool
is_edge m q =
    (not (m.base_addr % page_size == 0) && (q == m.base_pfn))
    || ((m.end_addr % page_size == 0) && (q == m.end_pfn))

-- A valid bitmap in which the edges alone are used.
pub record Initialized (m m' : MemoryBmp) : Type 0 where
  pub valid : IsValid m'
  pub shape : SameShape m m'
  pub edges : (q : ℕ) → InRange m q → used m' q ≡ (is_edge m q || used m q)

mark_base :
    (m : MemoryBmp)
    → IsValid m
    → (m' : MemoryBmp) × ((if m.base_addr % page_size == 0 then ok m else set_frame m m.base_pfn)
        ≡ ok m')
      × IsValid m'
      × SameShape m m'
      × ((q : ℕ)
          → InRange m q
          → used m' q
            ≡ (if not (m.base_addr % page_size == 0) && (q == m.base_pfn) then true else used m q))
mark_base m v = elim (Bool-cases (m.base_addr % page_size == 0)) [
  | inl a ↦ (m, rw a, v, SameShape-refl m, λ q r. rw a)
  | inr a ↦
      let (m', e, h) = set_frame-Marks m m.base_pfn v (omega arith) in
      (m', rw a e, h.valid, h.shape, λ q r. rw a (ground (arith, h.frames q r)))
]

mark_edges-Initialized :
    (m : MemoryBmp) → IsValid m → (m' : MemoryBmp) × (mark_edges m ≡ ok m') × Initialized m m'
unfolding mark_edges
mark_edges-Initialized m v =
    let (n, first, w, s, f) = mark_base m v in
    elim (Bool-cases (m.end_addr % page_size == 0)) [
      | inl a ↦
          let (p, last, h) = set_frame-Marks n m.end_pfn w (omega arith) in
          (
            p,
            rw (first) (rw a last),
            record {
              valid = h.valid;
              shape = SameShape-trans s h.shape;
              edges = λ q r. ground (arith, f q r, h.frames q (InRange-shape q s r));
            },
          )
      | inr a ↦ (
        n,
        rw (first) (rw a),
        record { valid = w; shape = s; edges = λ q r. ground (arith, f q r) },
      )
    ]

module _ (base_addr size : ℕ) (pos : 0 < size) (fits : base_addr + size ≤ 2 ^ 32) where
  abbrev blank : Bool → MemoryBmp
  blank d = record (new base_addr size) {
    dynamic = d;
    bmp = replicate (new base_addr size).n_indexes 0;
  }

  -- What `initialize` makes of a new bitmap: the bitmap of the pages of `[base_addr, base_addr +
  -- size)`, with the edges used and every other frame free.
  pub record Ready (m' : MemoryBmp) : Type 0 where
    pub valid : IsValid m'
    pub first_frame : m'.base_pfn ≡ base_addr / page_size
    pub last_frame : m'.end_pfn ≡ (base_addr + size - 1) / page_size
    pub search_from : m'.last_alloc_index ≡ 0
    pub edges : (q : ℕ) → InRange m' q → used m' q ≡ is_edge (new base_addr size) q

  blank-IsValid : (d : Bool) → IsValid (blank d)
  unfolding new
  blank-IsValid d = ground (arith, length-replicate {A = ℕ} (new base_addr size).n_indexes 0)

  Ready-blank : (d : Bool) {m' : MemoryBmp} → Initialized (blank d) m' → Ready m'
  unfolding new
  Ready-blank d h = record {
    valid = h.valid;
    first_frame = h.shape.base_pfn;
    last_frame = ground (arith, h.shape.end_pfn);
    search_from = h.shape.last_alloc_index;
    edges = λ q r. ground (
      arith,
      h.edges q (omega (arith, h.shape.base_pfn, h.shape.end_pfn)),
      is_set-replicate (new base_addr size).n_indexes (q - (new base_addr size).base_pfn),
    );
  }

  -- `initialize` of a new bitmap of a stretch that is not empty and ends within the address space
  -- succeeds, if it is handed storage or finds memory, in a valid bitmap of the pages that the
  -- stretch touches. The frames used in it are the first, if the stretch does not start on a page
  -- boundary, and the last, if its last byte is the first of a page.
  pub initialize-Ready :
      (s : Storage)
      → s ≢ out_of_memory
      → (m' : MemoryBmp) × (initialize (new base_addr size) s ≡ ok (success, m')) × Ready m'
  unfolding initialize new
  initialize-Ready preallocated ne =
      let (m', e, h) = mark_edges-Initialized (blank false) (blank-IsValid false) in
      (m', rw e refl, Ready-blank false h)
  initialize-Ready allocated ne =
      let (m', e, h) = mark_edges-Initialized (blank true) (blank-IsValid true) in
      (m', rw e refl, Ready-blank true h)
  initialize-Ready out_of_memory ne = absurd (ne refl)
