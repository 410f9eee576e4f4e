-- ===== src/MemoryBmp/Fragmented/Runs.antt =====
-- Which run of free frames the loops of `MemoryBmp::fragmentedGetFrames` settle on.
use native.Mathlib.Numerals.{add-one}
use zambesii.Prelude.{
  ℕ, zero, suc, ◌+◌, ◌-◌, ◌*◌, ◌%◌, ◌≤◌, ◌<◌, ◌≡◌, ap, sym, ◌∙◌, ◌⊎◌, inl, inr, Bool, true, false,
  List, [], ◌∷◌, Option, none, some, arith, ltb, ◌==◌, if◌then◌else◌, drop, get_or, drop-cons,
  drop-nil, min, dec_lt, ℕ_discrete, Bool-cases,
}
use zambesii.Prelude.Result.{Result, ok, fault, panic, no_rounds, wild_access}
use zambesii.Bits.{word_bits, all_ones, kbit_test}
use zambesii.Bits.Arrays.{is_set, kbit_test-all_ones}
use zambesii.Bits.Search.{Clear}
use zambesii.MemoryBmp.{MemoryBmp}
use zambesii.MemoryBmp.Frames.{IsValid, used}
use zambesii.MemoryBmp.Fragmented.{Scan, out, ran_on, bit_limit, scan_words, find_clear, find_run}
use zambesii.MemoryBmp.Fragmented.Counting.{
  Blocked, Counted, is_set_in_word, bit_limit_bounds, scan_words-Counted,
}

abbrev FirstClear : ℕ → ℕ → ℕ → Option ℕ → Type 0
FirstClear word j stop none = (x : ℕ) → j ≤ x → x < stop → kbit_test word x ≡ true
FirstClear word j stop (some k) =
    (j ≤ k)
    × (k < stop)
    × (kbit_test word k ≡ false)
    × ((x : ℕ) → j ≤ x → x < k → kbit_test word x ≡ true)

find_clear-FirstClear :
    (word rounds j stop : ℕ) → stop ≡ j + rounds → FirstClear word j stop (find_clear word rounds j)
unfolding find_clear
find_clear-FirstClear word zero j stop e = λ x lo hi. absurd (omega arith)
find_clear-FirstClear word (suc rounds) j stop e = elim (Bool-cases (kbit_test word j)) [
  | inl set ↦ rw set (later _ set (find_clear-FirstClear word rounds (j + 1) stop (omega arith)))
  | inr free ↦ rw free (omega arith, omega arith, free, λ x lo hi. absurd (omega arith))
]
  where
    first_or_later :
        kbit_test word j ≡ true
        → (x : ℕ) → j ≤ x
        → (j + 1 ≤ x → kbit_test word x ≡ true)
        → kbit_test word x ≡ true
    first_or_later set x lo go = elim (ℕ_discrete x j) [
      | yes same ↦ rw same set
      | no other ↦ go (omega arith)
    ]

    later :
        (r : Option ℕ)
        → kbit_test word j ≡ true
        → FirstClear word (j + 1) stop r
        → FirstClear word j stop r
    later none set h = λ x lo hi. first_or_later set x lo (λ up. h x up hi)
    later (some k) set (lo', hi', free, h) =
        (omega arith, hi', free, λ x lo hi. first_or_later set x lo (λ up. h x up hi))

-- The bits from `p` up to `q` are set.
abbrev pub Full : List ℕ → ℕ → ℕ → Type 0
Full bmp p q = (x : ℕ) → p ≤ x → x < q → is_set bmp x ≡ true

-- The first clear bit from bit `from` on starts a run that reaches the last frame and has fewer
-- than `n` frames; `over` tells whether bits are left to look at in its word.
pub record ShortTail (m : MemoryBmp) (n from : ℕ) (over : Bool) : Type 0 where
  pub bit : ℕ
  pub after : from ≤ bit
  pub inside : bit < m.n_frames
  pub before : Full m.bmp from bit
  pub free : Clear m.bmp bit (m.n_frames - bit)
  pub short : m.n_frames - bit < n
  pub left : ltb (bit % word_bits + 1) (bit_limit m (m.n_indexes - 1)) ≡ over

-- The first run of clear bits from bit `from` on, cut at `n` frames.
pub record FirstRun (m : MemoryBmp) (n from start found : ℕ) : Type 0 where
  pub above : m.base_pfn + from ≤ start
  pub some_frames : 0 < found
  pub enough : found ≤ n
  pub inside : start + found ≤ m.end_pfn + 1
  pub before : Full m.bmp from (start - m.base_pfn)
  pub free : Clear m.bmp (start - m.base_pfn) found
  pub whole : (found ≡ n) ⊎ ((start + found ≤ m.end_pfn) × (used m (start + found) ≡ true))

abbrev pub RunFound : MemoryBmp → ℕ → ℕ → Result (Option (ℕ × ℕ)) → Type 0
RunFound m n from (ok none) = Full m.bmp from m.n_frames ⊎ ShortTail m n from false
RunFound m n from (ok (some (start, found))) = FirstRun m n from start found
RunFound m n from (fault wild_access) = ShortTail m n from true
RunFound m n from (fault panic) = ⊥
RunFound m n from (fault no_rounds) = ⊥

module _ {m : MemoryBmp} (v : IsValid m) (n from : ℕ) (pos : 0 < n) where
  -- What is set up to word `i`, and in the first `k` bits of it.
  Full-word :
      (i word k : ℕ)
      → get_or m.bmp i 0 ≡ word
      → k ≤ word_bits
      → Full m.bmp from (word_bits * i)
      → ((x : ℕ) → 0 ≤ x → x < k → kbit_test word x ≡ true)
      → Full m.bmp from (word_bits * i + k)
  Full-word i word k here fits below set x lo hi = elim (dec_lt x (word_bits * i)) [
    | yes low ↦ below x lo low
    | no high ↦
        let at : word_bits * i + (x - word_bits * i) ≡ x = omega arith in
        let bit = is_set_in_word m.bmp i (x - word_bits * i) word here (omega arith) in
        ap (is_set m.bmp) (sym at) ∙ bit ∙ set (x - word_bits * i) (omega arith) (omega arith)
  ]

  -- A run that starts at a clear bit is not empty.
  nonempty :
      (s found : ℕ)
      → is_set m.bmp s ≡ false
      → (found ≡ n) ⊎ Blocked m.bmp m.n_frames (s + found)
      → 0 < found
  nonempty s zero free (inl e) = omega arith
  nonempty s zero free (inr (_, used)) =
      let same : s + 0 ≡ s = omega arith in cc (free, ap (is_set m.bmp) same, used)
  nonempty s (suc found) free why = omega arith

  ends_at :
      (s start found : ℕ)
      → start ≡ m.base_pfn + s
      → (found ≡ n) ⊎ Blocked m.bmp m.n_frames (s + found)
      → (found ≡ n) ⊎ ((start + found ≤ m.end_pfn) × (used m (start + found) ≡ true))
  ends_at s start found e (inl full) = inl full
  ends_at s start found e (inr (lt, u)) =
      let at : start + found - m.base_pfn ≡ s + found = omega arith in
      inr (omega (arith, v.counted), rw at u)

  ShortTail-of :
      (s found : ℕ) (over : Bool)
      → from ≤ s
      → s < m.n_frames
      → Full m.bmp from s
      → Counted m.bmp n s m.n_frames (ran_on found)
      → ltb (s % word_bits + 1) (bit_limit m (m.n_indexes - 1)) ≡ over
      → ShortTail m n from over
  ShortTail-of s found over lo inside full (lt, at, c) e = record {
    bit = s;
    after = lo;
    inside = inside;
    before = full;
    free = λ x p q. c x p (omega arith);
    short = omega arith;
    left = e;
  }

  take_run :
      (s j start : ℕ) (r : Scan)
      → from ≤ s
      → s < m.n_frames
      → s % word_bits ≡ j
      → start ≡ m.base_pfn + s
      → Full m.bmp from s
      → is_set m.bmp s ≡ false
      → Counted m.bmp n s m.n_frames r
      → RunFound m n from (elim r [
        | out found ↦ ok (some (start, found))
        | ran_on found ↦
            if ltb (j + 1) (bit_limit m (m.n_indexes - 1)) then fault wild_access else ok none
      ])
  take_run s j start (out found) lo inside ej es full free (le, fits, c, why) =
      let at : start - m.base_pfn ≡ s = omega arith in
      record {
        above = omega arith;
        some_frames = nonempty s found free why;
        enough = le;
        inside = omega (arith, v.counted);
        before = rw at full;
        free = rw at c;
        whole = ends_at s start found es why;
      }
  take_run s j start (ran_on found) lo inside ej es full free counted =
      elim (Bool-cases (ltb (s % word_bits + 1) (bit_limit m (m.n_indexes - 1)))) [
        | inl e ↦ rw (← ej, e) (ShortTail-of s found true lo inside full counted e)
        | inr e ↦ rw (← ej, e) (inr (ShortTail-of s found false lo inside full counted e))
      ]

  take_word :
      (i word : ℕ) (words : List ℕ) (rest : Result (Option (ℕ × ℕ))) (o : Option ℕ)
      → drop i m.bmp ≡ word ∷ words
      → from ≤ word_bits * i
      → Full m.bmp from (word_bits * i)
      → FirstClear word 0 (bit_limit m i) o
      → (Full m.bmp from (word_bits * i + bit_limit m i) → RunFound m n from rest)
      → RunFound m n from (elim o [
        | none ↦ rest
        | some j ↦ elim (scan_words m (word ∷ words) i j n 0) [
          | out found ↦ ok (some (m.base_pfn + i * word_bits + j, found))
          | ran_on found ↦
              if ltb (j + 1) (bit_limit m (m.n_indexes - 1)) then fault wild_access else ok none
        ]
      ])
  take_word i word words rest none e lo full first go =
      let (here, _, inside) = drop-cons m.bmp i word words 0 e in
      let (some_bits, few_bits, ends) = bit_limit_bounds v i inside in
      go (Full-word i word (bit_limit m i) here few_bits full first)
  take_word i word words rest (some j) e lo full (_, low, free, before) go =
      let (here, _, inside) = drop-cons m.bmp i word words 0 e in
      let (some_bits, few_bits, ends) = bit_limit_bounds v i inside in
      take_run (word_bits * i + j) j _ _ (omega arith) (omega arith) (omega arith) (omega arith)
        (Full-word i word j here (omega arith) full before)
        (is_set_in_word m.bmp i j word here (omega arith) ∙ free)
        (scan_words-Counted v n (word ∷ words) i j (word_bits * i + j) 0 e (omega arith)
          (ground arith) (λ _. low) pos (λ x p q. absurd (omega arith)))

  pub find_run-RunFound :
      (words : List ℕ) (i : ℕ)
      → drop i m.bmp ≡ words
      → from ≤ word_bits * i
      → Full m.bmp from (min (word_bits * i) m.n_frames)
      → RunFound m n from (find_run m words i n)
  unfolding find_run
  find_run-RunFound [] i e lo full = inl (λ x p q. full x p (ground (arith, v, drop-nil m.bmp i e)))
  find_run-RunFound (word ∷ words) i e lo full =
      let (here, rest, inside) = drop-cons m.bmp i word words 0 e in
      let (some_bits, few_bits, ends) = bit_limit_bounds v i inside in
      let so_far = λ (x : ℕ) (p : from ≤ x) (q : x < word_bits * i). full x p (omega arith) in
      let next = λ (f : Full m.bmp from (word_bits * i + bit_limit m i)).
        find_run-RunFound words (i + 1) (rw (add-one) rest) (omega arith)
          (λ x p q. f x p (omega arith)) in
      elim (Bool-cases (word == all_ones)) [
        | inl ones ↦
            let all : word ≡ all_ones = ground arith in
            rw ones (
              next (
                Full-word i word (bit_limit m i) here few_bits so_far
                  (λ x p q. rw all (kbit_test-all_ones x (omega arith)))))
        | inr some_clear ↦ rw some_clear (
            take_word i word words _ _ e lo so_far
              (find_clear-FirstClear word (bit_limit m i) 0 (bit_limit m i) (omega arith)) next)
      ]
