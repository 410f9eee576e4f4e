-- ===== src/Bits/Search.antt =====
-- `checkForContiguousBitsAt` of __kcore/include/__kstdlib/__kbitManipulation.h: which run of clear
-- bits it reports, and which runs it misses.
use zambesii.Prelude.{
  ℕ, zero, suc, ◌+◌, ◌-◌, ◌*◌, ◌≤◌, ◌<◌, ◌≡◌, refl, ap, ◌⊎◌, inl, inr, true, false, List, arith,
  ltb, leb, ◌==◌, length, dec_lt, dec_le, ℕ_discrete, Bool-cases,
}
use zambesii.Prelude.Result.{Result, ok, fault, Status, value, failed, not_found}
use zambesii.Bits.{word_bits, contiguous_from, check_for_contiguous_bits_at}
use zambesii.Bits.Arrays.{is_set, bit_is_set-is_set}

-- The `n` bits from `s` on are clear.
abbrev pub Clear : List ℕ → ℕ → ℕ → Type 0
Clear bmp s n = (x : ℕ) → s ≤ x → x < s + n → is_set bmp x ≡ false

-- A run of `f` clear bits at `s`, the first of at least `min_frames`, as long as it can be.
pub record Hit (bmp : List ℕ) (min_frames max_frames from stop s f : ℕ) : Type 0 where
  pub long : min_frames ≤ f
  pub short : f ≤ max_frames
  pub start_in : from ≤ s
  pub end_in : s + f ≤ stop
  pub clear : Clear bmp s f
  pub maximal : (f ≡ max_frames) ⊎ (is_set bmp (s + f) ≡ true)
  pub first : (t : ℕ) → from ≤ t → t < s → ¬ Clear bmp t min_frames

-- Every long enough run reaches the end of the range.
abbrev pub OnlyTail : List ℕ → ℕ → ℕ → ℕ → Type 0
OnlyTail bmp min_frames from stop =
    (t : ℕ) → from ≤ t → t + min_frames ≤ stop → Clear bmp t min_frames → Clear bmp t (stop - t)

abbrev pub Outcome : List ℕ → ℕ → ℕ → ℕ → ℕ → Result (Status × ℕ) → Type 0
Outcome bmp min_frames max_frames from stop (ok (value s, f)) =
    Hit bmp min_frames max_frames from stop s f
Outcome bmp min_frames max_frames from stop (ok (failed e, f)) =
    (e ≡ not_found) × OnlyTail bmp min_frames from stop
Outcome bmp min_frames max_frames from stop (fault e) = ⊥

pub Clear-snoc :
    (bmp : List ℕ) (s found i : ℕ)
    → i ≡ s + found
    → Clear bmp s found
    → is_set bmp i ≡ false
    → Clear bmp s (suc found)
Clear-snoc bmp s found i e c free x lo hi = elim (ℕ_discrete x i) [
  | yes same ↦ rw same free
  | no other ↦ c x lo (omega arith)
]

module _ (bmp : List ℕ) (min_frames max_frames : ℕ) where
  Outcome-earlier :
      (from i stop : ℕ) (r : Result (Status × ℕ))
      → ((t : ℕ) → from ≤ t → t < i → ¬ Clear bmp t min_frames)
      → from ≤ i
      → Outcome bmp min_frames max_frames i stop r
      → Outcome bmp min_frames max_frames from stop r
  Outcome-earlier from i stop (ok (value s, f)) none_before le h = record {
    long = h.long;
    short = h.short;
    start_in = omega arith;
    end_in = h.end_in;
    clear = h.clear;
    maximal = h.maximal;
    first = λ t lo hi. elim (dec_lt t i) [
      | yes early ↦ none_before t lo early
      | no late ↦ h.first t (omega arith) hi
    ];
  }
  Outcome-earlier from i stop (ok (failed e, f)) none_before le (same, tail) = (
    same,
    λ t lo hi c. elim (dec_lt t i) [
      | yes early ↦ absurd (none_before t lo early c)
      | no late ↦ tail t (omega arith) hi c
    ],
  )
  Outcome-earlier from i stop (fault e) none_before le h = h

  -- A set bit at `i` ends the run from `s`, which was too short.
  too_short :
      (s found i : ℕ)
      → 0 < min_frames
      → i ≡ s + found
      → is_set bmp i ≡ true
      → found < min_frames
      → (t : ℕ) → s ≤ t
      → t < suc i
      → ¬ Clear bmp t min_frames
  too_short s found i pos e used short t lo hi c = cc (used, c i (omega arith) (omega arith))

  Hit-stopped :
      (s found i stop : ℕ)
      → i ≡ s + found
      → i < stop
      → found < max_frames
      → Clear bmp s found
      → is_set bmp i ≡ true
      → min_frames ≤ found
      → Hit bmp min_frames max_frames s stop (i - found) found
  Hit-stopped s found i stop ei in_range short c used long =
      let e : i - found ≡ s = omega arith in
      record {
        long = long;
        short = omega arith;
        start_in = omega arith;
        end_in = omega arith;
        clear = rw e c;
        maximal = inr (rw (e, ← ei) used);
        first = λ t lo hi run. absurd (omega arith);
      }

  Hit-filled :
      (s found i stop : ℕ)
      → i ≡ s + found
      → i < stop
      → min_frames ≤ max_frames
      → Clear bmp s found
      → is_set bmp i ≡ false
      → found + 1 ≡ max_frames
      → Hit bmp min_frames max_frames s stop (i - found) (found + 1)
  Hit-filled s found i stop ei in_range ord c free last = record {
    long = omega arith;
    short = omega arith;
    start_in = omega arith;
    end_in = omega arith;
    clear = λ x lo hi. Clear-snoc bmp s found i ei c free x (omega arith) (omega arith);
    maximal = inl last;
    first = λ t lo hi run. absurd (omega arith);
  }

  contiguous_from-Outcome :
      (rounds s found i stop : ℕ)
      → 0 < min_frames
      → min_frames ≤ max_frames
      → i ≡ s + found
      → stop ≡ i + rounds
      → stop ≤ word_bits * length bmp
      → found < max_frames
      → Clear bmp s found
      → Outcome bmp min_frames max_frames s stop
          (contiguous_from bmp min_frames max_frames rounds i found)
  unfolding contiguous_from
  contiguous_from-Outcome zero s found i stop pos ord ei es inside short c =
      (refl, λ t lo hi run x p q. c x (omega arith) (omega arith))
  contiguous_from-Outcome (suc rounds) s found i stop pos ord ei es inside short c =
      let here = bit_is_set-is_set bmp i (omega arith) in
      let restarted = λ (used : is_set bmp i ≡ true) (few : found < min_frames).
        Outcome-earlier s (i + 1) stop (contiguous_from bmp min_frames max_frames rounds (i + 1) 0)
          (λ t lo hi. too_short s found i pos ei used few t lo (omega arith)) (omega arith)
          (contiguous_from-Outcome rounds (i + 1) 0 (i + 1) stop pos ord (omega arith) (omega arith)
            inside (omega arith) (λ x lo hi. absurd (omega arith))) in
      let continued = λ (free : is_set bmp i ≡ false) (more : found + 1 ≤ max_frames - 1).
        contiguous_from-Outcome rounds s (found + 1) (i + 1) stop pos ord (omega arith)
          (omega arith) inside (omega arith)
          (λ x lo hi. Clear-snoc bmp s found i ei c free x lo (omega arith)) in
      elim (Bool-cases (is_set bmp i)) [
        | inl used ↦
            rw (here, used)
              (elim (dec_le min_frames found) [
                | yes long ↦
                    let e : (found == 0) ≡ false = ground arith in
                    let l : leb min_frames found ≡ true = ground arith in
                    rw (e, l) (Hit-stopped s found i stop ei (omega arith) short c used long)
                | no few ↦
                    let l : leb min_frames found ≡ false = ground arith in
                    rw (l) (elim (Bool-cases (found == 0)) [
                      | inl e ↦ rw e (restarted used (omega arith))
                      | inr e ↦ rw e (restarted used (omega arith))
                    ])
              ])
        | inr free ↦
            rw (here, free)
              (elim (dec_le (found + 1) (max_frames - 1)) [
                | yes more ↦
                    let e : (found + 1 == max_frames) ≡ false = ground arith in
                    rw e (elim (Bool-cases (leb min_frames (found + 1))) [
                      | inl l ↦ rw l (continued free more)
                      | inr l ↦ rw l (continued free more)
                    ])
                | no last ↦
                    let e : (found + 1 == max_frames) ≡ true = ground arith in
                    let l : leb min_frames (found + 1) ≡ true = ground arith in
                    rw (e, l) (Hit-filled s found i stop ei (omega arith) ord c free (omega arith))
              ])
      ]

  -- `checkForContiguousBitsAt` asked for between `min_frames` and `max_frames` bits, both positive
  -- and in order, of a range inside the array: no access is wild; a reported run lies in the range,
  -- is clear, has a length between the bounds, is the first run of at least `min_frames`, and ends
  -- only at `max_frames` or before a set bit; and on `ERROR_NOT_FOUND` each clear run of
  -- `min_frames` bits goes on to the end of the range.
  pub check_for_contiguous_bits_at-Outcome :
      (start valid before : ℕ)
      → 0 < min_frames
      → min_frames ≤ max_frames
      → start + valid ≤ word_bits * length bmp
      → Outcome bmp min_frames max_frames start
          (start + valid)
          (check_for_contiguous_bits_at bmp start min_frames max_frames valid before)
  unfolding check_for_contiguous_bits_at
  check_for_contiguous_bits_at-Outcome start valid before pos ord inside =
      let e : ltb max_frames min_frames ≡ false = ground arith in
      rw e (
        contiguous_from-Outcome valid start 0 start (start + valid) pos ord (omega arith) refl
          inside (omega arith) (λ x lo hi. absurd (omega arith)))

  contiguous_from_tail :
      (rounds i found : ℕ)
      → i + rounds ≤ word_bits * length bmp
      → found + rounds < max_frames
      → Clear bmp i rounds
      → contiguous_from bmp min_frames max_frames rounds i found
        ≡ ok (failed not_found, found + rounds)
  unfolding contiguous_from
  contiguous_from_tail zero i found inside short c =
      ap (λ n. ok (failed not_found, n)) (omega arith)
  contiguous_from_tail (suc rounds) i found inside short c = ground (
    arith,
    bit_is_set-is_set bmp i (omega arith),
    c i (omega arith) (omega arith),
    contiguous_from_tail rounds (i + 1) (found + 1) (omega arith) (omega arith)
        (λ x lo hi. c x (omega arith) (omega arith)),
  )

  -- A range inside the array that is clear from its start to its end, and shorter than
  -- `max_frames`, is answered with `ERROR_NOT_FOUND`, however small `min_frames` is.
  check_for_contiguous_bits_at_tail :
      (start valid before : ℕ)
      → min_frames ≤ max_frames
      → valid < max_frames
      → start + valid ≤ word_bits * length bmp
      → Clear bmp start valid
      → check_for_contiguous_bits_at bmp start min_frames max_frames valid before
        ≡ ok (failed not_found, valid)
  unfolding check_for_contiguous_bits_at
  check_for_contiguous_bits_at_tail start valid before ord short inside c =
      ground (arith, contiguous_from_tail valid start 0 inside (omega arith) c)
