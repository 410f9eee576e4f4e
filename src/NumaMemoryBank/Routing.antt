-- ===== src/NumaMemoryBank/Routing.antt =====
-- `NumaMemoryBank::releaseFrames`: the range that gets the frames back.
use zambesii.Prelude.{
  ℕ, ◌≡◌, ◌⊎◌, inl, inr, refl, ap, ◌∙◌, List, [], ◌∷◌, ◌++◌, true, false, Bool-cases,
}
use zambesii.Prelude.Result.{ok, ◌>>=◌, bind_ok}
use zambesii.NumaMemoryRange.{identify_paddr}
use zambesii.NumaMemoryRange
use zambesii.NumaMemoryBank.{
  RangePtr, NumaMemoryBank, release_in, release_frames, identify_in, bank_identify_paddr,
}

-- The first range of a list that has the address.
pub record Routed (ranges : List RangePtr) (paddr : ℕ) : Type 0 where
  pub before : List RangePtr
  pub cur : RangePtr
  pub after : List RangePtr
  pub split : ranges ≡ before ++ cur ∷ after
  pub none_before : identify_in before paddr ≡ false
  pub identified : identify_paddr cur.range paddr ≡ true

release_in_past :
    (cur : RangePtr) (ranges : List RangePtr) (paddr n : ℕ)
    → identify_paddr cur.range paddr ≡ false
    → release_in (cur ∷ ranges) paddr n ≡ (release_in ranges paddr n >>= λ rest. ok (cur ∷ rest))
unfolding release_in
release_in_past cur ranges paddr n e = rw (e, release_in) refl

release_in_here :
    (cur : RangePtr) (ranges : List RangePtr) (paddr n : ℕ)
    → identify_paddr cur.range paddr ≡ true
    → release_in (cur ∷ ranges) paddr n ≡ (
        NumaMemoryRange.release_frames cur.range paddr n >>= λ range.
        ok (record cur { range = range } ∷ ranges))
unfolding release_in
release_in_here cur ranges paddr n e = rw (e, release_in) refl

identify_in_past :
    (cur : RangePtr) (ranges : List RangePtr) (paddr : ℕ)
    → identify_paddr cur.range paddr ≡ false
    → identify_in (cur ∷ ranges) paddr ≡ identify_in ranges paddr
unfolding identify_in
identify_in_past cur ranges paddr e = rw (e, identify_in) refl

release_in_routes :
    (ranges : List RangePtr) (paddr n : ℕ)
    → ((identify_in ranges paddr ≡ false) × (release_in ranges paddr n ≡ ok ranges))
      ⊎ ((way : Routed ranges paddr) × (release_in ranges paddr n ≡ (
            NumaMemoryRange.release_frames way.cur.range paddr n >>= λ range.
            ok (way.before ++ record way.cur { range = range } ∷ way.after))))
unfolding release_in identify_in
release_in_routes [] paddr n = inl (refl, refl)
release_in_routes (cur ∷ ranges) paddr n = elim (Bool-cases (identify_paddr cur.range paddr)) [
  | inl e ↦ inr (
    record {
      before = [];
      cur = cur;
      after = ranges;
      split = refl;
      none_before = refl;
      identified = e;
    },
    release_in_here cur ranges paddr n e,
  )
  | inr e ↦ elim (release_in_routes ranges paddr n) [
    | inl (out, same) ↦ inl (
      identify_in_past cur ranges paddr e ∙ out,
      release_in_past cur ranges paddr n e ∙ rw same refl,
    )
    | inr (way, same) ↦ inr (
      record {
        before = cur ∷ way.before;
        cur = way.cur;
        after = way.after;
        split = ap (λ rs. cur ∷ rs) way.split;
        none_before = identify_in_past cur way.before paddr e ∙ way.none_before;
        identified = way.identified;
      },
      release_in_past cur ranges paddr n e
          ∙ rw same (
              bind_ok (NumaMemoryRange.release_frames way.cur.range paddr n)
                (λ range. way.before ++ record way.cur { range = range } ∷ way.after)
                (λ rest. cur ∷ rest)),
    )
  ]
]

-- Frames that are given back to a bank go to the first of its ranges that has their address, by a
-- call of that range, and no other range changes. If no range has the address, which is exactly when
-- the bank does not identify it, nothing changes and the frames leak.
pub release_frames_routes :
    (bank : NumaMemoryBank) (paddr n : ℕ)
    → ((bank_identify_paddr bank paddr ≡ false) × (release_frames bank paddr n ≡ ok bank))
      ⊎ ((way : Routed bank.ranges paddr) × (release_frames bank paddr n ≡ (
            NumaMemoryRange.release_frames way.cur.range paddr n >>= λ range.
            ok (record bank {
              ranges = way.before ++ record way.cur { range = range } ∷ way.after;
            }))))
unfolding release_frames bank_identify_paddr
release_frames_routes bank paddr n = elim (release_in_routes bank.ranges paddr n) [
  | inl (out, same) ↦ inl (out, rw same refl)
  | inr (way, same) ↦ inr (
    way,
    rw same (
        bind_ok (NumaMemoryRange.release_frames way.cur.range paddr n)
          (λ range. way.before ++ record way.cur { range = range } ∷ way.after)
          (λ ranges. record bank { ranges = ranges })),
  )
]
