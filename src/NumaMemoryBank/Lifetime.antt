-- ===== src/NumaMemoryBank/Lifetime.antt =====
-- The default range of a `NumaMemoryBank` is one of its ranges, so that no call goes to a range that
-- was removed.
use Prim.{Unit, tt}
use zambesii.Prelude.{
  ℕ, ◌≡◌, inl, inr, refl, List, [], ◌∷◌, ◌++◌, ap, Option, none, some, Bool, true, false, ◌==◌,
  if◌then◌else◌, Bool-cases, arith, ℕ_discrete,
}
use zambesii.Prelude.Result.{Error, success, invalid_arg_val}
use zambesii.NumaMemoryRange.{identify_paddr}
use zambesii.NumaMemoryBank.{
  RangePtr, NumaMemoryBank, remove_range, remove_memory_range, identify_in, is_default,
}

abbrev pub in_bank : ℕ → List RangePtr → Bool
in_bank a [] = false
in_bank a (cur ∷ ranges) = if cur.address == a then true else in_bank a ranges

abbrev pub DistinctAddresses : List RangePtr → Type 0
DistinctAddresses [] = Unit {0}
DistinctAddresses (cur ∷ ranges) = (in_bank cur.address ranges ≡ false) × DistinctAddresses ranges

abbrev pub Lives : Option ℕ → List RangePtr → Type 0
Lives none ranges = Unit {0}
Lives (some d) ranges = in_bank d ranges ≡ true

pub record IsValid (bank : NumaMemoryBank) : Type 0 where
  pub distinct : DistinctAddresses bank.ranges
  pub default_lives : Lives bank.def_range bank.ranges

-- The range `gone` is the first of the ranges that has the address, and `left` are all others.
record Removed (ranges : List RangePtr) (base : ℕ) (gone : RangePtr) (left : List RangePtr)
    : Type 0 where
  pub before : List RangePtr
  pub after : List RangePtr
  pub split : ranges ≡ before ++ gone ∷ after
  pub others : left ≡ before ++ after
  pub first : identify_in before base ≡ false
  pub here : identify_paddr gone.range base ≡ true

later-Removed :
    (cur : RangePtr) {ranges : List RangePtr} {base : ℕ} {gone : RangePtr} {left : List RangePtr}
    → identify_paddr cur.range base ≡ false
    → Removed ranges base gone left
    → Removed (cur ∷ ranges) base gone (cur ∷ left)
unfolding identify_in
later-Removed cur e r = record {
  before = cur ∷ r.before;
  after = r.after;
  split = ap (λ ranges. cur ∷ ranges) r.split;
  others = ap (λ ranges. cur ∷ ranges) r.others;
  first = rw e r.first;
  here = r.here;
}

abbrev RemovedBy : List RangePtr → ℕ → Option (RangePtr × List RangePtr) → Type 0
RemovedBy ranges base none = identify_in ranges base ≡ false
RemovedBy ranges base (some (gone, left)) = Removed ranges base gone left

removed_step :
    (cur : RangePtr) (ranges : List RangePtr) (base : ℕ) (here : Bool)
    (found : Option (RangePtr × List RangePtr))
    → identify_paddr cur.range base ≡ here
    → RemovedBy ranges base found
    → RemovedBy (cur ∷ ranges) base (
        if here
        then some (cur, ranges)
        else elim found [ none ↦ none | some (r, left) ↦ some (r, cur ∷ left) ])
unfolding identify_in
removed_step cur ranges base true found e r = record {
  before = [];
  after = ranges;
  split = refl;
  others = refl;
  first = refl;
  here = e;
}
removed_step cur ranges base false none e r = rw e r
removed_step cur ranges base false (some (gone, left)) e r = later-Removed cur e r

remove_range-RemovedBy :
    (ranges : List RangePtr) (base : ℕ) → RemovedBy ranges base (remove_range ranges base)
unfolding remove_range identify_in
remove_range-RemovedBy [] base = refl
remove_range-RemovedBy (cur ∷ ranges) base =
    removed_step cur ranges base (identify_paddr cur.range base) (remove_range ranges base) refl
      (remove_range-RemovedBy ranges base)

in_middle :
    (before : List RangePtr) (gone : RangePtr) (after : List RangePtr)
    → in_bank gone.address (before ++ gone ∷ after) ≡ true
in_middle [] gone after = ground arith
in_middle (cur ∷ before) gone after = ground (arith, in_middle before gone after)

-- The addresses of the ranges without one of them.
without-in_bank :
    (before : List RangePtr) (gone : RangePtr) (after : List RangePtr)
    → DistinctAddresses (before ++ gone ∷ after)
    → (a : ℕ)
    → in_bank a (before ++ after)
      ≡ (if gone.address == a then false else in_bank a (before ++ gone ∷ after))
without-in_bank [] gone after (out, d) a = elim (ℕ_discrete gone.address a) [
  | yes e ↦ ground (arith, out)
  | no ne ↦ ground arith
]
without-in_bank (cur ∷ before) gone after (out, d) a =
    let there : in_bank gone.address (before ++ gone ∷ after) ≡ true =
      in_middle before gone after in
    ground (arith, without-in_bank before gone after d a, there, out)

without-Distinct :
    (before : List RangePtr) (gone : RangePtr) (after : List RangePtr)
    → DistinctAddresses (before ++ gone ∷ after)
    → DistinctAddresses (before ++ after)
without-Distinct [] gone after (out, d) = d
without-Distinct (cur ∷ before) gone after (out, d) = (
  ground (arith, without-in_bank before gone after d cur.address, out),
  without-Distinct before gone after d,
)

-- How a removal ends: the first range with the address is taken out of the ranges, and the default
-- range is forgotten if it was that one; or none has the address.
pub RemovalOutcome : NumaMemoryBank → ℕ → Error × NumaMemoryBank → Type 0
RemovalOutcome bank base (success, bank') =
    (before : List RangePtr) × (gone : RangePtr) × (after : List RangePtr) × (bank.ranges
      ≡ before ++ gone ∷ after)
    × (bank'.ranges ≡ before ++ after)
    × (identify_in before base ≡ false)
    × (identify_paddr gone.range base ≡ true)
    × (bank'.def_range ≡ (if is_default bank.def_range gone.address then none else bank.def_range))
    × IsValid bank'
RemovalOutcome bank base (e, bank') =
    (e ≡ invalid_arg_val) × (identify_in bank.ranges base ≡ false) × (bank' ≡ bank)

default_after :
    (before : List RangePtr) (gone : RangePtr) (after : List RangePtr) (default : Option ℕ)
    → DistinctAddresses (before ++ gone ∷ after)
    → Lives default (before ++ gone ∷ after)
    → Lives (if is_default default gone.address then none else default) (before ++ after)
default_after before gone after none d lives = tt
default_after before gone after (some a) d lives = elim (Bool-cases (a == gone.address)) [
  | inl e ↦ rw e tt
  | inr e ↦ rw e (ground (arith, without-in_bank before gone after d a, lives, e))
]

outcome_by :
    {bank : NumaMemoryBank} (base : ℕ) (found : Option (RangePtr × List RangePtr))
    → IsValid bank
    → RemovedBy bank.ranges base found
    → RemovalOutcome bank base (elim found [
      | none ↦ (invalid_arg_val, bank)
      | some (cur, ranges) ↦ (
        success,
        record {
          ranges = ranges;
          def_range = if is_default bank.def_range cur.address then none else bank.def_range;
        },
      )
    ])
unfolding RemovalOutcome
outcome_by base none v r = (refl, r, refl)
outcome_by {bank = bank} base (some (cur, ranges)) v r =
    let d : DistinctAddresses (r.before ++ cur ∷ r.after) = rw r.split at v.distinct in
    let lives : Lives bank.def_range (r.before ++ cur ∷ r.after) = rw r.split at v.default_lives in
    (
      r.before,
      cur,
      r.after,
      r.split,
      r.others,
      r.first,
      r.here,
      refl,
      record {
        distinct = rw r.others (without-Distinct r.before cur r.after d);
        default_lives = rw r.others (default_after r.before cur r.after bank.def_range d lives);
      },
    )

-- A removal from a bank whose ranges have distinct addresses and whose default range is one of them
-- or NULL takes the first range that has the given physical address out, keeps all others as they
-- are and in their order, and forgets the default range exactly if it is the one removed, so the
-- default range is still one of those that are left, or NULL; or no range has that address, and the
-- bank answers ERROR_INVALID_ARG_VAL and changes nothing.
pub remove_memory_range-RemovalOutcome :
    {bank : NumaMemoryBank} (base : ℕ)
    → IsValid bank
    → RemovalOutcome bank base (remove_memory_range bank base)
unfolding remove_memory_range
remove_memory_range-RemovalOutcome {bank = bank} base v =
    outcome_by base (remove_range bank.ranges base) v (remove_range-RemovedBy bank.ranges base)
