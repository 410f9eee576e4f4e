-- ===== src/PrioQueue/Spec.antt =====
-- The abstract view of a `PrioQueue`: the items of each priority, in the order of their service.
use zambesii.Prelude.{
  ℕ, zero, suc, ◌+◌, ◌≤◌, ◌<◌, ◌≡◌, ◌≢◌, ◌⊎◌, inl, inr, refl, List, [], ◌∷◌, Option, none, some,
  ◌||◌, ◌==◌, ltb, if◌then◌else◌, length, get_elem?, get_or, set, arith,
}
use zambesii.PrioQueue.{no_queue}

-- The first item of the lowest priority that has one, taken.
unfoldable pub take_first : List (List ℕ) → Option ℕ × List (List ℕ)
take_first [] = (none, [])
take_first ([] ∷ iss) = let (item, rest) = take_first iss in (item, [] ∷ rest)
take_first ((i ∷ is) ∷ iss) = (some i, is ∷ iss)

-- The number of the first list with items, the lists counted from `i` on.
abbrev pub lowest : ℕ → List (List ℕ) → ℕ
lowest i [] = no_queue
lowest i ([] ∷ iss) = lowest (i + 1) iss
lowest i ((x ∷ is) ∷ iss) = i

pub lowest_bound :
    (i : ℕ) (iss : List (List ℕ))
    → (lowest i iss ≡ no_queue) ⊎ ((i ≤ lowest i iss) × (lowest i iss < i + length iss))
lowest_bound i [] = inl refl
lowest_bound i ([] ∷ iss) = elim (lowest_bound (i + 1) iss) [
  | inl e ↦ inl e
  | inr (a, b) ↦ inr (omega (arith, a), omega (arith, b))
]
lowest_bound i ((x ∷ is) ∷ iss) = inr (omega arith, omega arith)

-- Where a list gets items, the lowest number is the smaller one.
pub lowest-set_items :
    (i : ℕ) (iss : List (List ℕ)) (p x : ℕ) (is : List ℕ)
    → p < length iss
    → i + length iss ≤ 32768
    → lowest i (set iss p (x ∷ is))
      ≡ (if lowest i iss == no_queue || ltb (i + p) (lowest i iss) then i + p else lowest i iss)
lowest-set_items i [] p x is h b = absurd (omega arith)
lowest-set_items i ([] ∷ iss) zero x is h b = elim (lowest_bound (i + 1) iss) [
  | inl e ↦ ground (arith, e)
  | inr (above, _) ↦ ground (arith, above)
]
lowest-set_items i ((y ∷ ys) ∷ iss) zero x is h b = ground arith
lowest-set_items i ([] ∷ iss) (suc p) x is h b =
    ground (arith, lowest-set_items (i + 1) iss p x is (omega (arith, h)) (omega (arith, b)))
lowest-set_items i ((y ∷ ys) ∷ iss) (suc p) x is h b = ground arith

-- A list that changes keeps the lowest number, unless it gets its first items or loses the last
-- ones as the lowest list.
pub lowest-set_same :
    (i : ℕ) (iss : List (List ℕ)) (p : ℕ) (is : List ℕ)
    → (get_or iss p [] ≡ [] → is ≡ [])
    → (lowest i iss ≡ i + p → is ≢ [])
    → lowest i (set iss p is) ≡ lowest i iss
lowest-set_same i [] p is same other = refl
lowest-set_same i ([] ∷ iss) zero is same other = rw (same refl) refl
lowest-set_same i ((y ∷ ys) ∷ iss) zero [] same other = absurd (other (omega arith) refl)
lowest-set_same i ((y ∷ ys) ∷ iss) zero (x ∷ is) same other = refl
lowest-set_same i ([] ∷ iss) (suc p) is same other =
    lowest-set_same (i + 1) iss p is same (λ e. other (omega (arith, e)))
lowest-set_same i ((y ∷ ys) ∷ iss) (suc p) is same other = refl

pub lowest-none :
    (i : ℕ) (iss : List (List ℕ))
    → i + length iss ≤ 32768
    → lowest i iss ≡ no_queue
    → take_first iss ≡ (none, iss)
unfolding take_first
lowest-none i [] b e = refl
lowest-none i ([] ∷ iss) b e = rw (lowest-none (i + 1) iss (omega (arith, b)) e) refl
lowest-none i ((x ∷ is) ∷ iss) b e = absurd (omega (arith, e, b))

-- The list at the lowest number has an item, which is the first one to take.
pub lowest-some :
    (i : ℕ) (iss : List (List ℕ))
    → lowest i iss ≢ no_queue
    → (p : ℕ) × (x : ℕ) × (is : List ℕ) × (lowest i iss ≡ i + p)
      × (p < length iss)
      × (get_elem? iss p ≡ some (x ∷ is))
      × (take_first iss ≡ (some x, set iss p is))
unfolding take_first
lowest-some i [] ne = absurd (ne refl)
lowest-some i ([] ∷ iss) ne =
    let (p, x, is, low, h, at, taken) = lowest-some (i + 1) iss ne in
    (suc p, x, is, omega (arith, low), omega (arith, h), at, rw taken refl)
lowest-some i ((x ∷ is) ∷ iss) ne = (0, x, is, omega arith, omega arith, refl, refl)
