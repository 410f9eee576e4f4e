-- ===== src/VSwamp/Ranges.antt =====
-- A range of pages put back into the list of holes, and two holes that touch joined.
use Prim.{Unit, tt}
use zambesii.Prelude.{
  ℕ, ◌+◌, ◌*◌, ◌^◌, ◌≤◌, ◌<◌, ◌≡◌, List, [], ◌∷◌, ◌++◌, true, false, ◌||◌, arith,
}
use zambesii.VSwamp.Holes.{in_range, free, Ordered}

-- None of the `n` pages from `v` on is free.
abbrev pub Allocated : ℕ → ℕ → List (ℕ × ℕ) → Type 0
Allocated v n hs = (p : ℕ) → in_range v n p ≡ true → free hs p ≡ false

abbrev pub StartBelow : ℕ → List (ℕ × ℕ) → Type 0
StartBelow v [] = Unit {0}
StartBelow v ((b, m) ∷ hs) = (b ≤ v) × StartBelow v hs

abbrev pub StartAbove : ℕ → List (ℕ × ℕ) → Type 0
StartAbove v [] = Unit {0}
StartAbove v ((b, m) ∷ hs) = v < b

Ordered-behind :
    (v n low : ℕ) (ks : List (ℕ × ℕ))
    → 0 < n
    → Ordered low ks
    → StartAbove v ks
    → Allocated v n ks
    → Ordered (v + n * 4096) ks
Ordered-behind v n low [] pos o above out = tt
Ordered-behind v n low ((c, k) ∷ ks) pos (le, full, top, o) above out =
    (ground (arith, out c, full, above), full, top, o)

pub insert-Ordered :
    (v n low : ℕ) (hs ks : List (ℕ × ℕ))
    → 0 < n
    → v + n * 4096 ≤ 2 ^ 32
    → low ≤ v
    → Ordered low (hs ++ ks)
    → StartBelow v hs
    → StartAbove v ks
    → Allocated v n (hs ++ ks)
    → Ordered low (hs ++ (v, n) ∷ ks)
insert-Ordered v n low [] ks pos top le o below above out =
    (le, pos, top, Ordered-behind v n low ks pos o above out)
insert-Ordered v n low ((b, m) ∷ hs) ks pos top le (le', full, top', o) (b_below, below) above out =
    (
      le',
      full,
      top',
      insert-Ordered v n (b + m * 4096) hs ks pos top (ground (arith, out v, b_below, pos)) o below
          above (λ p r. ground (arith, out p r)),
    )

pub insert-free :
    (v n : ℕ) (hs ks : List (ℕ × ℕ)) (p : ℕ)
    → free (hs ++ (v, n) ∷ ks) p ≡ free (hs ++ ks) p || in_range v n p
insert-free v n [] ks p = ground arith
insert-free v n ((b, m) ∷ hs) ks p = ground (arith, insert-free v n hs ks p)

-- Two holes of which the second starts where the first ends are one hole.
pub join-Ordered :
    (b m c k low : ℕ) (hs ks : List (ℕ × ℕ))
    → c ≡ b + m * 4096
    → Ordered low (hs ++ (b, m) ∷ (c, k) ∷ ks)
    → Ordered low (hs ++ (b, m + k) ∷ ks)
join-Ordered b m c k low [] ks e (le, full, top, (le', full', top', o)) =
    (le, omega (arith, full), omega (arith, e, top'), rw (ends) o)
  where
    ends : b + (m + k) * 4096 ≡ c + k * 4096
    ends = omega (arith, e)
join-Ordered b m c k low ((d, j) ∷ hs) ks e (le, full, top, o) =
    (le, full, top, join-Ordered b m c k (d + j * 4096) hs ks e o)

pub join-free :
    (b m c k : ℕ) (hs ks : List (ℕ × ℕ)) (p : ℕ)
    → c ≡ b + m * 4096
    → free (hs ++ (b, m + k) ∷ ks) p ≡ free (hs ++ (b, m) ∷ (c, k) ∷ ks) p
join-free b m c k [] ks p e = ground (arith, e)
join-free b m c k ((d, j) ∷ hs) ks p e = ground (arith, join-free b m c k hs ks p e)
