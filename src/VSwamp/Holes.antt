-- ===== src/VSwamp/Holes.antt =====
-- The holes of a swamp as a list of ranges, and the pages that they have.
use Prim.{Unit, tt}
use zambesii.Prelude.{
  ℕ, ◌+◌, ◌-◌, ◌*◌, ◌^◌, ◌≤◌, ◌<◌, ◌≡◌, refl, sym, ap, List, [], ◌∷◌, ◌++◌, Bool, true, false, ◌&&◌,
  ◌||◌, not, Option, none, some, ◌==◌, ltb, leb, if◌then◌else◌, arith, Bool-cases, inl, inr,
}
use zambesii.Prelude.Put.{put, put_other}
use zambesii.Prelude.Distinct.{NotIn}

-- A hole is its first address and its number of pages.
abbrev pub in_range : ℕ → ℕ → ℕ → Bool
in_range b n p = leb b p && ltb p (b + n * 4096)

abbrev pub free : List (ℕ × ℕ) → ℕ → Bool
free [] p = false
free ((b, n) ∷ hs) p = in_range b n p || free hs p

-- The holes are not empty, in order from the address `low` on, apart, and below 2 ^ 32.
abbrev pub Ordered : ℕ → List (ℕ × ℕ) → Type 0
Ordered low [] = Unit {0}
Ordered low ((b, n) ∷ hs) =
    (low ≤ b) × (0 < n) × (b + n * 4096 ≤ 2 ^ 32) × Ordered (b + n * 4096) hs

abbrev pub holes : (ℕ → ℕ) → (ℕ → ℕ) → List ℕ → List (ℕ × ℕ)
holes base n_pages [] = []
holes base n_pages (a ∷ xs) = (base a, n_pages a) ∷ holes base n_pages xs

pub holes-append :
    (base n_pages : ℕ → ℕ) (xs ys : List ℕ)
    → holes base n_pages (xs ++ ys) ≡ holes base n_pages xs ++ holes base n_pages ys
holes-append base n_pages [] ys = refl
holes-append base n_pages (a ∷ xs) ys =
    ap (λ hs. (base a, n_pages a) ∷ hs) (holes-append base n_pages xs ys)

-- A write of a node leaves the holes of the other nodes.
pub holes-put :
    (base n_pages : ℕ → ℕ) (a b n : ℕ) (xs : List ℕ)
    → NotIn a xs
    → holes (put base a b) (put n_pages a n) xs ≡ holes base n_pages xs
holes-put base n_pages a b n [] away = refl
holes-put base n_pages a b n (c ∷ xs) (ne, away) =
    rw
      (
        put_other base a c b (λ e. ne (sym e)),
        put_other n_pages a c n (λ e. ne (sym e)),
        holes-put base n_pages a b n xs away,
      )
      refl

-- The allocation of `n` pages from the first hole that has them.
abbrev pub first_fit : ℕ → List (ℕ × ℕ) → Option ℕ
first_fit n [] = none
first_fit n ((b, m) ∷ hs) = if leb n m then some b else first_fit n hs

abbrev pub fit : ℕ → List (ℕ × ℕ) → List (ℕ × ℕ)
fit n [] = []
fit n ((b, m) ∷ hs) =
    let rest : List (ℕ × ℕ) = fit n hs in
    if leb n m then (if m - n == 0 then hs else (b + n * 4096, m - n) ∷ hs) else (b, m) ∷ rest

pub free_below :
    (low : ℕ) (hs : List (ℕ × ℕ)) (p : ℕ) → Ordered low hs → p < low → free hs p ≡ false
free_below low [] p o h = refl
free_below low ((b, n) ∷ hs) p (le, pos, top, o) h =
    ground (arith, free_below (b + n * 4096) hs p o (omega (arith, le, h)))

pub Ordered-weaken :
    (low low' : ℕ) (hs : List (ℕ × ℕ)) → low' ≤ low → Ordered low hs → Ordered low' hs
Ordered-weaken low low' [] h o = tt
Ordered-weaken low low' ((b, n) ∷ hs) h (le, pos, top, o) = (omega (arith, le, h), pos, top, o)

pub fit-Ordered : (n low : ℕ) (hs : List (ℕ × ℕ)) → Ordered low hs → Ordered low (fit n hs)
fit-Ordered n low [] o = tt
fit-Ordered n low ((b, m) ∷ hs) (le, pos, top, o) = elim (Bool-cases (leb n m)) [
  | inl e ↦ elim (Bool-cases (m - n == 0)) [
    | inl z ↦ rw (e, z) (Ordered-weaken (b + m * 4096) low hs (omega (arith, le)) o)
    | inr z ↦
        rw (e, z)
          (
            omega (arith, le),
            ground (arith, z),
            ground (arith, e, top),
            Ordered-weaken (b + m * 4096) (b + n * 4096 + (m - n) * 4096) hs (ground (arith, e)) o,
          )
  ]
  | inr e ↦ rw e (le, pos, top, fit-Ordered n (b + m * 4096) hs o)
]

fit_above : (n low b : ℕ) (hs : List (ℕ × ℕ)) → Ordered low hs → first_fit n hs ≡ some b → low ≤ b
fit_above n low b [] o e = absurd (ground arith)
fit_above n low b ((c, m) ∷ hs) (le, pos, top, o) e = elim (Bool-cases (leb n m)) [
  | inl t ↦ ground (arith, le, e, t)
  | inr t ↦ omega (arith, le, fit_above n (c + m * 4096) b hs o (ground (arith, e, t)))
]

-- The pages of an allocation were free, and they and no other ones stop to be free.
pub fit-free :
    (n low b : ℕ) (hs : List (ℕ × ℕ)) (p : ℕ)
    → Ordered low hs
    → first_fit n hs ≡ some b
    → free (fit n hs) p ≡ free hs p && not (in_range b n p)
fit-free n low b [] p o e = refl
fit-free n low b ((c, m) ∷ hs) p (le, pos, top, o) e = elim (Bool-cases (leb n m)) [
  | inl t ↦ ground (arith, free_below (c + m * 4096) hs p o, e, t)
  | inr t ↦
      ground (arith, fit-free n (c + m * 4096) b hs p o, fit_above n (c + m * 4096) b hs o, e, t)
]

-- The pages of an allocation were free.
pub fit_was_free :
    (n low b : ℕ) (hs : List (ℕ × ℕ)) (p : ℕ)
    → Ordered low hs
    → first_fit n hs ≡ some b
    → in_range b n p ≡ true
    → free hs p ≡ true
fit_was_free n low b [] p o e r = absurd (ground arith)
fit_was_free n low b ((c, m) ∷ hs) p (le, pos, top, o) e r = elim (Bool-cases (leb n m)) [
  | inl t ↦ ground (arith, e, t, r)
  | inr t ↦ ground (arith, fit_was_free n (c + m * 4096) b hs p o (ground (arith, e, t)) r)
]
