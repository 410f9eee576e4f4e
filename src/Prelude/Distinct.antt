-- ===== src/Prelude/Distinct.antt =====
-- Lists of addresses in which none stands twice.
use Prim.{Unit, tt}
use zambesii.Prelude.{ℕ, ◌≡◌, refl, ◌≢◌, sym, List, [], ◌∷◌, ◌++◌, Option, none, some}

abbrev pub NotIn : ℕ → List ℕ → Type 0
NotIn a [] = Unit {0}
NotIn a (b ∷ xs) = (a ≢ b) × NotIn a xs

abbrev pub Distinct : List ℕ → Type 0
Distinct [] = Unit {0}
Distinct (a ∷ xs) = NotIn a xs × Distinct xs

abbrev pub last_or : ℕ → List ℕ → ℕ
last_or d [] = d
last_or d (a ∷ xs) = last_or a xs

abbrev pub last : List ℕ → Option ℕ
last [] = none
last (a ∷ xs) = some (last_or a xs)

pub NotIn-last : (x a : ℕ) (xs : List ℕ) → NotIn x (a ∷ xs) → x ≢ last_or a xs
NotIn-last x a [] (ne, _) = ne
NotIn-last x a (b ∷ xs) (_, away) = NotIn-last x b xs away

pub NotIn-append : (x a : ℕ) (xs : List ℕ) → NotIn x xs → x ≢ a → NotIn x (xs ++ a ∷ [])
NotIn-append x a [] away ne = (ne, tt)
NotIn-append x a (b ∷ xs) (e, away) ne = (e, NotIn-append x a xs away ne)

pub Distinct-append : (a : ℕ) (xs : List ℕ) → Distinct xs → NotIn a xs → Distinct (xs ++ a ∷ [])
Distinct-append a [] d away = (tt, tt)
Distinct-append a (b ∷ xs) (out, d) (ne, away) =
    (NotIn-append b a xs out (λ e. ne (sym e)), Distinct-append a xs d away)

pub NotIn-left : (x : ℕ) (xs ys : List ℕ) → NotIn x (xs ++ ys) → NotIn x xs
NotIn-left x [] ys away = tt
NotIn-left x (b ∷ xs) ys (ne, away) = (ne, NotIn-left x xs ys away)

pub NotIn-right : (x : ℕ) (xs ys : List ℕ) → NotIn x (xs ++ ys) → NotIn x ys
NotIn-right x [] ys away = away
NotIn-right x (b ∷ xs) ys (ne, away) = NotIn-right x xs ys away

pub NotIn-both : (x : ℕ) (xs ys : List ℕ) → NotIn x xs → NotIn x ys → NotIn x (xs ++ ys)
NotIn-both x [] ys left right = right
NotIn-both x (b ∷ xs) ys (ne, left) right = (ne, NotIn-both x xs ys left right)

pub Distinct-left : (xs ys : List ℕ) → Distinct (xs ++ ys) → Distinct xs
Distinct-left [] ys d = tt
Distinct-left (a ∷ xs) ys (away, d) = (NotIn-left a xs ys away, Distinct-left xs ys d)

pub Distinct-right : (xs ys : List ℕ) → Distinct (xs ++ ys) → Distinct ys
Distinct-right [] ys d = d
Distinct-right (a ∷ xs) ys (away, d) = Distinct-right xs ys d

-- An address in the middle stands nowhere else.
pub Distinct-middle : (xs : List ℕ) (a : ℕ) (ys : List ℕ) → Distinct (xs ++ a ∷ ys) → NotIn a xs
Distinct-middle [] a ys d = tt
Distinct-middle (b ∷ xs) a ys (away, d) =
    (λ e. (NotIn-right b xs (a ∷ ys) away).0 (sym e), Distinct-middle xs a ys d)

pub Distinct-without :
    (xs : List ℕ) (a : ℕ) (ys : List ℕ) → Distinct (xs ++ a ∷ ys) → Distinct (xs ++ ys)
Distinct-without [] a ys (_, d) = d
Distinct-without (b ∷ xs) a ys (away, d) = (
  NotIn-both b xs ys (NotIn-left b xs (a ∷ ys) away) (NotIn-right b xs (a ∷ ys) away).1,
  Distinct-without xs a ys d,
)

pub Distinct-with :
    (xs : List ℕ) (a : ℕ) (ys : List ℕ)
    → Distinct (xs ++ ys)
    → NotIn a (xs ++ ys)
    → Distinct (xs ++ a ∷ ys)
Distinct-with [] a ys d away = (away, d)
Distinct-with (b ∷ xs) a ys (out, d) (ne, away) = (
  NotIn-both b xs (a ∷ ys) (NotIn-left b xs ys out) (λ e. ne (sym e), NotIn-right b xs ys out),
  Distinct-with xs a ys d away,
)

-- The last address of the first part is not in the second.
pub Distinct-last : (a : ℕ) (xs ys : List ℕ) → Distinct (a ∷ xs ++ ys) → NotIn (last_or a xs) ys
Distinct-last a [] ys (away, _) = away
Distinct-last a (b ∷ xs) ys (_, d) = Distinct-last b xs ys d

pub last_or-append :
    (b : ℕ) (xs : List ℕ) (a : ℕ) (ys : List ℕ) → last_or b (xs ++ a ∷ ys) ≡ last_or a ys
last_or-append b [] a ys = refl
last_or-append b (c ∷ xs) a ys = last_or-append c xs a ys
