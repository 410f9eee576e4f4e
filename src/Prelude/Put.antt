-- ===== src/Prelude/Put.antt =====
-- A function changed at one place: the threads by number, and the fields of the nodes by address.
use zambesii.Prelude.{ℕ, ◌≡◌, ◌≢◌, ◌==◌, if◌then◌else◌, arith, Option, none, some}

module _ {ℓ} {A : Type ℓ} where
  abbrev pub put : (ℕ → A) → ℕ → A → ℕ → A
  put f i a j = if j == i then a else f j

  pub put_same : (f : ℕ → A) (i : ℕ) (a : A) → put f i a i ≡ a
  put_same f i a = ground arith

  pub put_other : (f : ℕ → A) (i j : ℕ) (a : A) → j ≢ i → put f i a j ≡ f j
  put_other f i j a h = ground arith

  -- A write through a pointer that is tested against NULL first.
  abbrev pub put_at : (ℕ → A) → Option ℕ → A → ℕ → A
  put_at f none a = f
  put_at f (some i) a = put f i a

-- A second write of the same value at the same place changes nothing.
pub put-put : {A : Type 0} (f : ℕ → A) (i : ℕ) (a : A) → put (put f i a) i a ≡ put f i a
put-put f i a = λ t j. at j t
  where
    at : (j : ℕ) → put (put f i a) i a j ≡ put f i a j
    at j = ground arith
