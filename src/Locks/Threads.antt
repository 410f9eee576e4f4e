-- ===== src/Locks/Threads.antt =====
-- Threads by number, and how much all of them add up to.
use zambesii.Prelude.{ℕ, ◌*◌, zero, suc, ◌+◌, ◌≤◌, ◌<◌, ◌≡◌, ◌≢◌, refl, arith, ℕ_discrete}
pub use zambesii.Prelude.Put.{put, put_same, put_other}

module _ {ℓ} {A : Type ℓ} (weight : A → ℕ) where
  pub total : ℕ → (ℕ → A) → ℕ
  total zero f = 0
  total (suc n) f = weight (f n) + total n f

  -- Only the threads below `n` count.
  total_same : (n : ℕ) (f g : ℕ → A) → ((j : ℕ) → j < n → f j ≡ g j) → total n f ≡ total n g
  unfolding total
  total_same zero f g same = refl
  total_same (suc n) f g same =
      rw (same n (omega arith), total_same n f g (λ j below. same j (omega (arith, below)))) refl

  -- A thread that changes takes its old weight out and puts the new one in.
  pub total-put :
      (n : ℕ) (f : ℕ → A) (i : ℕ) (a : A)
      → i < n
      → total n (put f i a) + weight (f i) ≡ total n f + weight a
  unfolding total
  total-put zero f i a h = absurd (omega arith)
  total-put (suc n) f i a h = elim (ℕ_discrete n i) [
    | yes e ↦
        let rest : total n (put f i a) ≡ total n f =
          total_same n (put f i a) f (λ j below. put_other f i j a (omega (arith, below, e))) in
        rw e (ground (arith, rest, e))
    | no ne ↦ rw (put_other f i n a ne) (omega (arith, total-put n f i a (omega (arith, h, ne))))
  ]

  pub weight-le-total : (n : ℕ) (f : ℕ → A) (i : ℕ) → i < n → weight (f i) ≤ total n f
  unfolding total
  weight-le-total zero f i h = absurd (omega arith)
  weight-le-total (suc n) f i h = elim (ℕ_discrete i n) [
    | yes e ↦ ground arith
    | no ne ↦ omega (arith, weight-le-total n f i (omega arith))
  ]

  pub two_weights-le-total :
      (n : ℕ) (f : ℕ → A) (i j : ℕ)
      → i < n
      → j < n
      → i ≢ j
      → weight (f i) + weight (f j) ≤ total n f
  unfolding total
  two_weights-le-total zero f i j h k ne = absurd (omega arith)
  two_weights-le-total (suc n) f i j h k ne = elim (ℕ_discrete i n) [
    | yes e ↦ ground (arith, weight-le-total n f j (omega arith))
    | no i_below ↦ elim (ℕ_discrete j n) [
      | yes e ↦ ground (arith, weight-le-total n f i (omega arith))
      | no j_below ↦ omega (arith, two_weights-le-total n f i j (omega arith) (omega arith) ne)
    ]
  ]

  pub total-le-times : (k n : ℕ) (f : ℕ → A) → ((i : ℕ) → weight (f i) ≤ k) → total n f ≤ n * k
  unfolding total
  total-le-times k zero f each = omega arith
  total-le-times k (suc n) f each = ground (arith, each n, total-le-times k n f each)

  -- A system whose threads all stand where they weigh nothing.
  pub total_still : (n : ℕ) (a : A) → weight a ≡ 0 → total n (λ i. a) ≡ 0
  total_still n a e = omega (arith, total-le-times 0 n (λ i. a) (λ i. omega (arith, e)))

-- A smaller weight of each thread gives a smaller total.
pub total_mono {ℓ} :
    {A : Type ℓ} (v w : A → ℕ)
    → ((a : A) → v a ≤ w a)
    → (n : ℕ) (f : ℕ → A) → total v n f ≤ total w n f
unfolding total
total_mono v w h zero f = omega arith
total_mono v w h (suc n) f = omega (arith, h (f n), total_mono v w h n f)
