-- ===== src/Prelude/Result.antt =====
-- How a call of the kernel ends: normally, in the panic of a failed `assert_fatal`
-- (__kcore/include/__kstdlib/__kclib/assert.h), or with an access outside of an array, which C++
-- leaves undefined. `no_rounds` is the model's own: a loop that was given too few rounds. The error codes are those of __kcore/include/__kstdlib/__kerror.h.
use Prim.Native.Nat.{ℕ}
use mathlib.Core.Path.{◌≡◌, refl}
use mathlib.Core.Bool.{Bool, true, false}

pub data Fault : Type 0 where
  panic wild_access no_rounds : Fault

pub data Result {ℓ} (A : Type ℓ) : Type ℓ where
  ok : A → Result A
  fault : Fault → Result A

-- `error_t`; `success` is 0, the others are negative.
pub data Error : Type 0 where
  success general fatal invalid_arg invalid_arg_val memory_nomem memory_nomem_physical : Error
  not_found limit_overflowed unimplemented unknown duplicate : Error

-- `status_t`: a count or an index when it is not negative, else an error.
pub data Status : Type 0 where
  value : ℕ → Status
  failed : Error → Status

infixl 5 ◌>>=◌
abbrev pub ◌>>=◌ {ℓ κ} : {A : Type ℓ} {B : Type κ} → Result A → (A → Result B) → Result B
ok a >>= f = f a
fault e >>= f = fault e

-- Two steps on the value of a run are one.
pub bind_ok {ℓ κ μ} :
    {A : Type ℓ} {B : Type κ} {C : Type μ} (r : Result A) (f : A → B) (g : B → C)
    → ((r >>= λ x. ok (f x)) >>= λ y. ok (g y)) ≡ (r >>= λ x. ok (g (f x)))
bind_ok (ok a) f g = refl
bind_ok (fault e) f g = refl

abbrev pub assert_fatal {ℓ} : {A : Type ℓ} → Bool → Result A → Result A
assert_fatal true next = next
assert_fatal false next = fault panic

-- `== ERROR_SUCCESS`
abbrev pub is_success : Error → Bool
is_success success = true
is_success _ = false
