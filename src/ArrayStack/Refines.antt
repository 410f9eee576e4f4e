-- ===== src/ArrayStack/Refines.antt =====
-- An `ArrayStack` against a list of items, the last pushed first.
use zambesii.Prelude.{
  ℕ, zero, suc, ◌+◌, ◌-◌, ◌≤◌, ◌<◌, ◌≡◌, refl, sym, ap, ◌∙◌, List, [], ◌∷◌, none, some, ◌==◌, ltb,
  if◌then◌else◌, length, length-set, get_or, set, get_or-set_self, get_or-set_ne, get_elem?-none,
  arith, dec_le, ℕ_discrete,
}
use zambesii.Prelude.Result.{Result, ok, fault, wild_access, Error, success, general, ◌>>=◌}
use zambesii.Prelude.Stacked.{items, length-items, items-set, items_of_ne_zero}
use zambesii.Bits.{write}
use zambesii.Bits.Arrays.{read-get_or, write-set}
use zambesii.ArrayStack.{ArrayStack, push, push2, pop, pop2}

pub record IsValid (s : ArrayStack) : Type 0 where
  pub bounded : s.depth ≤ s.n_items
  pub sized : length s.arr ≡ s.n_items

abbrev pub contents : ArrayStack → List ℕ
contents s = items s.arr s.depth

-- A call, and what it writes out, the first argument first.
pub data Op : Type 0 where
  pushes : ℕ → Op
  pushes2 : ℕ → ℕ → Op
  pops : Op
  pops2 : Op

pub step : ArrayStack → Op → Result (Error × List ℕ × ArrayStack)
step s (pushes a) = push s a >>= λ (e, s'). ok (e, [], s')
step s (pushes2 a b) = push2 s a b >>= λ (e, s'). ok (e, [], s')
step s pops = pop s >>= λ (e, out, s'). ok (e, elim out [ none ↦ [] | some a ↦ a ∷ [] ], s')
step s pops2 =
    pop2 s >>= λ (e, out, s'). ok (e, elim out [ none ↦ [] | some (a, b) ↦ a ∷ b ∷ [] ], s')

-- The stack of `n` items as a list: a push on `n` items is the wild access.
unfoldable pub spec_step : ℕ → List ℕ → Op → Result (Error × List ℕ × List ℕ)
spec_step n xs (pushes a) = if length xs == n then fault wild_access else ok (success, [], a ∷ xs)
spec_step n xs (pushes2 a b) =
    if ltb n (length xs + 2) then ok (general, [], xs) else ok (success, [], b ∷ a ∷ xs)
spec_step n [] pops = ok (general, [], [])
spec_step n (x ∷ xs) pops = ok (success, x ∷ [], xs)
spec_step n (y ∷ x ∷ z ∷ xs) pops2 = ok (success, x ∷ y ∷ [], z ∷ xs)
spec_step n xs pops2 = ok (general, [], xs)

-- Two runs of one call agree, and the next state is valid.
abbrev pub Agrees :
    ℕ → Result (Error × List ℕ × ArrayStack) → Result (Error × List ℕ × List ℕ) → Type 0
Agrees n (ok (e, out, s)) r = (r ≡ ok (e, out, contents s)) × (s.n_items ≡ n) × IsValid s
Agrees n (fault f) r = r ≡ fault f

write_past : (xs : List ℕ) (i v : ℕ) → length xs ≤ i → write xs i v ≡ fault wild_access
unfolding write
write_past xs i v h = rw (get_elem?-none xs i h, write) refl

spec_pops2_few : (n : ℕ) (xs : List ℕ) → length xs < 3 → spec_step n xs pops2 ≡ ok (general, [], xs)
unfolding spec_step
spec_pops2_few n [] h = refl
spec_pops2_few n (x ∷ []) h = refl
spec_pops2_few n (x ∷ y ∷ []) h = refl
spec_pops2_few n (x ∷ y ∷ z ∷ xs) h = absurd (omega arith)

spec_pops2_many :
    (n : ℕ) (arr : List ℕ) (d : ℕ)
    → 3 ≤ d
    → spec_step n (items arr d) pops2
      ≡ ok (success, get_or arr (d - 2) 0 ∷ get_or arr (d - 1) 0 ∷ [], items arr (d - 2))
unfolding spec_step
spec_pops2_many n arr zero h = absurd (omega arith)
spec_pops2_many n arr (suc zero) h = absurd (omega arith)
spec_pops2_many n arr (suc (suc zero)) h = absurd (omega arith)
spec_pops2_many n arr (suc (suc (suc d))) h =
    let two_less : suc (suc (suc d)) - 2 ≡ suc d = omega arith in
    let one_less : suc (suc (suc d)) - 1 ≡ suc (suc d) = omega arith in rw (two_less, one_less) refl

module _ {s : ArrayStack} (v : IsValid s) where
  push-Agrees :
      (a : ℕ) → Agrees s.n_items (step s (pushes a)) (spec_step s.n_items (contents s) (pushes a))
  unfolding step spec_step push
  push-Agrees a = elim (ℕ_discrete s.depth s.n_items) [
    | yes full ↦
        let stepped : push s a ≡ fault wild_access =
          ground (arith, write_past s.arr s.depth a (omega (arith, v.sized))) in
        rw stepped (ground (arith, length-items s.arr s.depth))
    | no room ↦
        let stepped : push s a
            ≡ ok (success, record s { arr = set s.arr s.depth a; depth = suc s.depth }) =
          ground (arith, write-set s.arr s.depth 0 (omega (arith, v.sized, v.bounded)) a) in
        rw stepped (
          ground (
            arith,
            length-items s.arr s.depth,
            get_or-set_self s.arr s.depth a 0 (omega (arith, v.sized, v.bounded)),
            items-set s.arr s.depth s.depth a (omega arith),
          ),
          refl,
          record {
            bounded = omega (arith, v.bounded);
            sized = ground (arith, length-set s.arr s.depth a, v.sized);
          },
        )
  ]

  push2-Agrees :
      (a b : ℕ)
      → Agrees s.n_items (step s (pushes2 a b)) (spec_step s.n_items (contents s) (pushes2 a b))
  unfolding step spec_step push2
  push2-Agrees a b = elim (dec_le (s.depth + 2) s.n_items) [
    | no full ↦
        let stepped : push2 s a b ≡ ok (general, s) = ground arith in
        rw stepped (ground (arith, length-items s.arr s.depth), refl, v)
    | yes room ↦
        let arr : List ℕ = set s.arr s.depth a in
        let sized : length arr ≡ s.n_items = omega (arith, length-set s.arr s.depth a, v.sized) in
        let first : write s.arr s.depth a ≡ ok arr =
          write-set s.arr s.depth 0 (omega (arith, v.sized)) a in
        let second : write arr (s.depth + 1) b ≡ ok (set arr (s.depth + 1) b) =
          write-set arr (s.depth + 1) 0 (omega (arith, sized)) b in
        let stepped : push2 s a b
            ≡ ok (success, record s { arr = set arr (s.depth + 1) b; depth = suc (suc s.depth) }) =
          ground (arith, first, second) in
        rw stepped (
          ground (
            arith,
            length-items s.arr s.depth,
            get_or-set_self arr (s.depth + 1) b 0 (omega (arith, sized)),
            get_or-set_ne arr (s.depth + 1) s.depth b 0 (λ e. absurd (omega (arith, e))),
            get_or-set_self s.arr s.depth a 0 (omega (arith, v.sized)),
            items-set s.arr s.depth s.depth a (omega arith),
            items-set arr s.depth (s.depth + 1) b (omega arith),
          ),
          refl,
          record {
            bounded = omega (arith, room);
            sized = ground (arith, length-set arr (s.depth + 1) b, sized);
          },
        )
  ]

  pop-Agrees : Agrees s.n_items (step s pops) (spec_step s.n_items (contents s) pops)
  unfolding step spec_step pop
  pop-Agrees = elim (ℕ_discrete s.depth 0) [
    | yes empty ↦
        let stepped : pop s ≡ ok (general, none, s) = ground arith in
        rw stepped (
          ap (λ (d : ℕ). spec_step s.n_items (items s.arr d) pops) empty
              ∙ ap (λ (d : ℕ). ok (general, [], items s.arr d)) (sym empty),
          refl,
          v,
        )
    | no some_left ↦
        let stepped : pop s
            ≡ ok (success, some (get_or s.arr (s.depth - 1) 0), record s { depth = s.depth - 1 }) =
          ground (arith, read-get_or s.arr (s.depth - 1) 0 (omega (arith, v.sized, v.bounded))) in
        rw stepped (
          rw (items_of_ne_zero s.arr s.depth some_left) refl,
          refl,
          record { bounded = omega (arith, v.bounded); sized = v.sized },
        )
  ]

  pop2-Agrees : Agrees s.n_items (step s pops2) (spec_step s.n_items (contents s) pops2)
  unfolding step pop2
  pop2-Agrees = elim (dec_le 3 s.depth) [
    | no few ↦
        let stepped : pop2 s ≡ ok (general, none, s) = ground arith in
        rw stepped (
          spec_pops2_few s.n_items (contents s) (omega (arith, length-items s.arr s.depth)),
          refl,
          v,
        )
    | yes many ↦
        let stepped : pop2 s
            ≡ ok (
              success,
              some (get_or s.arr (s.depth - 2) 0, get_or s.arr (s.depth - 1) 0),
              record s { depth = s.depth - 2 },
            ) =
          ground (
            arith,
            read-get_or s.arr (s.depth - 1) 0 (omega (arith, v.sized, v.bounded)),
            read-get_or s.arr (s.depth - 2) 0 (omega (arith, v.sized, v.bounded)),
          ) in
        rw stepped (
          spec_pops2_many s.n_items s.arr s.depth many,
          refl,
          record { bounded = omega (arith, v.bounded); sized = v.sized },
        )
  ]

step-Agrees :
    {s : ArrayStack} (v : IsValid s) (op : Op)
    → Agrees s.n_items (step s op) (spec_step s.n_items (contents s) op)
step-Agrees v (pushes a) = push-Agrees v a
step-Agrees v (pushes2 a b) = push2-Agrees v a b
step-Agrees v pops = pop-Agrees v
step-Agrees v pops2 = pop2-Agrees v

unfoldable pub run : ArrayStack → List Op → Result (List (Error × List ℕ))
run s [] = ok []
run s (op ∷ ops) = step s op >>= λ (e, out, s'). run s' ops >>= λ replies. ok ((e, out) ∷ replies)

unfoldable pub spec_run : ℕ → List ℕ → List Op → Result (List (Error × List ℕ))
spec_run n xs [] = ok []
spec_run n xs (op ∷ ops) =
    spec_step n xs op >>= λ (e, out, ys). spec_run n ys ops >>= λ replies. ok ((e, out) ∷ replies)

replies_agree :
    (n : ℕ) (ops : List Op) (r : Result (Error × List ℕ × ArrayStack))
    (r' : Result (Error × List ℕ × List ℕ))
    → Agrees n r r'
    → ((s : ArrayStack) → IsValid s → run s ops ≡ spec_run s.n_items (contents s) ops)
    → (r >>= λ (e, out, s'). run s' ops >>= λ replies. ok ((e, out) ∷ replies))
      ≡ (r' >>= λ (e, out, ys). spec_run n ys ops >>= λ replies. ok ((e, out) ∷ replies))
replies_agree n ops (ok (e, out, s)) r' (same, size, v) later =
    rw same (rw (later s v) (rw size refl))
replies_agree n ops (fault f) r' same later = rw same refl

-- Any sequence of calls on an `ArrayStack` of `n` items within its bounds replies as a list does that
-- refuses a `push2` past `n` items, and a `pop2` of fewer than three, and on which a `push` on `n`
-- items writes past the array.
pub run_agrees :
    (s : ArrayStack) → IsValid s → (ops : List Op) → run s ops ≡ spec_run s.n_items (contents s) ops
unfolding run spec_run
run_agrees s v [] = refl
run_agrees s v (op ∷ ops) =
    replies_agree s.n_items ops (step s op) (spec_step s.n_items (contents s) op) (step-Agrees v op)
      (λ s' w. run_agrees s' w ops)
