-- ===== src/VSwamp/Releases.antt =====
-- `VSwamp::findInsertionNode`: the place among the holes of pages that are given back.
use zambesii.Prelude.{
  ℕ, zero, suc, ◌≤◌, ◌<◌, ◌≡◌, refl, sym, ap, ◌∙◌, List, [], ◌∷◌, ◌++◌, none, some, length,
  append_snoc, arith, dec_lt,
}
use zambesii.Prelude.Distinct.{last_or-append}
use zambesii.Prelude.Result.{ok}
use zambesii.DoubleLinks.{first, last_from, Linked, Nexts-right}
use zambesii.VSwamp.{VSwamp, Insertion, insert_before, insert_after, find_insertion_node}

-- The nodes before and after the place of the address.
unfoldable pub Split : VSwamp → ℕ → List ℕ → List ℕ → Insertion → Type 0
Split s vaddr xs ys (insert_before a) = (zs : List ℕ) × (ys ≡ a ∷ zs) × (vaddr < s.base a)
Split s vaddr xs ys (insert_after alt) = (ys ≡ []) × (alt ≡ last_from none xs)

-- All holes of these nodes start at the address or below it.
abbrev pub AllBelow : VSwamp → ℕ → List ℕ → Type 0
AllBelow s vaddr [] = 0 ≤ 0
AllBelow s vaddr (a ∷ xs) = (s.base a ≤ vaddr) × AllBelow s vaddr xs

AllBelow-snoc :
    (s : VSwamp) (vaddr : ℕ) (xs : List ℕ) (a : ℕ)
    → AllBelow s vaddr xs
    → s.base a ≤ vaddr
    → AllBelow s vaddr (xs ++ a ∷ [])
AllBelow-snoc s vaddr [] a below le = (le, below)
AllBelow-snoc s vaddr (b ∷ xs) a (l, below) le = (l, AllBelow-snoc s vaddr xs a below le)

last_from-snoc : (xs : List ℕ) (a : ℕ) → last_from none (xs ++ a ∷ []) ≡ some a
last_from-snoc [] a = refl
last_from-snoc (b ∷ xs) a = ap some (last_or-append b xs a [])

-- The walk stops at the first hole above the address, or after the last hole.
pub find_insertion_node-Split :
    (s : VSwamp) (vaddr : ℕ) (xs ys : List ℕ) (fuel : ℕ)
    → Linked s.next s.prev s.head s.tail (xs ++ ys)
    → AllBelow s vaddr xs
    → length ys < fuel
    → (at : Insertion) × (xs' ys' : List ℕ) × (find_insertion_node s fuel
          (last_from none xs)
          (first none ys)
          vaddr
        ≡ ok at)
      × (xs ++ ys ≡ xs' ++ ys')
      × AllBelow s vaddr xs'
      × Split s vaddr xs' ys' at
unfolding find_insertion_node Split
find_insertion_node-Split s vaddr xs ys zero v below h = absurd (omega arith)
find_insertion_node-Split s vaddr xs [] (suc fuel) v below h =
    (insert_after (last_from none xs), xs, [], refl, refl, below, (refl, refl))
find_insertion_node-Split s vaddr xs (a ∷ ys) (suc fuel) v below h =
    elim (dec_lt vaddr (s.base a)) [
      | yes lt ↦ (insert_before a, xs, a ∷ ys, ground arith, refl, below, (ys, refl, lt))
      | no ge ↦
          let (at, xs', ys', run, same, below', split) =
            find_insertion_node-Split s vaddr (xs ++ a ∷ []) ys fuel (rw (append_snoc xs a ys) v)
              (AllBelow-snoc s vaddr xs a below (omega (arith, ge))) (omega (arith, h)) in
          (
            at,
            xs',
            ys',
            rw (Nexts-right s.next xs (a ∷ ys) none v.nexts).0 (
                ground (
                  arith,
                  ge,
                  ap (λ alt. find_insertion_node s fuel alt (first none ys) vaddr)
                        (sym (last_from-snoc xs a))
                      ∙ run,
                )),
            sym (append_snoc xs a ys) ∙ same,
            below',
            split,
          )
    ]
