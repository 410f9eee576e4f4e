-- ===== src/VSwamp/Gets.antt =====
-- `VSwamp::getPages`: the first hole with enough pages gives them.
use zambesii.Prelude.{
  ℕ, zero, suc, ◌+◌, ◌-◌, ◌*◌, ◌^◌, ◌≤◌, ◌<◌, ◌≡◌, ◌≢◌, refl, sym, ap, ◌∙◌, List, [], ◌∷◌, ◌++◌,
  true, ◌&&◌, not, Option, none, some, if◌then◌else◌, length, append_nil, append_snoc, arith,
  add_uarch, dec_le, ℕ_discrete,
}
use zambesii.Prelude.Put.{put, put_at, put_same}
use zambesii.Prelude.Distinct.{
  NotIn, last_or-append, NotIn-last, NotIn-both, Distinct-right, Distinct-middle,
}
use zambesii.Prelude.Result.{ok}
use zambesii.DoubleLinks.{first, last_from, Linked, Nexts-right, Prevs-right}
use zambesii.DoubleLinks.Relink.{unlink-Linked}
use zambesii.VSwamp.{VSwamp, bytes, is_node, delete_swamp_node, take_pages, get_from, get_pages}
use zambesii.VSwamp.Holes.{
  in_range, free, Ordered, holes, holes-append, holes-put, first_fit, fit, fit-Ordered, fit-free,
  fit_was_free,
}

-- The swamp links the nodes at these addresses, and their holes are in order.
pub record Links (s : VSwamp) (xs : List ℕ) : Type 0 where
  pub links : Linked s.next s.prev s.head s.tail xs
  pub ordered : Ordered 0 (holes s.base s.n_pages xs)

-- The ends of the list without the node `a`.
new_head :
    (s : VSwamp) (xs : List ℕ) (a : ℕ) (ys : List ℕ)
    → Linked s.next s.prev s.head s.tail (xs ++ a ∷ ys)
    → (if is_node s.head a then s.next a else s.head) ≡ first none (xs ++ ys)
new_head s [] a ys v = rw (v.head_first, v.nexts.0) (ground arith)
new_head s (b ∷ xs) a ys v =
    rw v.head_first (ground (arith, Distinct-middle (b ∷ xs) a ys v.distinct))

new_tail :
    (s : VSwamp) (xs : List ℕ) (a : ℕ) (ys : List ℕ)
    → Linked s.next s.prev s.head s.tail (xs ++ a ∷ ys)
    → (if is_node s.tail a then s.prev a else s.tail) ≡ last_from none (xs ++ ys)
new_tail s [] a [] v = rw (v.tail_last, v.prevs.0) (ground arith)
new_tail s [] a (c ∷ ys) v = rw v.tail_last (ground (arith, NotIn-last a c ys v.distinct.0))
new_tail s (b ∷ xs) a [] v =
    rw
      (
        v.tail_last,
        last_or-append b xs a [],
        append_nil xs,
        (Prevs-right s.prev none (b ∷ xs) (a ∷ []) v.prevs).0,
      )
      (ground arith)
new_tail s (b ∷ xs) a (c ∷ ys) v =
    rw (v.tail_last, last_or-append b xs a (c ∷ ys), last_or-append b xs c ys)
      (ground (arith, NotIn-last a c ys (Distinct-right (b ∷ xs) (a ∷ c ∷ ys) v.distinct).0))

-- The swamp after the pages of the node `a`, all of them, are taken.
abbrev without : VSwamp → ℕ → List ℕ → ℕ → List ℕ → VSwamp
without s n xs a ys = record s {
  n_pages = put s.n_pages a (s.n_pages a - n);
  base = put s.base a (add_uarch (s.base a) (bytes n));
  next = put_at s.next (last_from none xs) (first none ys);
  prev = put_at s.prev (first none ys) (last_from none xs);
  head = first none (xs ++ ys);
  tail = last_from none (xs ++ ys);
}

take_pages-without :
    (s : VSwamp) (n : ℕ) (xs : List ℕ) (a : ℕ) (ys : List ℕ)
    → Linked s.next s.prev s.head s.tail (xs ++ a ∷ ys)
    → s.n_pages a - n ≡ 0
    → take_pages s n a ≡ without s n xs a ys
unfolding take_pages delete_swamp_node
take_pages-without s n xs a ys v z =
    rw
      (
        new_head s xs a ys v,
        new_tail s xs a ys v,
        (Nexts-right s.next xs (a ∷ ys) none v.nexts).0,
        (Prevs-right s.prev none xs (a ∷ ys) v.prevs).0,
        z,
      )
      refl

take_pages-rest :
    (s : VSwamp) (n a : ℕ)
    → s.n_pages a - n ≢ 0
    → take_pages s n a ≡ record s {
      n_pages = put s.n_pages a (s.n_pages a - n);
      base = put s.base a (add_uarch (s.base a) (bytes n));
    }
unfolding take_pages
take_pages-rest s n a nz = ground arith

-- What a walk from the nodes `ys` on leaves, behind the nodes `xs`.
Walked : VSwamp → ℕ → List ℕ → List ℕ → Option ℕ × VSwamp → Type 0
Walked s n xs ys (reply, s') =
    (reply ≡ first_fit n (holes s.base s.n_pages ys))
    × (zs : List ℕ) × Linked s'.next s'.prev s'.head s'.tail zs
    × (holes s'.base s'.n_pages zs ≡ holes s.base s.n_pages xs ++ fit n (holes s.base s.n_pages ys))

fit_all : (n b m : ℕ) (hs : List (ℕ × ℕ)) → n ≤ m → m - n ≡ 0 → fit n ((b, m) ∷ hs) ≡ hs
fit_all n b m hs le z = ground arith

fit_rest :
    (n b m : ℕ) (hs : List (ℕ × ℕ))
    → n ≤ m
    → m - n ≢ 0
    → b + m * 4096 ≤ 2 ^ 32
    → fit n ((b, m) ∷ hs) ≡ (add_uarch b (bytes n), m - n) ∷ hs
fit_rest n b m hs le nz top = ground arith

first_fit_here : (n b m : ℕ) (hs : List (ℕ × ℕ)) → n ≤ m → some b ≡ first_fit n ((b, m) ∷ hs)
first_fit_here n b m hs le = ground arith

take_pages-Walked :
    (s : VSwamp) (n : ℕ) (xs : List ℕ) (a : ℕ) (ys : List ℕ)
    → Linked s.next s.prev s.head s.tail (xs ++ a ∷ ys)
    → s.base a + s.n_pages a * 4096 ≤ 2 ^ 32
    → n ≤ s.n_pages a
    → Walked s n xs (a ∷ ys) (some (s.base a), take_pages s n a)
unfolding Walked
take_pages-Walked s n xs a ys v top enough =
    let m : ℕ = s.n_pages a in
    let hs : List (ℕ × ℕ) = holes s.base s.n_pages ys in
    let b : ℕ = add_uarch (s.base a) (bytes n) in
    let out : NotIn a xs = Distinct-middle xs a ys v.distinct in
    let out' : NotIn a ys = (Distinct-right xs (a ∷ ys) v.distinct).0 in
    elim (ℕ_discrete (m - n) 0) [
      | yes z ↦ rw (take_pages-without s n xs a ys v z) (
        first_fit_here n (s.base a) m hs enough,
        xs ++ ys,
        unlink-Linked xs a ys v,
        holes-put s.base s.n_pages a b (m - n) (xs ++ ys) (NotIn-both a xs ys out out')
            ∙ holes-append s.base s.n_pages xs ys
            ∙ ap (λ hs. holes s.base s.n_pages xs ++ hs) (sym (fit_all n (s.base a) m hs enough z)),
      )
      | no nz ↦ rw (take_pages-rest s n a nz) (
        first_fit_here n (s.base a) m hs enough,
        xs ++ a ∷ ys,
        v,
        rw
            (
              holes-append (put s.base a b) (put s.n_pages a (m - n)) xs (a ∷ ys),
              holes-put s.base s.n_pages a b (m - n) xs out,
              holes-put s.base s.n_pages a b (m - n) ys out',
              put_same s.base a b,
              put_same s.n_pages a (m - n),
            )
            (ap (λ hs. holes s.base s.n_pages xs ++ hs)
              (sym (fit_rest n (s.base a) m hs enough nz top))),
      )
    ]

first_fit_past :
    (n b m : ℕ) (hs : List (ℕ × ℕ)) → ¬ (n ≤ m) → first_fit n hs ≡ first_fit n ((b, m) ∷ hs)
first_fit_past n b m hs few = ground arith

fit_past :
    (s : VSwamp) (n : ℕ) (xs : List ℕ) (a : ℕ) (ys : List ℕ)
    → ¬ (n ≤ s.n_pages a)
    → holes s.base s.n_pages (xs ++ a ∷ []) ++ fit n (holes s.base s.n_pages ys)
      ≡ holes s.base s.n_pages xs ++ fit n (holes s.base s.n_pages (a ∷ ys))
fit_past s n xs a ys few =
    let rest : List (ℕ × ℕ) = fit n (holes s.base s.n_pages ys) in
    ap (λ hs. hs ++ rest) (holes-append s.base s.n_pages xs (a ∷ []))
    ∙ append_snoc (holes s.base s.n_pages xs) (s.base a, s.n_pages a) rest
    ∙ ap (λ hs. holes s.base s.n_pages xs ++ hs) (ground arith)

get_from-Walked :
    (s : VSwamp) (n low : ℕ) (xs ys : List ℕ) (fuel : ℕ)
    → Linked s.next s.prev s.head s.tail (xs ++ ys)
    → Ordered low (holes s.base s.n_pages ys)
    → length ys < fuel
    → (r : Option ℕ × VSwamp) × (get_from s fuel (first none ys) n ≡ ok r) × Walked s n xs ys r
unfolding get_from Walked
get_from-Walked s n low xs ys zero v o h = absurd (omega arith)
get_from-Walked s n low xs [] (suc fuel) v o h =
    ((none, s), refl, (refl, xs ++ [], v, holes-append s.base s.n_pages xs []))
get_from-Walked s n low xs (a ∷ ys) (suc fuel) v (le, pos, top, o) h =
    let hs : List (ℕ × ℕ) = holes s.base s.n_pages ys in
    elim (dec_le n (s.n_pages a)) [
      | yes enough ↦ (
        (some (s.base a), take_pages s n a),
        ground arith,
        take_pages-Walked s n xs a ys v top enough,
      )
      | no few ↦
          let ((reply, s'), run, w) =
            get_from-Walked s n (s.base a + s.n_pages a * 4096) (xs ++ a ∷ []) ys fuel
              (rw (append_snoc xs a ys) v) o (omega (arith, h)) in
          (
            (reply, s'),
            rw (Nexts-right s.next xs (a ∷ ys) none v.nexts).0 (ground (arith, run, few)),
            (
              w.0 ∙ first_fit_past n (s.base a) (s.n_pages a) hs few,
              w.1,
              w.2,
              w.3 ∙ fit_past s n xs a ys few,
            ),
          )
    ]

-- `getPages` ends, with one round more than there are holes, and keeps the links of the holes and
-- their order. Its reply and the holes after it are those of a first fit on the list of holes: the
-- first one with enough pages gives them, and the reply is NULL if none has. The pages that it
-- returns were free before, and they and no other ones are not free after.
pub get_pages_refines :
    {s : VSwamp} {xs : List ℕ} (fuel n : ℕ)
    → Links s xs
    → length xs < fuel
    → (reply : Option ℕ) × (s' : VSwamp) × (ys : List ℕ) × (get_pages s fuel n ≡ ok (reply, s'))
      × Links s' ys
      × (reply ≡ first_fit n (holes s.base s.n_pages xs))
      × (holes s'.base s'.n_pages ys ≡ fit n (holes s.base s.n_pages xs))
      × ((b p : ℕ)
          → reply ≡ some b
          → (free (holes s'.base s'.n_pages ys) p
              ≡ free (holes s.base s.n_pages xs) p && not (in_range b n p))
            × (in_range b n p ≡ true → free (holes s.base s.n_pages xs) p ≡ true))
unfolding get_pages Walked
get_pages_refines {s = s} {xs = xs} fuel n v h =
    let hs : List (ℕ × ℕ) = holes s.base s.n_pages xs in
    let ((reply, s'), run, (first, ys, links, same)) =
      get_from-Walked s n 0 [] xs fuel v.links v.ordered h in
    (
      reply,
      s',
      ys,
      ap (λ p. get_from s fuel p n) v.links.head_first ∙ run,
      record { links = links; ordered = rw same (fit-Ordered n 0 hs v.ordered) },
      first,
      same,
      λ b p e. (
        ap (λ hs'. free hs' p) same ∙ fit-free n 0 b hs p v.ordered (sym first ∙ e),
        fit_was_free n 0 b hs p v.ordered (sym first ∙ e),
      ),
    )
