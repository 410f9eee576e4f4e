-- ===== src/VSwamp/Frees.antt =====
-- What `VSwamp::releasePages` makes free.
use Prim.{tt}
use zambesii.Prelude.{
  ℕ, ◌+◌, ◌*◌, ◌%◌, ◌^◌, ◌≤◌, ◌<◌, ◌≡◌, ◌≢◌, refl, ap, ◌∙◌, List, [], ◌∷◌, ◌++◌, ◌||◌, Option, none,
  some, length, append_nil, append_snoc, snoc_cases, arith, add_uarch, ℕ_discrete, ◌⊎◌, inl, inr,
}
use zambesii.Prelude.Put.{put_same, put_other}
use zambesii.Prelude.Distinct.{NotIn, Distinct-right}
use zambesii.Prelude.Result.{ok}
use zambesii.DoubleLinks.{last_from, Linked, Prevs-right}
use zambesii.VSwamp.{
  VSwamp, bytes, Insertion, insert_before, insert_after, find_insertion_node, join_previous,
  release_before, release_at, release_pages,
}
use zambesii.VSwamp.Holes.{in_range, free, Ordered, holes, holes-append}
use zambesii.VSwamp.Gets.{Links}
use zambesii.VSwamp.Releases.{Split, AllBelow, find_insertion_node-Split}
use zambesii.VSwamp.Ranges.{Allocated, StartBelow, StartAbove, insert-Ordered}
use zambesii.VSwamp.Relinks.{
  last_from-append, release_before-with, release_after-with, grown, release_before-grown,
  join_previous-joined, join_previous-apart, join_previous-none,
}
use zambesii.VSwamp.Joins.{
  Freed, Ordered-at, with-Freed, grown-Freed, joined-Freed, holes-snoc, Place,
}

touch_at :
    {b b' k k' v v' : ℕ}
    → b' ≡ b
    → k' ≡ k
    → v' ≡ v
    → add_uarch b' (bytes k') ≡ v'
    → b + k * 4096 ≤ 2 ^ 32
    → 0 < v
    → v ≡ b + k * 4096
touch_at eb ek ev t top pos = ground arith

-- A hole that starts where the pages end takes them in, and the hole before where that one touches.
grown_previous-Freed :
    (s : VSwamp) (v n a : ℕ) (xs ys : List ℕ)
    → Place s v n xs (a ∷ ys)
    → s.base a ≡ v + n * 4096
    → (xs ≡ []) ⊎ ((us : List ℕ) × (b : ℕ) × (xs ≡ us ++ b ∷ []))
    → Freed s v n (xs ++ a ∷ ys) (join_previous (grown s a v n) a (last_from none xs))
grown_previous-Freed s v n a xs ys g e (inl nil) =
    rw (ap (last_from none) nil, join_previous-none (grown s a v n) a)
      (grown-Freed s v n a xs ys g e)
grown_previous-Freed s v n a xs ys g e (inr (us, b, snoc)) =
    let z : VSwamp = grown s a v n in
    let h : Place s v n (us ++ b ∷ []) (a ∷ ys) = rw⁻¹ snoc g in
    let l : Linked s.next s.prev s.head s.tail (us ++ b ∷ a ∷ ys) =
      rw⁻¹ (append_snoc us b (a ∷ ys)) h.links in
    let a_b : b ≢ a = (Distinct-right us (b ∷ a ∷ ys) l.distinct).0.0 in
    let o : Ordered 0 (
        holes s.base s.n_pages us
        ++ (s.base b, s.n_pages b) ∷ (v, n) ∷ (s.base a, s.n_pages a) ∷ holes s.base s.n_pages ys) =
      rw⁻¹ (holes-snoc s us b ((v, n) ∷ holes s.base s.n_pages (a ∷ ys))) h.put_back in
    rw (ap (last_from none) snoc, last_from-append us b [])
      (elim (ℕ_discrete (add_uarch (z.base b) (bytes (z.n_pages b))) (z.base a)) [
        | no ne ↦ rw (join_previous-apart z b a ne) (grown-Freed s v n a xs ys g e)
        | yes t ↦
            rw (join_previous-joined z us b a ys l t, snoc, append_snoc us b (a ∷ ys))
              (joined-Freed s v n a b us ys l o e (
                touch_at (put_other s.base a b v a_b)
                  (put_other s.n_pages a b (add_uarch (s.n_pages a) n) a_b) (put_same s.base a v) t
                  (Ordered-at 0 (holes s.base s.n_pages us) (s.base b) (s.n_pages b) _ o)
                  g.nonzero))
      ])

release_before-Freed :
    (s : VSwamp) (v n c a : ℕ) (xs ys : List ℕ)
    → Place s v n xs (a ∷ ys)
    → NotIn c (xs ++ a ∷ ys)
    → v < s.base a
    → Freed s v n (xs ++ a ∷ ys) (release_before s a v n (some c))
release_before-Freed s v n c a xs ys g away lt =
    elim (ℕ_discrete (add_uarch v (bytes n)) (s.base a)) [
      | no ne ↦
          rw (release_before-with s xs a ys v n c g.links ne)
            (with-Freed s v n c xs (a ∷ ys) g away)
      | yes e ↦
          rw
            (
              release_before-grown s a v n (some c) e,
              (Prevs-right s.prev none xs (a ∷ ys) g.links.prevs).0,
            )
            (grown_previous-Freed s v n a xs ys g (ground (arith, e, lt, g.top)) (snoc_cases xs))
    ]

release_after-Freed :
    (s : VSwamp) (v n c : ℕ) (xs : List ℕ)
    → Place s v n xs []
    → NotIn c (xs ++ [])
    → xs ≢ []
    → Freed s v n (xs ++ []) (release_at s v n (some c) (insert_after (last_from none xs)))
release_after-Freed s v n c [] g away some_hole = absurd (some_hole refl)
release_after-Freed s v n c (b ∷ xs) g away some_hole =
    rw (release_after-with s b xs v n c (rw⁻¹ (append_nil (b ∷ xs)) g.links))
      (with-Freed s v n c (b ∷ xs) [] g away)

release_at-Freed :
    (s : VSwamp) (v n c : ℕ) (xs ys : List ℕ) (at : Insertion)
    → Place s v n xs ys
    → NotIn c (xs ++ ys)
    → Split s v xs ys at
    → xs ++ ys ≢ []
    → Freed s v n (xs ++ ys) (release_at s v n (some c) at)
unfolding Split
release_at-Freed s v n c xs [] (insert_after alt) g away (nil, last) some_hole =
    rw last (release_after-Freed s v n c xs g away (λ e. some_hole (append_nil xs ∙ e)))
release_at-Freed s v n c xs (b ∷ ys) (insert_after alt) g away (nil, last) some_hole =
    absurd (ground arith)
release_at-Freed s v n c xs ys (insert_before a) g away (zs, e, lt) some_hole =
    rw e (release_before-Freed s v n c a xs zs (rw⁻¹ e g) (rw⁻¹ e away) lt)

holes-StartBelow :
    (s : VSwamp) (v : ℕ) (xs : List ℕ) → AllBelow s v xs → StartBelow v (holes s.base s.n_pages xs)
holes-StartBelow s v [] below = tt
holes-StartBelow s v (a ∷ xs) (le, below) = (le, holes-StartBelow s v xs below)

Split-StartAbove :
    (s : VSwamp) (v : ℕ) (xs ys : List ℕ) (at : Insertion)
    → Split s v xs ys at
    → StartAbove v (holes s.base s.n_pages ys)
unfolding Split
Split-StartAbove s v xs ys (insert_after alt) (nil, last) = rw nil tt
Split-StartAbove s v xs ys (insert_before a) (zs, e, lt) = rw e lt

release_pages_at :
    (s : VSwamp) (fuel : ℕ) {v n : ℕ} (alloc : Option ℕ) {at : Insertion}
    → 0 < v
    → v % 4096 ≡ 0
    → 0 < n
    → find_insertion_node s fuel none s.head v ≡ ok at
    → release_pages s fuel v n alloc ≡ ok (release_at s v n alloc at)
unfolding release_pages
release_pages_at s fuel alloc nonzero aligned full e = ground (arith, e)

-- `releasePages` of at least one page, none of them free, from an aligned address other than NULL on
-- and below 2 ^ 32, where a hole is left and the allocator has a node that is not linked, ends with
-- one round more than there are holes. It makes exactly these pages free, and the holes stay linked,
-- in order and apart.
pub release_pages_frees :
    {s : VSwamp} {xs : List ℕ} (fuel v n c : ℕ)
    → Links s xs
    → xs ≢ []
    → length xs < fuel
    → 0 < v
    → v % 4096 ≡ 0
    → 0 < n
    → v + n * 4096 ≤ 2 ^ 32
    → Allocated v n (holes s.base s.n_pages xs)
    → NotIn c xs
    → (s' : VSwamp) × (ys : List ℕ) × (release_pages s fuel v n (some c) ≡ ok s')
      × Links s' ys
      × ((p : ℕ)
          → free (holes s'.base s'.n_pages ys) p
            ≡ free (holes s.base s.n_pages xs) p || in_range v n p)
unfolding release_pages Freed
release_pages_frees {s = s} {xs = xs} fuel v n c links some_hole h nonzero aligned full top out
      away =
    let (at, us, ys, run, same, below, split) =
      find_insertion_node-Split s v [] xs fuel links.links (omega arith) h in
    let apart : holes s.base s.n_pages xs ≡ holes s.base s.n_pages us ++ holes s.base s.n_pages ys =
      ap (holes s.base s.n_pages) same ∙ holes-append s.base s.n_pages us ys in
    let place : Place s v n us ys = record {
      links = rw⁻¹ same links.links;
      put_back =
          insert-Ordered v n 0 (holes s.base s.n_pages us) (holes s.base s.n_pages ys) full top
            (omega arith) (rw⁻¹ apart links.ordered) (holes-StartBelow s v us below)
            (Split-StartAbove s v us ys at split) (rw⁻¹ apart out);
      nonzero = nonzero;
      full = full;
      top = top;
    } in
    let (ys', links', all) : Freed s v n xs (release_at s v n (some c) at) = rw same (
      release_at-Freed s v n c us ys at place (rw⁻¹ same away) split (λ e. some_hole (same ∙ e))) in
    (
      release_at s v n (some c) at,
      ys',
      (release_pages_at s fuel (some c) nonzero aligned full
          (ap (λ p. find_insertion_node s fuel none p v) links.links.head_first ∙ run)),
      links',
      all,
    )
