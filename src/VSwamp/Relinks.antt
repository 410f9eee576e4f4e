-- ===== src/VSwamp/Relinks.antt =====
-- The nodes after `VSwamp::releasePages`: a new node, or a hole that grows and takes in the one before.
use zambesii.Prelude.{
  ℕ, ◌≡◌, ◌≢◌, refl, ap, ◌∙◌, List, [], ◌∷◌, ◌++◌, Option, none, some, if◌then◌else◌, arith,
  add_uarch,
}
use zambesii.Prelude.Put.{put, put_at, put_same}
use zambesii.Prelude.Distinct.{NotIn, last_or, last_or-append, Distinct-middle}
use zambesii.DoubleLinks.{first, last_from, Linked, Nexts-right, Prevs-right}
use zambesii.VSwamp.{
  VSwamp, bytes, is_node, delete_swamp_node, new_swamp_node, join_previous, release_before,
  release_after,
}
use zambesii.VSwamp.Holes.{holes, holes-append, holes-put}

-- A hole between others.
pub holes-middle :
    (base n_pages : ℕ → ℕ) (xs : List ℕ) (a : ℕ) (ys : List ℕ) (v n : ℕ)
    → NotIn a xs
    → NotIn a ys
    → holes (put base a v) (put n_pages a n) (xs ++ a ∷ ys)
      ≡ holes base n_pages xs ++ (v, n) ∷ holes base n_pages ys
holes-middle base n_pages xs a ys v n out out' =
    rw
      (
        holes-append (put base a v) (put n_pages a n) xs (a ∷ ys),
        holes-put base n_pages a v n xs out,
        holes-put base n_pages a v n ys out',
        put_same base a v,
        put_same n_pages a n,
      )
      refl

-- The swamp with a new node between the nodes `xs` and `ys`.
abbrev pub with : VSwamp → List ℕ → ℕ → List ℕ → ℕ → ℕ → VSwamp
with s xs c ys v n = record s {
  base = put s.base c v;
  n_pages = put s.n_pages c n;
  next = put_at (put s.next c (first none ys)) (last_from none xs) (some c);
  prev = put_at (put s.prev c (last_from none xs)) (first none ys) (some c);
  head = first none (xs ++ c ∷ ys);
  tail = last_from none (xs ++ c ∷ ys);
}

pub last_from-append :
    (xs : List ℕ) (a : ℕ) (ys : List ℕ) → last_from none (xs ++ a ∷ ys) ≡ some (last_or a ys)
last_from-append [] a ys = refl
last_from-append (b ∷ xs) a ys = ap some (last_or-append b xs a ys)

head_with :
    (s : VSwamp) (xs : List ℕ) (c a : ℕ) (ys : List ℕ)
    → s.head ≡ first none (xs ++ a ∷ ys)
    → elim (last_from none xs) [ none ↦ some c | some p ↦ s.head ] ≡ first none (xs ++ c ∷ a ∷ ys)
head_with s [] c a ys e = refl
head_with s (b ∷ xs) c a ys e = e

pub release_before-with :
    (s : VSwamp) (xs : List ℕ) (a : ℕ) (ys : List ℕ) (v n c : ℕ)
    → Linked s.next s.prev s.head s.tail (xs ++ a ∷ ys)
    → add_uarch v (bytes n) ≢ s.base a
    → release_before s a v n (some c) ≡ with s xs c (a ∷ ys) v n
unfolding release_before new_swamp_node
release_before-with s xs a ys v n c l apart =
    rw
      (
        (Prevs-right s.prev none xs (a ∷ ys) l.prevs).0,
        put_same s.prev c (last_from none xs),
        head_with s xs c a ys l.head_first,
        last_from-append xs c (a ∷ ys),
      )
      (ground (arith, apart, l.tail_last ∙ last_from-append xs a ys))

pub release_after-with :
    (s : VSwamp) (b : ℕ) (xs : List ℕ) (v n c : ℕ)
    → Linked s.next s.prev s.head s.tail (b ∷ xs)
    → release_after s (last_or b xs) v n (some c) ≡ with s (b ∷ xs) c [] v n
unfolding release_after new_swamp_node
release_after-with s b xs v n c l = rw (l.head_first, last_or-append b xs c []) refl

-- The hole at `a` with the pages before it.
abbrev pub grown : VSwamp → ℕ → ℕ → ℕ → VSwamp
grown s a v n = record s {
  base = put s.base a v;
  n_pages = put s.n_pages a (add_uarch (s.n_pages a) n);
}

pub release_before-grown :
    (s : VSwamp) (a v n : ℕ) (alloc : Option ℕ)
    → add_uarch v (bytes n) ≡ s.base a
    → release_before s a v n alloc ≡ join_previous (grown s a v n) a (s.prev a)
unfolding release_before
release_before-grown s a v n alloc e = ground (arith, e)

-- The hole at `a` with the pages of the hole at `p`, which is unlinked.
abbrev pub joined : VSwamp → List ℕ → ℕ → ℕ → List ℕ → VSwamp
joined s xs p a ys = record s {
  base = put s.base a (s.base p);
  n_pages = put s.n_pages a (add_uarch (s.n_pages a) (s.n_pages p));
  next = put_at s.next (last_from none xs) (some a);
  prev = put_at s.prev (some a) (last_from none xs);
  head = first none (xs ++ a ∷ ys);
}

joined_head :
    (s : VSwamp) (xs : List ℕ) (p a : ℕ) (ys : List ℕ)
    → Linked s.next s.prev s.head s.tail (xs ++ p ∷ a ∷ ys)
    → (if is_node s.head p then some a else s.head) ≡ first none (xs ++ a ∷ ys)
joined_head s [] p a ys l = rw l.head_first (ground arith)
joined_head s (b ∷ xs) p a ys l =
    rw l.head_first (ground (arith, Distinct-middle (b ∷ xs) p (a ∷ ys) l.distinct))

pub join_previous-joined :
    (s : VSwamp) (xs : List ℕ) (p a : ℕ) (ys : List ℕ)
    → Linked s.next s.prev s.head s.tail (xs ++ p ∷ a ∷ ys)
    → add_uarch (s.base p) (bytes (s.n_pages p)) ≡ s.base a
    → join_previous s a (some p) ≡ joined s xs p a ys
unfolding join_previous delete_swamp_node
join_previous-joined s xs p a ys l e =
    rw
      (
        joined_head s xs p a ys l,
        (Nexts-right s.next xs (p ∷ a ∷ ys) none l.nexts).0,
        (Prevs-right s.prev none xs (p ∷ a ∷ ys) l.prevs).0,
      )
      (ground (arith, e))

pub join_previous-apart :
    (s : VSwamp) (p a : ℕ)
    → add_uarch (s.base p) (bytes (s.n_pages p)) ≢ s.base a
    → join_previous s a (some p) ≡ s
unfolding join_previous
join_previous-apart s p a ne = ground (arith, ne)

pub join_previous-none : (s : VSwamp) (a : ℕ) → join_previous s a none ≡ s
unfolding join_previous
join_previous-none s a = refl
