-- ===== src/VSwamp/Joins.antt =====
-- The holes after a release: a new one between others, or one that takes in what it touches.
use zambesii.Prelude.{
  ℕ, ◌+◌, ◌*◌, ◌^◌, ◌≤◌, ◌<◌, ◌≡◌, ◌≢◌, refl, sym, ap, ◌∙◌, List, [], ◌∷◌, ◌++◌, ◌||◌, append_snoc,
  arith, add_uarch,
}
use zambesii.Prelude.Put.{put_same, put_other}
use zambesii.Prelude.Distinct.{
  NotIn, NotIn-left, NotIn-right, Distinct-right, Distinct-middle, Distinct-without,
}
use zambesii.DoubleLinks.{Linked}
use zambesii.DoubleLinks.Relink.{unlink-Linked, link-Linked}
use zambesii.VSwamp.{VSwamp}
use zambesii.VSwamp.Holes.{in_range, free, Ordered, holes, holes-append, holes-put}
use zambesii.VSwamp.Gets.{Links}
use zambesii.VSwamp.Ranges.{insert-free, join-Ordered, join-free}
use zambesii.VSwamp.Relinks.{holes-middle, with, last_from-append, grown, joined}

-- The `n` pages from `v` on become free, and no other page changes.
unfoldable pub Freed : VSwamp → ℕ → ℕ → List ℕ → VSwamp → Type 0
Freed s v n xs s' =
    (ys : List ℕ) × Links s' ys
    × ((p : ℕ)
        → free (holes s'.base s'.n_pages ys) p
          ≡ free (holes s.base s.n_pages xs) p || in_range v n p)

pub make-Freed :
    (s s' : VSwamp) (v n : ℕ) (xs ys : List ℕ) (l : List (ℕ × ℕ))
    → Linked s'.next s'.prev s'.head s'.tail ys
    → holes s'.base s'.n_pages ys ≡ l
    → Ordered 0 l
    → ((p : ℕ) → free l p ≡ free (holes s.base s.n_pages xs) p || in_range v n p)
    → Freed s v n xs s'
unfolding Freed
make-Freed s s' v n xs ys l links same o all =
    (ys, record { links = links; ordered = rw same o }, λ p. ap (λ hs. free hs p) same ∙ all p)

pub Ordered-at :
    (low : ℕ) (hs : List (ℕ × ℕ)) (b m : ℕ) (ks : List (ℕ × ℕ))
    → Ordered low (hs ++ (b, m) ∷ ks)
    → b + m * 4096 ≤ 2 ^ 32
Ordered-at low [] b m ks (le, full, top, o) = top
Ordered-at low ((c, k) ∷ hs) b m ks (le, full, top, o) = Ordered-at (c + k * 4096) hs b m ks o

-- A release of `n` pages from `v` on, between the holes of `xs` and those of `ys`.
pub record Place (s : VSwamp) (v n : ℕ) (xs ys : List ℕ) : Type 0 where
  pub links : Linked s.next s.prev s.head s.tail (xs ++ ys)
  pub put_back : Ordered 0 (holes s.base s.n_pages xs ++ (v, n) ∷ holes s.base s.n_pages ys)
  pub nonzero : 0 < v
  pub full : 0 < n
  pub top : v + n * 4096 ≤ 2 ^ 32

pub all_free :
    (s : VSwamp) (v n : ℕ) (xs ys : List ℕ) (p : ℕ)
    → free (holes s.base s.n_pages xs ++ (v, n) ∷ holes s.base s.n_pages ys) p
      ≡ free (holes s.base s.n_pages (xs ++ ys)) p || in_range v n p
all_free s v n xs ys p =
    insert-free v n (holes s.base s.n_pages xs) (holes s.base s.n_pages ys) p
    ∙ ap (λ hs. free hs p || in_range v n p) (sym (holes-append s.base s.n_pages xs ys))

pub with-Freed :
    (s : VSwamp) (v n c : ℕ) (xs ys : List ℕ)
    → Place s v n xs ys
    → NotIn c (xs ++ ys)
    → Freed s v n (xs ++ ys) (with s xs c ys v n)
with-Freed s v n c xs ys g away =
    make-Freed s (with s xs c ys v n) v n (xs ++ ys) (xs ++ c ∷ ys)
      (holes s.base s.n_pages xs ++ (v, n) ∷ holes s.base s.n_pages ys)
      (link-Linked xs c ys g.links away)
      (holes-middle s.base s.n_pages xs c ys v n (NotIn-left c xs ys away)
        (NotIn-right c xs ys away))
      g.put_back (all_free s v n xs ys)

pub grown-Freed :
    (s : VSwamp) (v n a : ℕ) (xs ys : List ℕ)
    → Place s v n xs (a ∷ ys)
    → s.base a ≡ v + n * 4096
    → Freed s v n (xs ++ a ∷ ys) (grown s a v n)
grown-Freed s v n a xs ys g e =
    let m : ℕ = s.n_pages a in
    let hs : List (ℕ × ℕ) = holes s.base s.n_pages xs in
    let ks : List (ℕ × ℕ) = holes s.base s.n_pages ys in
    let o : Ordered 0 (hs ++ (v, n + m) ∷ ks) =
      join-Ordered v n (s.base a) m 0 hs ks e g.put_back in
    let sum : add_uarch m n ≡ n + m = ground (arith, Ordered-at 0 hs v (n + m) ks o) in
    make-Freed s (grown s a v n) v n (xs ++ a ∷ ys) (xs ++ a ∷ ys) (hs ++ (v, n + m) ∷ ks) g.links
      (holes-middle s.base s.n_pages xs a ys v (add_uarch m n)
          (Distinct-middle xs a ys g.links.distinct) (Distinct-right xs (a ∷ ys) g.links.distinct).0
        ∙ ap (λ k. hs ++ (v, k) ∷ ks) sum)
      o (λ p. join-free v n (s.base a) m hs ks p e ∙ all_free s v n xs (a ∷ ys) p)

pub between :
    (v n : ℕ) (h : ℕ × ℕ) (hs ks : List (ℕ × ℕ)) (p : ℕ)
    → free (hs ++ h ∷ (v, n) ∷ ks) p ≡ free (hs ++ h ∷ ks) p || in_range v n p
between v n h hs ks p =
    rw (← append_snoc hs h ((v, n) ∷ ks), ← append_snoc hs h ks)
      (insert-free v n (hs ++ h ∷ []) ks p)

-- The hole at `b` before ends where the pages start.
pub joined-Freed :
    (s : VSwamp) (v n a b : ℕ) (us ys : List ℕ)
    → Linked s.next s.prev s.head s.tail (us ++ b ∷ a ∷ ys)
    → Ordered 0 (
        holes s.base s.n_pages us
        ++ (s.base b, s.n_pages b) ∷ (v, n) ∷ (s.base a, s.n_pages a) ∷ holes s.base s.n_pages ys)
    → s.base a ≡ v + n * 4096
    → v ≡ s.base b + s.n_pages b * 4096
    → Freed s v n (us ++ b ∷ a ∷ ys) (joined (grown s a v n) us b a ys)
joined-Freed s v n a b us ys l put_back e touch =
    let m : ℕ = s.n_pages a in
    let k : ℕ = s.n_pages b in
    let hs : List (ℕ × ℕ) = holes s.base s.n_pages us in
    let ks : List (ℕ × ℕ) = holes s.base s.n_pages ys in
    let g : VSwamp = grown s a v n in
    let a_b : b ≢ a = (Distinct-right us (b ∷ a ∷ ys) l.distinct).0.0 in
    let out : NotIn a us = Distinct-middle us a ys (Distinct-without us b (a ∷ ys) l.distinct) in
    let out' : NotIn a ys = (Distinct-right us (b ∷ a ∷ ys) l.distinct).1.0 in
    let o1 : Ordered 0 (hs ++ (s.base b, k + n) ∷ (s.base a, m) ∷ ks) =
      join-Ordered (s.base b) k v n 0 hs ((s.base a, m) ∷ ks) touch put_back in
    let o : Ordered 0 (hs ++ (s.base b, k + n + m) ∷ ks) =
      join-Ordered (s.base b) (k + n) (s.base a) m 0 hs ks (omega (arith, e, touch)) o1 in
    let u : VSwamp = joined g us b a ys in
    let w = unlink-Linked us b (a ∷ ys) l in
    let sum : add_uarch (add_uarch m n) k ≡ k + n + m =
      ground (arith, Ordered-at 0 hs (s.base b) (k + n + m) ks o) in
    let seen : holes g.base g.n_pages us
          ++ (g.base b, add_uarch (g.n_pages a) (g.n_pages b)) ∷ holes g.base g.n_pages ys
        ≡ hs ++ (s.base b, k + n + m) ∷ ks =
      rw
        (
          holes-put s.base s.n_pages a v (add_uarch m n) us out,
          holes-put s.base s.n_pages a v (add_uarch m n) ys out',
          put_other s.base a b v a_b,
          put_other s.n_pages a b (add_uarch m n) a_b,
          put_same s.n_pages a (add_uarch m n),
        )
        (ap (λ j. hs ++ (s.base b, j) ∷ ks) sum) in
    make-Freed s u v n (us ++ b ∷ a ∷ ys) (us ++ a ∷ ys) (hs ++ (s.base b, k + n + m) ∷ ks)
      (record {
        nexts = w.nexts;
        prevs = w.prevs;
        distinct = w.distinct;
        head_first = refl;
        tail_last = l.tail_last ∙ last_from-append us b (a ∷ ys) ∙ sym (last_from-append us a ys);
      })
      (holes-middle g.base g.n_pages us a ys (g.base b) (add_uarch (g.n_pages a) (g.n_pages b)) out
          out'
        ∙ seen)
      o
      (λ p.
        join-free (s.base b) (k + n) (s.base a) m hs ks p (omega (arith, e, touch))
        ∙ join-free (s.base b) k v n hs ((s.base a, m) ∷ ks) p touch
        ∙ between v n (s.base b, k) hs ((s.base a, m) ∷ ks) p
        ∙ ap (λ hs. free hs p || in_range v n p)
            (sym (holes-append s.base s.n_pages us (b ∷ a ∷ ys))))

pub holes-snoc :
    (s : VSwamp) (us : List ℕ) (b : ℕ) (hs : List (ℕ × ℕ))
    → holes s.base s.n_pages (us ++ b ∷ []) ++ hs
      ≡ holes s.base s.n_pages us ++ (s.base b, s.n_pages b) ∷ hs
holes-snoc s us b hs =
    ap (λ ks. ks ++ hs) (holes-append s.base s.n_pages us (b ∷ []))
    ∙ append_snoc (holes s.base s.n_pages us) (s.base b, s.n_pages b) hs
