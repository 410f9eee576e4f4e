-- ===== src/DoubleLinks/Relink.antt =====
-- The links after a node is taken out of the middle of a doubly linked list, or put in.
use Prim.{tt}
use zambesii.Prelude.{ℕ, ◌≡◌, refl, List, [], ◌∷◌, ◌++◌, Option, none, some}
use zambesii.Prelude.Put.{put, put_at, put_same, put_other}
use zambesii.Prelude.Distinct.{
  NotIn, Distinct, last_or, NotIn-left, NotIn-right, Distinct-left, Distinct-right, Distinct-middle,
  Distinct-without, Distinct-with, Distinct-last,
}
use zambesii.DoubleLinks.{
  first, last_from, Nexts, Prevs, Linked, Nexts-put, Prevs-put, Nexts-left, Nexts-right, Nexts-join,
  Prevs-left, Prevs-right, Prevs-join, Nexts-relast,
}

-- A write through the pointer to the last node of the first part.
Nexts-before :
    (next : ℕ → Option ℕ) (xs : List ℕ) (r v : Option ℕ)
    → Distinct xs
    → Nexts next xs r
    → Nexts (put_at next (last_from none xs) v) xs v
Nexts-before next [] r v d links = tt
Nexts-before next (a ∷ xs) r v d links = Nexts-relast next a xs r v d links

Nexts-after :
    (next : ℕ → Option ℕ) (xs ys : List ℕ) (r v : Option ℕ)
    → Distinct (xs ++ ys)
    → Nexts next ys r
    → Nexts (put_at next (last_from none xs) v) ys r
Nexts-after next [] ys r v d links = links
Nexts-after next (a ∷ xs) ys r v d links =
    Nexts-put next (last_or a xs) v ys r (Distinct-last a xs ys d) links

-- A write through the pointer to the first node of the second part.
Prevs-after :
    (prev : ℕ → Option ℕ) (l v : Option ℕ) (ys : List ℕ)
    → Distinct ys
    → Prevs prev l ys
    → Prevs (put_at prev (first none ys) v) v ys
Prevs-after prev l v [] d links = tt
Prevs-after prev l v (a ∷ ys) (away, d) (e, links) =
    (put_same prev a v, Prevs-put prev a v (some a) ys away links)

Prevs-before :
    (prev : ℕ → Option ℕ) (l v : Option ℕ) (xs ys : List ℕ)
    → Distinct (xs ++ ys)
    → Prevs prev l xs
    → Prevs (put_at prev (first none ys) v) l xs
Prevs-before prev l v xs [] d links = links
Prevs-before prev l v xs (a ∷ ys) d links =
    Prevs-put prev a v l xs (Distinct-middle xs a ys d) links

-- The links forward after the write that closes the gap where the node `a` is taken out.
pub Nexts-unlink :
    (next : ℕ → Option ℕ) (xs : List ℕ) (a : ℕ) (ys : List ℕ)
    → Distinct (xs ++ ys)
    → Nexts next (xs ++ a ∷ ys) none
    → Nexts (put_at next (last_from none xs) (first none ys)) (xs ++ ys) none
Nexts-unlink next xs a ys d links =
    Nexts-join _ xs ys none
      (Nexts-before next xs (some a) (first none ys) (Distinct-left xs ys d)
        (Nexts-left next xs (a ∷ ys) none links))
      (Nexts-after next xs ys none (first none ys) d (Nexts-right next xs (a ∷ ys) none links).1)

-- The links forward after the writes that put the node `a` in.
pub Nexts-link :
    (next : ℕ → Option ℕ) (xs : List ℕ) (a : ℕ) (ys : List ℕ)
    → Distinct (xs ++ ys)
    → NotIn a (xs ++ ys)
    → Nexts next (xs ++ ys) none
    → Nexts (put_at (put next a (first none ys)) (last_from none xs) (some a)) (xs ++ a ∷ ys) none
Nexts-link next xs a ys d away links =
    Nexts-join _ xs (a ∷ ys) none
      (Nexts-before _ xs (first none ys) (some a) (Distinct-left xs ys d) (
        Nexts-put next a (first none ys) xs (first none ys) (NotIn-left a xs ys away)
          (Nexts-left next xs ys none links)))
      (Nexts-after _ xs (a ∷ ys) none (some a) (Distinct-with xs a ys d away) (
        put_same next a (first none ys),
        Nexts-put next a (first none ys) ys none (NotIn-right a xs ys away)
            (Nexts-right next xs ys none links),
      ))

-- The two writes that close the gap where the node `a` is taken out.
pub unlink-Linked :
    {next prev : ℕ → Option ℕ} {head tail : Option ℕ} (xs : List ℕ) (a : ℕ) (ys : List ℕ)
    → Linked next prev head tail (xs ++ a ∷ ys)
    → Linked
        (put_at next (last_from none xs) (first none ys))
        (put_at prev (first none ys) (last_from none xs))
        (first none (xs ++ ys))
        (last_from none (xs ++ ys))
        (xs ++ ys)
unlink-Linked {next = next} {prev = prev} xs a ys v =
    let d : Distinct (xs ++ ys) = Distinct-without xs a ys v.distinct in
    record {
      nexts = Nexts-unlink next xs a ys d v.nexts;
      prevs =
          Prevs-join _ none xs ys
            (Prevs-before prev none (last_from none xs) xs ys d
              (Prevs-left prev none xs (a ∷ ys) v.prevs))
            (Prevs-after prev (some a) (last_from none xs) ys (Distinct-right xs ys d)
              (Prevs-right prev none xs (a ∷ ys) v.prevs).1);
      distinct = d;
      head_first = refl;
      tail_last = refl;
    }

own_prev :
    (prev : ℕ → Option ℕ) (l : Option ℕ) (a : ℕ) (ys : List ℕ)
    → NotIn a ys
    → put_at (put prev a l) (first none ys) (some a) a ≡ l
own_prev prev l a [] away = put_same prev a l
own_prev prev l a (b ∷ ys) (ne, away) =
    rw (put_other (put prev a l) b a (some a) ne) (put_same prev a l)

-- The node `a` gets its links, and its neighbours get theirs to it.
pub link-Linked :
    {next prev : ℕ → Option ℕ} {head tail : Option ℕ} (xs : List ℕ) (a : ℕ) (ys : List ℕ)
    → Linked next prev head tail (xs ++ ys)
    → NotIn a (xs ++ ys)
    → Linked
        (put_at (put next a (first none ys)) (last_from none xs) (some a))
        (put_at (put prev a (last_from none xs)) (first none ys) (some a))
        (first none (xs ++ a ∷ ys))
        (last_from none (xs ++ a ∷ ys))
        (xs ++ a ∷ ys)
link-Linked {next = next} {prev = prev} xs a ys v away =
    let out : NotIn a xs = NotIn-left a xs ys away in
    let out' : NotIn a ys = NotIn-right a xs ys away in
    record {
      nexts = Nexts-link next xs a ys v.distinct away v.nexts;
      prevs =
          Prevs-join _ none xs (a ∷ ys)
            (Prevs-before _ none (some a) xs ys v.distinct (
              Prevs-put prev a (last_from none xs) none xs out
                (Prevs-left prev none xs ys v.prevs)))
            (
              own_prev prev (last_from none xs) a ys out',
              Prevs-after _ (last_from none xs) (some a) ys (Distinct-right xs ys v.distinct) (
                  Prevs-put prev a (last_from none xs) (last_from none xs) ys out'
                    (Prevs-right prev none xs ys v.prevs)),
            );
      distinct = Distinct-with xs a ys v.distinct away;
      head_first = refl;
      tail_last = refl;
    }
