-- ===== src/VSwamp/Tests.antt =====
-- A swamp with a hole of one page and one of three.
use Prim.{tt}
use zambesii.Prelude.{
  ℕ, ◌≡◌, refl, List, [], ◌∷◌, Option, none, some, true, ◌&&◌, ◌||◌, not, arith, ◌==◌,
  if◌then◌else◌,
}
use zambesii.Prelude.Result.{ok}
use zambesii.VSwamp.{VSwamp, get_pages, release_pages}
use zambesii.VSwamp.Holes.{in_range, free, holes}
use zambesii.VSwamp.Gets.{Links, get_pages_refines}
use zambesii.VSwamp.Frees.{release_pages_frees}
use zambesii.VSwamp.Ranges.{Allocated}
use zambesii.VSwamp.Exhaustion.{gets, releases, run, exhausted_forever}

abbrev two_holes : VSwamp
two_holes = record {
  base_addr = 0x1000;
  size = 0x10000;
  init_node = 1;
  head = some 1;
  tail = some 2;
  base = λ a. if a == 1 then 0x1000 else 0x4000;
  n_pages = λ a. if a == 1 then 1 else 3;
  prev = λ a. if a == 2 then some 1 else none;
  next = λ a. if a == 1 then some 2 else none;
}

two_holes-Links : Links two_holes (1 ∷ 2 ∷ [])
two_holes-Links = record {
  links = record {
    nexts = (refl, (refl, tt));
    prevs = (refl, (refl, tt));
    distinct = ((omega arith, tt), (tt, tt));
    head_first = refl;
    tail_last = refl;
  };
  ordered = (omega arith, omega arith, omega arith, (omega arith, omega arith, omega arith, tt));
}

get_pages_refines_example :
    (reply : Option ℕ) × (s' : VSwamp) × (ys : List ℕ) × (get_pages two_holes 3 2 ≡ ok (reply, s'))
    × Links s' ys
    × (reply ≡ some 0x4000)
    × (holes s'.base s'.n_pages ys ≡ (0x1000, 1) ∷ (0x6000, 1) ∷ [])
    × ((b p : ℕ)
        → reply ≡ some b
        → (free (holes s'.base s'.n_pages ys) p
            ≡ free ((0x1000, 1) ∷ (0x4000, 3) ∷ []) p && not (in_range b 2 p))
          × (in_range b 2 p ≡ true → free ((0x1000, 1) ∷ (0x4000, 3) ∷ []) p ≡ true))
get_pages_refines_example = get_pages_refines 3 2 two_holes-Links (omega arith)

abbrev one_hole : VSwamp
one_hole = record two_holes { tail = some 1; next = λ a. none }

one_hole-Links : Links one_hole (1 ∷ [])
one_hole-Links = record {
  links = record {
    nexts = (refl, tt);
    prevs = (refl, tt);
    distinct = (tt, tt);
    head_first = refl;
    tail_last = refl;
  };
  ordered = (omega arith, omega arith, omega arith, tt);
}

-- The page that is given back is not handed out again.
exhausted_forever_example :
    (s' : VSwamp) × (run one_hole 2 (gets 1 ∷ releases 0x1000 1 (some 9) ∷ gets 1 ∷ [])
      ≡ ok (some 0x1000 ∷ none ∷ [], s'))
    × Links s' []
exhausted_forever_example =
    exhausted_forever 2 (releases 0x1000 1 (some 9) ∷ gets 1 ∷ []) one_hole-Links (omega arith)

between-Allocated : Allocated 0x2000 2 ((0x1000, 1) ∷ (0x4000, 3) ∷ [])
between-Allocated p r = ground (arith, r)

-- The two pages between the holes touch both, so one hole is left.
release_pages_frees_example :
    (s' : VSwamp) × (ys : List ℕ) × (release_pages two_holes 3 0x2000 2 (some 9) ≡ ok s')
    × Links s' ys
    × ((p : ℕ)
        → free (holes s'.base s'.n_pages ys) p
          ≡ free ((0x1000, 1) ∷ (0x4000, 3) ∷ []) p || in_range 0x2000 2 p)
release_pages_frees_example =
    release_pages_frees 3 0x2000 2 9 two_holes-Links (λ e. ground arith) (omega arith) (omega arith)
      refl (omega arith) (omega arith) between-Allocated (omega arith, (omega arith, tt))
