-- ===== src/HardwareIdList/Kept.antt =====
-- What `HardwareIdList` writes keeps its chain and its flags true.
use zambesii.Prelude.{
  ℕ, ◌<◌, ◌≡◌, refl, List, [], ◌∷◌, ◌++◌, Option, true, arith, ◌==◌, if◌then◌else◌,
}
use zambesii.Prelude.Put.{put}
use zambesii.Prelude.Distinct.{NotIn, NotIn-both}
use zambesii.Prelude.Result.{ok}
use zambesii.DoubleLinks.Relink.{Nexts-link, Nexts-unlink}
use zambesii.HardwareIdList.{IdList, n_nodes, set_item}
use zambesii.HardwareIdList.Chain.{
  Above, Below, Ascending, Holds, has, Above-NotIn, Below-NotIn, Ascending-Distinct, Ascending-with,
  Ascending-without, Below-left, Below-right, Below-join, NotIn-has,
}
use zambesii.HardwareIdList.Adds.{with}
use zambesii.HardwareIdList.Removes.{without, in_array_lem}

-- The list with the item and the flag of `id` written.
abbrev pub having : IdList → ℕ → Option ℕ → IdList
having s id p = record s {
  nodes = record s.nodes { item = put s.nodes.item id p; valid = put s.nodes.valid id true };
}

pub set_item-having :
    (s : IdList) (id : ℕ) (p : Option ℕ) → id < n_nodes s → set_item s id p ≡ ok (having s id p)
unfolding set_item
set_item-having s id p h = rw (in_array_lem s id h) refl

has-with :
    (i id : ℕ) (ys zs : List ℕ)
    → has i (ys ++ id ∷ zs) ≡ (if i == id then true else has i (ys ++ zs))
has-with i id [] zs = refl
has-with i id (a ∷ ys) zs = ground (arith, has-with i id ys zs)

pub NotIn-around : (id : ℕ) (ys zs : List ℕ) → Below id ys → Above id zs → NotIn id (ys ++ zs)
NotIn-around id ys zs below above =
    NotIn-both id ys zs (Below-NotIn id ys below) (Above-NotIn id zs above)

-- A new index that is linked, with its item and its flag.
pub new-Holds :
    (s : IdList) (id : ℕ) (p : Option ℕ) (ys zs : List ℕ)
    → Holds s (ys ++ zs)
    → Below id ys
    → Above id zs
    → id < n_nodes s
    → Holds (having (with s ys id zs) id p) (ys ++ id ∷ zs)
new-Holds s id p ys zs v below above h = record {
  nexts =
      Nexts-link s.nodes.next ys id zs (Ascending-Distinct (ys ++ zs) v.ascending)
        (NotIn-around id ys zs below above) v.nexts;
  ascending = Ascending-with ys id zs v.ascending below above;
  inside =
      Below-join (n_nodes s) ys (id ∷ zs) (Below-left (n_nodes s) ys zs v.inside)
        (h, Below-right (n_nodes s) ys zs v.inside);
  first_first = refl;
  max_last = refl;
  flagged = λ i lt. ground (arith, v.flagged i lt, has-with i id ys zs);
}

-- An index that is in use gets another item.
pub old-Holds :
    (s : IdList) (id : ℕ) (p : Option ℕ) (ys zs : List ℕ)
    → Holds s (ys ++ id ∷ zs)
    → Holds (having s id p) (ys ++ id ∷ zs)
old-Holds s id p ys zs v = record {
  nexts = v.nexts;
  ascending = v.ascending;
  inside = v.inside;
  first_first = v.first_first;
  max_last = v.max_last;
  flagged = λ i lt. ground (arith, v.flagged i lt, has-with i id ys zs);
}

pub removed-Holds :
    (s : IdList) (id : ℕ) (ys zs : List ℕ)
    → Holds s (ys ++ id ∷ zs)
    → Below id ys
    → Above id zs
    → Holds (without s ys id zs) (ys ++ zs)
removed-Holds s id ys zs v below above =
    let up : Ascending (ys ++ zs) = Ascending-without ys id zs v.ascending in
    record {
      nexts = Nexts-unlink s.nodes.next ys id zs (Ascending-Distinct (ys ++ zs) up) v.nexts;
      ascending = up;
      inside =
          Below-join (n_nodes s) ys zs (Below-left (n_nodes s) ys (id ∷ zs) v.inside)
            (Below-right (n_nodes s) ys (id ∷ zs) v.inside).1;
      first_first = refl;
      max_last = refl;
      flagged = λ i lt. ground (
        arith,
        v.flagged i lt,
        has-with i id ys zs,
        NotIn-has id (ys ++ zs) (NotIn-around id ys zs below above),
      );
    }
