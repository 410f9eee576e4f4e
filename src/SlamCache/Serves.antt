-- ===== src/SlamCache/Serves.antt =====
-- The objects that a `SlamCache` hands out.
use Prim.{Unit, tt}
use zambesii.Prelude.{
  ℕ, ◌+◌, ◌-◌, ◌≡◌, refl, ap, ◌∙◌, List, [], ◌∷◌, Option, none, some, arith, sub_uarch,
}
use zambesii.Prelude.Put.{put_same}
use zambesii.Prelude.Distinct.{NotIn}
use zambesii.DoubleLinks.{Nexts-put}
use zambesii.SlamCache.Objects.{
  objects, Holds, Roomy, objects-Distinct, break_lem, Between, objects-Between,
}
use zambesii.SlamCache.{SlamCache, break_up, refill, take_first, allocate_from, allocate, free}

-- `allocate` of a cache with a free object hands out the first one.
serve_first :
    (c : SlamCache) (a : ℕ) (xs : List ℕ) (page : Option ℕ)
    → Holds c (a ∷ xs)
    → (c' : SlamCache) × (allocate c page ≡ (some a, c')) × Holds c' xs
unfolding allocate allocate_from take_first
serve_first c a xs page v = (
  record c { partial_list = c.next a },
  ap (λ o. allocate_from c o c.free_list page) v.first_first,
  record {
    nexts = v.nexts.1;
    distinct = v.distinct.1;
    first_first = v.nexts.0;
    no_pages = v.no_pages;
  },
)

-- The list of the objects behind the first one of a page
abbrev pub others : SlamCache → ℕ → List ℕ
others c p = objects (p + c.s_objectize) c.s_objectize (c.per_page_blocks - 1)

serve_page :
    (c : SlamCache) (p : ℕ)
    → Holds c []
    → Roomy c p
    → (c' : SlamCache) × (allocate c (some p) ≡ (some p, c')) × Holds c' (others c p)
unfolding allocate allocate_from take_first refill
serve_page c p v room =
    let n : ℕ = c.per_page_blocks - 1 in
    let e : sub_uarch c.per_page_blocks 1 ≡ n = omega (arith, room.some_blocks, room.few_blocks) in
    let next : ℕ → Option ℕ = break_up c.next p c.s_objectize n in
    let (links, low) =
      break_lem c.next p c.s_objectize n (p + 4096) room.fits room.page_end room.positive in
    (
      record c { partial_list = next p; next = next },
      ap (λ o. allocate_from c o c.free_list (some p)) v.first_first
          ∙ ap (λ f. allocate_from c none f (some p)) v.no_pages
          ∙ ap
              (λ i. (
                some p,
                record c {
                  partial_list = break_up c.next p c.s_objectize i p;
                  next = break_up c.next p c.s_objectize i;
                },
              ))
              e,
      record {
        nexts = links.1;
        distinct = objects-Distinct (p + c.s_objectize) c.s_objectize n room.positive;
        first_first = links.0;
        no_pages = v.no_pages;
      },
    )

-- A page that is allocated has room.
abbrev pub RoomyPage : SlamCache → Option ℕ → Type 0
RoomyPage c none = Unit {0}
RoomyPage c (some p) = Roomy c p

-- What `allocate` hands out of the free objects `xs`, and what is left
abbrev pub served : SlamCache → List ℕ → Option ℕ → Option ℕ × List ℕ
served c (a ∷ xs) page = (some a, xs)
served c [] none = (none, [])
served c [] (some p) = (some p, others c p)

-- The objects of a new page lie inside of it.
abbrev pub InPage : SlamCache → Option ℕ → Type 0
InPage c none = Unit {0}
InPage c (some p) = Between p (p + 4096) c.s_objectize (p ∷ others c p)

in_page : (c : SlamCache) (page : Option ℕ) → RoomyPage c page → InPage c page
in_page c none room = tt
in_page c (some p) room =
    objects-Between p p c.s_objectize (c.per_page_blocks - 1) (p + 4096) (omega arith) room.fits

serve_none :
    (c : SlamCache) → Holds c [] → (c' : SlamCache) × (allocate c none ≡ (none, c')) × Holds c' []
unfolding allocate allocate_from
serve_none c v = (
  c,
  ap (λ o. allocate_from c o c.free_list none) v.first_first
      ∙ ap (λ f. allocate_from c none f none) v.no_pages,
  v,
)

-- With the free objects linked, each once, and no free page left over, `allocate` hands out the first
-- free object; without one it hands out the first object of a new page and links the others of the
-- page, each once, and without a page it returns NULL. The free objects stay linked so, and the
-- objects of a page with room for them lie inside of the page.
pub allocate-Serves :
    (c : SlamCache) (xs : List ℕ) (page : Option ℕ)
    → Holds c xs
    → RoomyPage c page
    → (c' : SlamCache) × (allocate c page ≡ ((served c xs page).0, c'))
      × Holds c' (served c xs page).1
      × InPage c page
allocate-Serves c (a ∷ xs) page v room =
    let (c', run, w) = serve_first c a xs page v in (c', run, w, in_page c page room)
allocate-Serves c [] none v room = let (c', run, w) = serve_none c v in (c', run, w, tt)
allocate-Serves c [] (some p) v room =
    let (c', run, w) = serve_page c p v room in (c', run, w, in_page c (some p) room)

-- `free` puts an object that is not free in front of the others.
free-Holds :
    (c : SlamCache) (a : ℕ) (xs : List ℕ)
    → Holds c xs
    → NotIn a xs
    → Holds (free c (some a)) (a ∷ xs)
unfolding free
free-Holds c a xs v away = record {
  nexts = (
    put_same c.next a c.partial_list ∙ v.first_first,
    Nexts-put c.next a c.partial_list xs none away v.nexts,
  );
  distinct = (away, v.distinct);
  first_first = refl;
  no_pages = v.no_pages;
}
