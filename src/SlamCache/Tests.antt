-- ===== src/SlamCache/Tests.antt =====
-- A cache of objects of 2048 bytes, two in a page.
use Prim.{tt}
use zambesii.Prelude.{◌≡◌, refl, [], ◌∷◌, none, some, arith}
use zambesii.SlamCache.{SlamCache, allocate}
use zambesii.SlamCache.Objects.{Holds, Roomy}
use zambesii.SlamCache.Serves.{InPage, allocate-Serves}

abbrev halves : SlamCache
halves = record {
  s_objectize = 2048;
  per_page_excess = 0;
  per_page_blocks = 2;
  partial_list = none;
  free_list = none;
  next = λ a. none;
}

halves-Holds : Holds halves []
halves-Holds = record { nexts = tt; distinct = tt; first_first = refl; no_pages = refl }

halves-Roomy : Roomy halves 8192
halves-Roomy = record {
  positive = omega arith;
  some_blocks = omega arith;
  few_blocks = omega arith;
  fits = omega arith;
  page_end = omega arith;
}

allocate-Serves_example :
    (c' : SlamCache) × (allocate halves (some 8192) ≡ (some 8192, c'))
    × Holds c' (10240 ∷ [])
    × InPage halves (some 8192)
allocate-Serves_example = allocate-Serves halves [] (some 8192) halves-Holds halves-Roomy
