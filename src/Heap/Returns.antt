-- ===== src/Heap/Returns.antt =====
-- An allocation that `Heap::Chunk::malloc` returns, given back at once.
use zambesii.Prelude.{
  ◌⊎◌, ℕ, ◌+◌, ◌^◌, ◌<◌, ◌≤◌, ◌≡◌, refl, sym, ap, ◌∙◌, Bool, true, false, not, ◌&&◌, ◌||◌, arith,
  none, some, inl, inr,
}
use zambesii.Prelude.Result.{ok}
use zambesii.Heap.{Options, Chunk, Allocation, gap_requirement, malloc, free}
use zambesii.Heap.Spaced.{Spaced, is_free}
use zambesii.Heap.Takes.{taken_by}
use zambesii.Heap.Frees.{free-Restores}
use zambesii.Heap.Mallocs.{malloc-Outcome}

put_back :
    (free taken : Bool) → (taken ≡ true → free ≡ true) → ((free && not taken) || taken) ≡ free
put_back true true h = refl
put_back true false h = refl
put_back false true h = sym (h refl)
put_back false false h = refl

-- In a chunk of blocks that have a header's 40 bytes at least, end below 2 ^ 32, have the chunk as
-- their parent, their magic and, with guard pages, begin on a page, and that stand in the order of
-- their addresses with bytes in use between them, and for a size of 76 bytes at least that does not
-- wrap with its gap, `Chunk::malloc` returns NULL and changes nothing, or it returns an allocation
-- such that `Chunk::free` of it at once leaves the blocks so, and the same bytes free as before the
-- two calls.
pub free-malloc :
    (o : Options) (lo : ℕ) (c : Chunk) (sz by by' : ℕ)
    → Spaced o c.address lo c.blocks
    → 76 ≤ sz
    → gap_requirement o sz + sz < 2 ^ 32
    → (malloc o c sz by ≡ ok (none, c))
      ⊎ ((alloc : Allocation) × (c' : Chunk) × (malloc o c sz by ≡ ok (some alloc, c'))
          × Spaced o c'.address lo (free c' alloc by').blocks
          × ((i : ℕ) → is_free (free c' alloc by').blocks i ≡ is_free c.blocks i))
free-malloc o lo c sz by by' v large few = elim (malloc-Outcome o lo c sz by v large few) [
  | inl (run, small) ↦ inl run
  | inr (alloc, c', run, g, sound) ↦
      let kept : Spaced o c'.address lo c'.blocks = rw g.same g.kept in
      let out : (i : ℕ) → taken_by alloc i ≡ true → is_free c'.blocks i ≡ false =
        λ i h. rw (g.left i, h) (ground arith) in
      let (back, counted) = free-Restores o lo c' alloc by' sound kept out in
      inr (
        alloc,
        c',
        run,
        back.kept,
        λ i.
            back.freed i
            ∙ ap (λ f. f || taken_by alloc i) (g.left i)
            ∙ put_back (is_free c.blocks i) (taken_by alloc i) (g.was_free i),
      )
]
