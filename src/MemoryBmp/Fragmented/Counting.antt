-- ===== src/MemoryBmp/Fragmented/Counting.antt =====
-- The counting loops of `MemoryBmp::fragmentedGetFrames`: the run that they measure.
use native.Mathlib.Numerals.{add-one}
use zambesii.Prelude.{
  ℕ, zero, suc, ◌+◌, ◌-◌, ◌*◌, ◌/◌, ◌%◌, ◌≤◌, ◌<◌, ◌≡◌, sym, ◌∙◌, ◌⊎◌, inl, inr, true, false, List,
  [], ◌∷◌, arith, leb, ◌==◌, if◌then◌else◌, length, drop, get_or, drop-cons, drop-nil, min, dec_le,
  Bool-cases,
}
use zambesii.Bits.{word_bits, all_ones, kbit_test}
use zambesii.Bits.Arrays.{is_set, kbit_test-all_ones}
use zambesii.Bits.Search.{Clear, Clear-snoc}
use zambesii.MemoryBmp.{MemoryBmp}
use zambesii.MemoryBmp.Frames.{IsValid}
use zambesii.MemoryBmp.Fragmented.{Scan, out, ran_on, bit_limit, scan_word, scan_words}

-- Bit `b` lies before `stop` and is set.
abbrev pub Blocked : List ℕ → ℕ → ℕ → Type 0
Blocked bmp stop b = (b < stop) × (is_set bmp b ≡ true)

-- The run from bit `s` on, counted up to `n`, in a region that ends at bit `stop`.
abbrev pub Counted : List ℕ → ℕ → ℕ → ℕ → Scan → Type 0
Counted bmp n s stop (out f) =
    (f ≤ n) × (s + f ≤ stop) × Clear bmp s f × ((f ≡ n) ⊎ Blocked bmp stop (s + f))
Counted bmp n s stop (ran_on f) = (f < n) × (s + f ≡ stop) × Clear bmp s f

-- The bits of word `i`.
pub is_set_in_word :
    (bmp : List ℕ) (i k word : ℕ)
    → get_or bmp i 0 ≡ word
    → k < word_bits
    → is_set bmp (word_bits * i + k) ≡ kbit_test word k
is_set_in_word bmp i k word e h =
    let index : (word_bits * i + k) / word_bits ≡ i = omega arith in
    let offset : (word_bits * i + k) % word_bits ≡ k = omega arith in rw (index, offset, e)

module _ {m : MemoryBmp} (v : IsValid m) where
  -- Where the region of word `i` ends.
  pub bit_limit_bounds :
      (i : ℕ)
      → i < length m.bmp
      → (0 < bit_limit m i)
        × (bit_limit m i ≤ word_bits)
        × (word_bits * i + bit_limit m i ≡ min (word_bits * suc i) m.n_frames)
  unfolding bit_limit
  bit_limit_bounds i h = ground arith

module _ (bmp : List ℕ) (n : ℕ) where
  scan_word-Counted :
      (i word : ℕ)
      → get_or bmp i 0 ≡ word
      → (rounds k s found stop : ℕ) → s + found ≡ word_bits * i + k
      → stop ≡ word_bits * i + k + rounds
      → k + rounds ≤ word_bits
      → found < n
      → Clear bmp s found
      → Counted bmp n s stop (scan_word word rounds k n found)
  unfolding scan_word
  scan_word-Counted i word e zero k s found stop at es fits less c = (less, omega arith, c)
  scan_word-Counted i word e (suc rounds) k s found stop at es fits less c =
      let bit = is_set_in_word bmp i k word e (omega arith) in
      elim (Bool-cases (kbit_test word k)) [
        | inl used ↦ rw used (omega arith, omega arith, c, inr (omega arith, rw at (bit ∙ used)))
        | inr free ↦
            let longer = Clear-snoc bmp s found (word_bits * i + k) (sym at) c (bit ∙ free) in
            rw free (elim (dec_le n (found + 1)) [
              | yes full ↦
                  let l : leb n (found + 1) ≡ true = ground arith in
                  let one : found + 1 ≡ suc found = omega arith in
                  rw (l, one) (omega arith, omega arith, longer, inl (omega arith))
              | no more ↦
                  let l : leb n (found + 1) ≡ false = ground arith in
                  rw l (
                    scan_word-Counted i word e rounds (k + 1) s (found + 1) stop (omega arith)
                      (omega arith) (omega arith) (omega arith)
                      (λ x lo hi. longer x lo (omega arith)))
            ])
      ]

module _ {m : MemoryBmp} (v : IsValid m) (n : ℕ) where
  -- A run that fills the rest of a word goes on into the next ones.
  carry_on :
      (s stop : ℕ) (next : ℕ → Scan) (r : Scan)
      → Counted m.bmp n s stop r
      → stop ≤ m.n_frames
      → ((f : ℕ) → f < n → s + f ≡ stop → Clear m.bmp s f → Counted m.bmp n s m.n_frames (next f))
      → Counted m.bmp n s m.n_frames (elim r [ out f ↦ out f | ran_on f ↦ next f ])
  carry_on s stop next (out f) (le, fits, c, inl full) inside go = (le, omega arith, c, inl full)
  carry_on s stop next (out f) (le, fits, c, inr (lt, used)) inside go =
      (le, omega arith, c, inr (omega arith, used))
  carry_on s stop next (ran_on f) (lt, at, c) inside go = go f lt at c

  -- Bit `s` is the `j`th of the first word scanned; each later word is scanned from its first bit.
  pub scan_words-Counted :
      (words : List ℕ) (i j s found : ℕ)
      → drop i m.bmp ≡ words
      → i ≤ length m.bmp
      → s + found ≡ min (word_bits * i + (if found == 0 then j else 0)) m.n_frames
      → (found ≡ 0 → j < bit_limit m i)
      → found < n
      → Clear m.bmp s found
      → Counted m.bmp n s m.n_frames (scan_words m words i j n found)
  unfolding scan_words
  scan_words-Counted [] i j s found at_words le at start less c =
      (less, ground (arith, drop-nil m.bmp i at_words), c)
  scan_words-Counted (word ∷ words) i j s found at_words le at start less c =
      let (here, rest, inside) = drop-cons m.bmp i word words 0 at_words in
      let (some_bits, few_bits, ends) = bit_limit_bounds v i inside in
      let k : ℕ = if found == 0 then j else 0 in
      let low : k < bit_limit m i = ground arith in
      let cursor : s + found ≡ word_bits * i + k = omega arith in
      elim (Bool-cases (word == all_ones)) [
        | inl full ↦
            let ones : word ≡ all_ones = ground arith in
            let bit = is_set_in_word m.bmp i k word here (omega arith) in
            let set : kbit_test word k ≡ true = rw ones (kbit_test-all_ones k (omega arith)) in
            rw full (omega arith, omega arith, c, inr (omega arith, rw cursor (bit ∙ set)))
        | inr free ↦ rw free (
            carry_on s (word_bits * i + bit_limit m i) (scan_words m words (i + 1) j n) _
              (scan_word-Counted m.bmp n i word here (bit_limit m i - k) k s found _ cursor
                (omega arith) (omega arith) less c)
              (omega arith)
              (λ f lt e longer.
                scan_words-Counted words (i + 1) j s f (rw (add-one) rest) (omega arith)
                  (ground arith) (λ z. absurd (omega arith)) lt longer))
      ]
