-- ===== src/Locks/Recursive/Safety.antt =====
-- What holds in every state that the threads on a `RecursiveLock` reach.
use zambesii.Prelude.{
  ℕ, zero, suc, ◌+◌, ◌^◌, ◌<◌, ◌≡◌, ◌≢◌, refl, Bool, true, false, arith, ℕ_discrete, none, some,
  ◌⊎◌, inl, inr,
}
use zambesii.Locks.Threads.{put, put_same, put_other}
use zambesii.Locks.Recursive.{
  Lock, Pc, idle, trying, won, counted, again, holding, releasing, freeing, Acquire, Release, Move,
  acquire, release, System, pick, init, Reach, start, later,
}

-- Whether a thread has the lock: from the exchange that took it to the write that frees it.
abbrev pub owns : Pc → Bool
owns idle = false
owns (trying zero _ _) = false
owns _ = true

-- What thread `i` knows of the lock at each place: while it has the lock, from the exchange that took
-- it to the write that frees it, the lock word is its id, the count is the depth of its calls, and
-- the flag is whether interrupts were enabled at the first of them. Else the word is not its id.
abbrev pub Fits : ℕ → Lock → Pc → Type 0
Fits i l idle = l.word ≢ some i
Fits i l (trying zero _ _) = l.word ≢ some i
Fits i l (trying (suc depth) outer _) =
    (l.word ≡ some i)
    × (l.recursion_count ≡ suc depth)
    × (l.irqs_were_enabled ≡ outer)
    × (suc depth + 1 < 2 ^ 32)
Fits i l (won _) = (l.word ≡ some i) × (l.irqs_were_enabled ≡ false)
Fits i l (counted _) = (l.word ≡ some i) × (l.recursion_count ≡ 1) × (l.irqs_were_enabled ≡ false)
Fits i l (again depth outer) =
    (l.word ≡ some i)
    × (l.recursion_count ≡ depth)
    × (l.irqs_were_enabled ≡ outer)
    × (depth + 1 < 2 ^ 32)
Fits i l (holding depth outer) =
    (l.word ≡ some i)
    × (l.recursion_count ≡ depth)
    × (l.irqs_were_enabled ≡ outer)
    × (0 < depth)
    × (depth < 2 ^ 32)
Fits i l (releasing depth outer) =
    (l.word ≡ some i)
    × (l.recursion_count ≡ depth)
    × (l.irqs_were_enabled ≡ outer)
    × (depth < 2 ^ 32)
Fits i l (freeing enable_irqs outer) =
    (l.word ≡ some i) × (enable_irqs ≡ outer) × (l.irqs_were_enabled ≡ false)

record Inv (s : System) : Type 0 where
  pub free : s.lock.word ≡ none → s.lock.irqs_were_enabled ≡ false
  pub fits : (i : ℕ) → Fits i s.lock (s.pc i)

init-Inv : Inv init
init-Inv = record { free = λ e. refl; fits = λ i. ground arith }

-- No thread but `i` has the lock.
Mine : ℕ → Lock → Type 0
Mine i l = (j : ℕ) → j ≢ i → l.word ≢ some j

-- What a move of thread `i` from `l` to `l'` and `p'` leaves true. The other threads see a change
-- only where neither lock is theirs.
record Kept (i : ℕ) (l l' : Lock) (p' : Pc) : Type 0 where
  fits : Fits i l' p'
  free : l'.word ≡ none → l'.irqs_were_enabled ≡ false
  others : (l' ≡ l) ⊎ (Mine i l × Mine i l')

some-Mine : (i : ℕ) (l : Lock) → l.word ≡ some i → Mine i l
unfolding Mine
some-Mine i l e = λ j ne w. ground arith

none-Mine : (i : ℕ) (l : Lock) → l.word ≡ none → Mine i l
unfolding Mine
none-Mine i l e = λ j ne w. ground arith

module _ {i : ℕ} {l : Lock} where
  stays : {p' : Pc} → (l.word ≡ none → l.irqs_were_enabled ≡ false) → Fits i l p' → Kept i l l p'
  stays free f = record { fits = f; free = free; others = inl refl }

  writes :
      {l' : Lock} {p' : Pc} → l.word ≡ some i → l'.word ≡ some i → Fits i l' p' → Kept i l l' p'
  writes {l' = l'} w w' f = record {
    fits = f;
    free = λ e. ground arith;
    others = inr (some-Mine i l w, some-Mine i l' w');
  }

Acquire-Kept :
    {i : ℕ} {l l' : Lock} {p p' : Pc}
    → Fits i l p
    → (l.word ≡ none → l.irqs_were_enabled ≡ false)
    → Acquire i l p l' p'
    → Kept i l l' p'
Acquire-Kept f free (Acquire.come irqs) = stays free (ground arith)
Acquire-Kept f free (Acquire.come_again {depth = zero} irqs lt) = absurd (ground arith)
Acquire-Kept f free (Acquire.come_again {depth = suc depth} irqs lt) = stays free (ground arith)
Acquire-Kept {i = i} {l = l} {l' = l'} f free (Acquire.take {depth = zero} e) = record {
  fits = ground arith;
  free = λ w. ground arith;
  others = inr (none-Mine i l e, some-Mine i l' refl);
}
Acquire-Kept f free (Acquire.take {depth = suc depth} e) = absurd (ground arith)
Acquire-Kept f free (Acquire.own {depth = zero} e) = absurd (ground arith)
Acquire-Kept f free (Acquire.own {depth = suc depth} e) = stays free (ground arith)
Acquire-Kept f free (Acquire.spin {depth = zero} j e ne) = stays free (ground arith)
Acquire-Kept f free (Acquire.spin {depth = suc depth} j e ne) = absurd (ground arith)
Acquire-Kept f free Acquire.count = writes (ground arith) (ground arith) (ground arith)
Acquire-Kept f free Acquire.mark = writes (ground arith) (ground arith) (ground arith)
Acquire-Kept f free Acquire.count_again = writes (ground arith) (ground arith) (ground arith)

Release-Kept :
    {i : ℕ} {l l' : Lock} {p p' : Pc}
    → Fits i l p
    → (l.word ≡ none → l.irqs_were_enabled ≡ false)
    → Release l p l' p'
    → Kept i l l' p'
Release-Kept f free Release.count_down = writes (ground arith) (ground arith) (ground arith)
Release-Kept f free (Release.keep e) = stays free (ground arith)
Release-Kept f free (Release.take_flag e) = writes (ground arith) (ground arith) (ground arith)
Release-Kept {i = i} {l = l} {l' = l'} f free Release.free = record {
  fits = ground arith;
  free = ground arith;
  others = inr (some-Mine i l (ground arith), none-Mine i l' refl);
}

Fits-owned : (i : ℕ) (l : Lock) (p : Pc) → Fits i l p → owns p ≡ true → l.word ≡ some i
Fits-owned i l (trying zero _ _) f o = absurd (ground arith)
Fits-owned i l (trying (suc _) _ _) f o = ground arith
Fits-owned i l idle f o = absurd (ground arith)
Fits-owned i l (won _) f o = ground arith
Fits-owned i l (counted _) f o = ground arith
Fits-owned i l (again _ _) f o = ground arith
Fits-owned i l (holding _ _) f o = ground arith
Fits-owned i l (releasing _ _) f o = ground arith
Fits-owned i l (freeing _ _) f o = ground arith

Fits-stranger :
    (i : ℕ) (l l' : Lock) (p : Pc) → Fits i l p → l.word ≢ some i → l'.word ≢ some i → Fits i l' p
Fits-stranger i l l' (trying zero _ _) f n n' = n'
Fits-stranger i l l' (trying (suc _) _ _) f n n' = absurd (ground arith)
Fits-stranger i l l' idle f n n' = n'
Fits-stranger i l l' (won _) f n n' = absurd (ground arith)
Fits-stranger i l l' (counted _) f n n' = absurd (ground arith)
Fits-stranger i l l' (again _ _) f n n' = absurd (ground arith)
Fits-stranger i l l' (holding _ _) f n n' = absurd (ground arith)
Fits-stranger i l l' (releasing _ _) f n n' = absurd (ground arith)
Fits-stranger i l l' (freeing _ _) f n n' = absurd (ground arith)

others-Fits :
    (i j : ℕ) (l l' : Lock) (p : Pc)
    → j ≢ i
    → (l' ≡ l) ⊎ (Mine i l × Mine i l')
    → Fits j l p
    → Fits j l' p
unfolding Mine
others-Fits i j l l' p ne (inl e) f = rw e f
others-Fits i j l l' p ne (inr (m, m')) f = Fits-stranger j l l' p f (m j ne) (m' j ne)

Move-Kept :
    {i : ℕ} {l l' : Lock} {p p' : Pc}
    → Fits i l p
    → (l.word ≡ none → l.irqs_were_enabled ≡ false)
    → Move i l p l' p'
    → Kept i l l' p'
Move-Kept f free (acquire mv) = Acquire-Kept f free mv
Move-Kept f free (release mv) = Release-Kept f free mv

Kept-Inv :
    {s : System} (i : ℕ) {l : Lock} {p : Pc}
    → Inv s
    → Kept i s.lock l p
    → Inv (record { lock = l; pc = put s.pc i p })
Kept-Inv {s = s} i {l = l} {p = p} inv k = record {
  free = k.free;
  fits = λ j. elim (ℕ_discrete j i) [
    | yes e ↦ rw e (rw (put_same s.pc i p) k.fits)
    | no ne ↦
        rw (put_other s.pc i j p ne) (others-Fits i j s.lock l (s.pc j) ne k.others (inv.fits j))
  ];
}

Reach-Inv : {s : System} → Reach s → Inv s
Reach-Inv start = init-Inv
Reach-Inv (later {s = s} r (pick i mv)) =
    let inv : Inv s = Reach-Inv r in Kept-Inv i inv (Move-Kept (inv.fits i) inv.free mv)

-- In every order of the steps of any number of threads, a thread that has a recursive lock is alone
-- with it and the lock word is its id; the count is the number of its calls of `acquire` that are not
-- released yet, also where `release` tests it, so the lock is freed by the last release and no
-- earlier one; and that release enables interrupts exactly if they were enabled at the first call.
pub recursive_lock_safe :
    {s : System} (i : ℕ)
    → Reach s
    → owns (s.pc i) ≡ true
    → (s.lock.word ≡ some i)
      × ((j : ℕ) → owns (s.pc j) ≡ true → i ≡ j)
      × ((depth : ℕ) (outer : Bool)
          → (s.pc i ≡ holding depth outer) ⊎ (s.pc i ≡ releasing depth outer)
          → s.lock.recursion_count ≡ depth)
      × ((enable_irqs outer : Bool) → s.pc i ≡ freeing enable_irqs outer → enable_irqs ≡ outer)
recursive_lock_safe {s = s} i r o =
    let inv : Inv s = Reach-Inv r in
    let named : s.lock.word ≡ some i = Fits-owned i s.lock (s.pc i) (inv.fits i) o in
    (
      named,
      λ j o'. ground (arith, named, Fits-owned j s.lock (s.pc j) (inv.fits j) o'),
      λ depth outer at. ground (arith, inv.fits i, at),
      λ enable_irqs outer at. ground (arith, inv.fits i, at),
    )
