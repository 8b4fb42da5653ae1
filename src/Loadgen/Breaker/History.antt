-- ===== src/Loadgen/Breaker/History.antt =====
-- The breaker of internal/loadgen/breaker.go over a whole history of results.
use golang_helloworld.Prelude.{
  Bool, List, [], ap, append-nil, append_assoc, arith, dec_lt, drop, false, leb, length,
  length-append, length-replicate, refl, set, subst, suc, sym, zero, ℕ, ◌&&◌, ◌++◌, ◌-◌, ◌/◌, ◌<◌,
  ◌∙◌, ◌∷◌, ◌≡◌, ◌≤◌,
}
use golang_helloworld.Loadgen.Breaker.{
  Breaker, exceeds, is_tripped, new_breaker, observe, record_result,
}
use golang_helloworld.Loadgen.Breaker.Window.{
  Holds, failures_in, filling, full, last_of, new_breaker-Holds, slide, slides,
}

length-set : (xs : List Bool) (i : ℕ) (v : Bool) → length (set xs i v) ≡ length xs
length-set [] i v = refl
length-set (x ∷ xs) zero v = refl
length-set (x ∷ xs) (suc i) v = ap suc (length-set xs i v)

length-observe : (b : Breaker) (x : Bool) → length (observe b x).ring ≡ length b.ring
unfolding observe
length-observe b x = length-set b.ring b.next x

unfoldable pub run : Breaker → List Bool → Breaker
run b [] = b
run b (x ∷ xs) = run (record_result b x).0 xs

-- `last_of` takes in one result at a time.
length-drop : (n : ℕ) (xs : List Bool) → length (drop n xs) ≡ length xs - n
length-drop zero xs = omega arith
length-drop (suc n) [] = omega arith
length-drop (suc n) (x ∷ xs) = omega (arith, length-drop n xs)

drop-nil : (n : ℕ) → drop {A = Bool} n [] ≡ []
drop-nil zero = refl
drop-nil (suc n) = refl

drop-snoc :
    (k : ℕ) (xs : List Bool) (x : Bool)
    → k ≤ length xs
    → drop (suc k) (xs ++ x ∷ []) ≡ drop 1 (drop k xs ++ x ∷ [])
drop-snoc zero xs x h = refl
drop-snoc (suc k) [] x h = elim h [ ]
drop-snoc (suc k) (y ∷ xs) x h = drop-snoc k xs x (omega arith)

slide-last_of :
    (size : ℕ) (xs : List Bool) (x : Bool)
    → 0 < size
    → slide size (last_of size xs) x ≡ last_of size (xs ++ x ∷ [])
slide-last_of size xs x h = elim (dec_lt (length xs) size) [
  | yes short ↦ let e : length xs - size ≡ 0 = omega arith in rw e refl
  | no long ↦
      let kept : length (drop (length xs - size) xs ++ x ∷ []) - size ≡ 1 = omega (
        arith,
        length-append (drop (length xs - size) xs) (x ∷ []),
        length-drop (length xs - size) xs,
      ) in
      let out : length (xs ++ x ∷ []) - size ≡ suc (length xs - size) =
        omega (arith, length-append xs (x ∷ [])) in
      rw (kept, out) (sym (drop-snoc (length xs - size) xs x (omega arith)))
]

-- What the breaker is to answer for a window: half of it is in, and too much of that failed.
abbrev pub should_trip : ℕ → ℕ → ℕ → List Bool → Bool
should_trip size num den w = leb (size / 2) (length w) && exceeds (failures_in w) (length w) num den

-- The fields that stay, and the window that the ring holds.
record Tracks (size num den : ℕ) (b : Breaker) (w : List Bool) : Type 0 where
  size_kept : length b.ring ≡ size
  num_kept : b.num ≡ num
  den_kept : b.den ≡ den
  holds : Holds b w

module _ (size num den : ℕ) where
  record_result-Tracks :
      (b : Breaker) (w : List Bool) (x : Bool)
      → Tracks size num den b w
      → Tracks size num den (record_result b x).0 (slide size w x)
  unfolding record_result
  record_result-Tracks b w x t = record {
    size_kept = length-observe b x ∙ t.size_kept;
    num_kept = unfold observe in t.num_kept;
    den_kept = unfold observe in t.den_kept;
    holds = subst (λ k. Holds (observe b x) (slide k w x)) t.size_kept (slides b w x t.holds);
  }

  run-Tracks :
      (b : Breaker) (before xs : List Bool)
      → 0 < size
      → Tracks size num den b (last_of size before)
      → Tracks size num den (run b xs) (last_of size (before ++ xs))
  unfolding run
  run-Tracks b before [] h t = rw append-nil t
  run-Tracks b before (x ∷ xs) h t =
      let next = record_result-Tracks b (last_of size before) x t in
      let next' =
        subst (Tracks size num den (record_result b x).0) (slide-last_of size before x h) next in
      subst (λ w. Tracks size num den (run (record_result b x).0 xs) (last_of size w))
        (append_assoc before (x ∷ []) xs)
        (run-Tracks (record_result b x).0 (before ++ x ∷ []) xs h next')

  Tracks-filled :
      (b : Breaker) (w : List Bool)
      → Holds b w
      → (b.filled ≡ length w) × (b.failures ≡ failures_in w)
  Tracks-filled b w (filling u rest r n f c) = (f, c)
  Tracks-filled b w (full newer older r e l n f c) = (f, c)

  is_tripped-Tracks :
      (b : Breaker) (w : List Bool)
      → Tracks size num den b w
      → is_tripped b ≡ should_trip size num den w
  unfolding is_tripped
  is_tripped-Tracks b w t =
      let (f, c) = Tracks-filled b w t.holds in rw (t.size_kept, t.num_kept, t.den_kept, f, c) refl

  new_breaker-Tracks : 0 < size → Tracks size num den (new_breaker size num den) (last_of size [])
  unfolding new_breaker
  new_breaker-Tracks h = rw (drop-nil (0 - size)) (record {
    size_kept = length-replicate size false;
    num_kept = refl;
    den_kept = refl;
    holds = new_breaker-Holds size num den h;
  })

  -- After any results the breaker answers the next one by the last `size` results alone: it trips
  -- when at least half of `size` are in and the failures among them exceed the threshold.
  pub record_result-run :
      (xs : List Bool) (x : Bool)
      → 0 < size
      → (record_result (run (new_breaker size num den) xs) x).1
        ≡ should_trip size num den (last_of size (xs ++ x ∷ []))
  record_result-run xs x h =
      let t = run-Tracks (new_breaker size num den) [] xs h (new_breaker-Tracks h) in
      let t' = record_result-Tracks (run (new_breaker size num den) xs) (last_of size xs) x t in
      unfold record_result in
      is_tripped-Tracks _ _ t' ∙ ap (should_trip size num den) (slide-last_of size xs x h)
