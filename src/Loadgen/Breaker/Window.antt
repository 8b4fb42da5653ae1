-- ===== src/Loadgen/Breaker/Window.antt =====
-- The breaker of internal/loadgen/breaker.go against its description: the ring stands for the
-- window of the last results, oldest first.
use native.Mathlib.Nat.{mod-eq_of_lt}
use native.Mathlib.Numerals.{add-one}
use golang_helloworld.Prelude.{
  Bool, List, [], ap, append-nil, append_assoc, arith, drop, false, get_or, get_or-append_at,
  if◌then◌else◌, length, length-append, refl, replicate, set, set-append_at, suc, sym, true, zero,
  ℕ, ◌%◌, ◌++◌, ◌+◌, ◌-◌, ◌<◌, ◌∙◌, ◌∷◌, ◌≡◌,
}
use golang_helloworld.Loadgen.Breaker.{Breaker, new_breaker, observe}

abbrev pub failures_in : List Bool → ℕ
failures_in [] = 0
failures_in (true ∷ xs) = suc (failures_in xs)
failures_in (false ∷ xs) = failures_in xs

failures-append : (xs ys : List Bool) → failures_in (xs ++ ys) ≡ failures_in xs + failures_in ys
failures-append [] ys = omega arith
failures-append (true ∷ xs) ys = omega (arith, failures-append xs ys)
failures-append (false ∷ xs) ys = omega (arith, failures-append xs ys)

-- The last `size` of a history, oldest first.
abbrev pub last_of : ℕ → List Bool → List Bool
last_of size xs = drop (length xs - size) xs

-- The window, with one more result.
abbrev pub slide : ℕ → List Bool → Bool → List Bool
slide size w x = last_of size (w ++ x ∷ [])

-- While the ring fills, its used part is the window; once full, the window starts at `next`.
pub data Holds (b : Breaker) (w : List Bool) : Type 0 where
  filling :
      (unused : Bool) (rest : List Bool)
      → b.ring ≡ w ++ unused ∷ rest
      → b.next ≡ length w
      → b.filled ≡ length w
      → b.failures ≡ failures_in w
      → Holds b w
  full :
      (newer older : List Bool)
      → b.ring ≡ newer ++ older
      → w ≡ older ++ newer
      → length newer < length b.ring
      → b.next ≡ length newer
      → b.filled ≡ length w
      → b.failures ≡ failures_in w
      → Holds b w

pub new_breaker-Holds : (size num den : ℕ) → 0 < size → Holds (new_breaker size num den) []
unfolding new_breaker
new_breaker-Holds zero num den h = elim h [ ]
new_breaker-Holds (suc n) num den h = filling false (replicate n false) refl refl refl refl

drop-append : (xs ys : List Bool) → drop (length xs) (xs ++ ys) ≡ ys
drop-append [] ys = refl
drop-append (x ∷ xs) ys = drop-append xs ys

-- When nothing falls out.
slide_short : (size : ℕ) (w : List Bool) (x : Bool) → length w < size → slide size w x ≡ w ++ x ∷ []
slide_short size w x h =
    let e : length (w ++ x ∷ []) - size ≡ 0 = omega (arith, length-append w (x ∷ [])) in rw e refl

-- When the oldest result falls out.
slide_full :
    (size : ℕ) (o : Bool) (w : List Bool) (x : Bool)
    → length (o ∷ w) ≡ size
    → slide size (o ∷ w) x ≡ w ++ x ∷ []
slide_full size o w x h =
    let e : length ((o ∷ w) ++ x ∷ []) - size ≡ 1 = omega (arith, length-append w (x ∷ [])) in
    rw e refl

-- The write at `next`, and what it overwrites.
module _ (xs : List Bool) (y : Bool) (ys : List Bool) (x : Bool) where
  read_at :
      (ring : List Bool) (i : ℕ) → ring ≡ xs ++ y ∷ ys → i ≡ length xs → get_or ring i false ≡ y
  read_at ring i r n = rw (r, n) (get_or-append_at xs y ys false)

  write_at :
      (ring : List Bool) (i : ℕ) → ring ≡ xs ++ y ∷ ys → i ≡ length xs → set ring i x ≡ xs ++ x ∷ ys
  write_at ring i r n = rw (r, n) (set-append_at xs y ys x)

  size_at : (ring : List Bool) → ring ≡ xs ++ y ∷ ys → length ring ≡ length xs + suc (length ys)
  size_at ring r = rw r (length-append xs (y ∷ ys))

-- `next` wraps at the end of the ring.
next_wrap : (i size : ℕ) → suc i ≡ size → (i + 1) % size ≡ 0
next_wrap i size e = rw (← e) (grind arith)

next_step : (i size : ℕ) → suc i < size → (i + 1) % size ≡ suc i
next_step i size h = rw add-one (mod-eq_of_lt h)

failures_snoc :
    (w : List Bool) (x : Bool)
    → failures_in (w ++ x ∷ []) ≡ (if x then failures_in w + 1 else failures_in w)
failures_snoc w true = omega (arith, failures-append w (true ∷ []))
failures_snoc w false = omega (arith, failures-append w (false ∷ []))

-- While the ring fills, nothing is evicted.
module _ (b : Breaker) (w : List Bool) (x : Bool) (f : b.filled ≡ length w)
    (c : b.failures ≡ failures_in w) where
  failures_filling : length w < length b.ring → (observe b x).failures ≡ failures_in (w ++ x ∷ [])
  unfolding observe
  failures_filling h = ground (arith, failures_snoc w x)

  filled_filling : length w < length b.ring → (observe b x).filled ≡ length (w ++ x ∷ [])
  unfolding observe
  filled_filling h = ground (arith, length-append w (x ∷ []))

-- Once it is full, the oldest result is.
module _ (b : Breaker) (o : Bool) (w : List Bool) (x : Bool) (f : b.filled ≡ length (o ∷ w))
    (c : b.failures ≡ failures_in (o ∷ w)) where
  failures_full :
      length b.ring ≡ length (o ∷ w)
      → get_or b.ring b.next false ≡ o
      → (observe b x).failures ≡ failures_in (w ++ x ∷ [])
  unfolding observe
  failures_full e g = ground (arith, failures_snoc w x)

  filled_full : length b.ring ≡ length (o ∷ w) → (observe b x).filled ≡ length (w ++ x ∷ [])
  unfolding observe
  filled_full e = ground (arith, length-append w (x ∷ []))

-- One result slides the window.
pub slides :
    (b : Breaker) (w : List Bool) (x : Bool)
    → Holds b w
    → Holds (observe b x) (slide (length b.ring) w x)
slides b w x (filling u [] r n f c) =
    let size = size_at w u [] x b.ring r in
    let now = write_at w u [] x b.ring b.next r n in
    rw (slide_short (length b.ring) w x (omega arith)) (
      unfold observe in
      full [] (w ++ x ∷ []) now (sym (append-nil _))
        (omega (arith, ap length now, length-append w (x ∷ [])))
        (next_wrap b.next (length b.ring) (omega arith)) (filled_filling b w x f c (omega arith))
        (failures_filling b w x f c (omega arith)))
slides b w x (filling u (y ∷ rest) r n f c) =
    let size = size_at w u (y ∷ rest) x b.ring r in
    let now = write_at w u (y ∷ rest) x b.ring b.next r n in
    rw (slide_short (length b.ring) w x (omega arith)) (
      unfold observe in
      filling y rest (now ∙ sym (append_assoc w (x ∷ []) (y ∷ rest)))
        (next_step b.next (length b.ring) (omega arith) ∙ omega (arith, length-append w (x ∷ [])))
        (filled_filling b w x f c (omega arith)) (failures_filling b w x f c (omega arith)))
slides b w x (full newer [] r e l n f c) =
    absurd (omega (arith, ap length r, length-append newer []))
slides b w x (full newer (o ∷ []) r e l n f c) =
    let size = size_at newer o [] x b.ring r in
    let now = write_at newer o [] x b.ring b.next r n in
    let held : length b.ring ≡ length (o ∷ newer) = omega arith in
    let f' : b.filled ≡ length (o ∷ newer) = f ∙ ap length e in
    let c' : b.failures ≡ failures_in (o ∷ newer) = c ∙ ap failures_in e in
    rw (e, slide_full (length b.ring) o newer x (sym held))
      (unfold observe in
        full [] (newer ++ x ∷ []) now (sym (append-nil _))
          (omega (arith, ap length now, length-append newer (x ∷ [])))
          (next_wrap b.next (length b.ring) (omega arith)) (filled_full b o newer x f' c' held)
          (failures_full b o newer x f' c' held (read_at newer o [] x b.ring b.next r n)))
slides b w x (full newer (o ∷ p ∷ older) r e l n f c) =
    let rest = (p ∷ older) ++ newer in
    let size = size_at newer o (p ∷ older) x b.ring r in
    let now = write_at newer o (p ∷ older) x b.ring b.next r n in
    let held : length b.ring ≡ length (o ∷ rest) = omega (arith, length-append (p ∷ older) newer) in
    let f' : b.filled ≡ length (o ∷ rest) = f ∙ ap length e in
    let c' : b.failures ≡ failures_in (o ∷ rest) = c ∙ ap failures_in e in
    rw (e, slide_full (length b.ring) o rest x (sym held))
      (unfold observe in
        full (newer ++ x ∷ []) (p ∷ older) (now ∙ sym (append_assoc newer (x ∷ []) (p ∷ older)))
          (append_assoc (p ∷ older) newer (x ∷ []))
          (omega (
            arith,
            ap length now,
            length-append newer (x ∷ p ∷ older),
            length-append newer (x ∷ []),
          ))
          (next_step b.next (length b.ring) (omega arith)
            ∙ omega (arith, length-append newer (x ∷ [])))
          (filled_full b o rest x f' c' held)
          (failures_full b o rest x f' c' held (read_at newer o (p ∷ older) x b.ring b.next r n)))
