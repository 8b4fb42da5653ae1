-- ===== src/Loadgen/Summary.antt =====
-- internal/loadgen/summary.go: the statistics of a run. Durations are nanoseconds; math.Ceil of the
-- float64 product and sort.Slice are parameters.
use golang_helloworld.Prelude.{
  All, Bool, List, [], ap, arith, false, get_or, if◌then◌else◌, leb, length, length-append, le→leb,
  ltb, lt→ltb, refl, subst, suc, sym, true, zero, ℕ, ◌++◌, ◌+◌, ◌-◌, ◌<◌, ◌∙◌, ◌∷◌, ◌≡◌, ◌≤◌,
}
use golang_helloworld.Text.Decimal.{negsuc, pos, ℤ}
use golang_helloworld.Loadgen.Scenarios.{
  Op, op_delete, op_list, op_settings, op_thumbnail, op_upload, op_view,
}

pub record Stats : Type 0 where
  pub durs : List ℕ
  pub errors : ℕ
  pub shed : ℕ
  pub by_op : Op → ℕ

unfoldable pub new_stats : Stats
new_stats = record { durs = []; errors = 0; shed = 0; by_op = λ o. 0 }

abbrev pub same_op : Op → Op → Bool
same_op op_list op_list = true
same_op op_view op_view = true
same_op op_thumbnail op_thumbnail = true
same_op op_upload op_upload = true
same_op op_delete op_delete = true
same_op op_settings op_settings = true
same_op _ _ = false

-- s.byOp[op]++
abbrev pub bump : (Op → ℕ) → Op → Op → ℕ
bump by_op o p = if same_op o p then by_op p + 1 else by_op p

unfoldable pub add : Stats → Op → ℕ → Bool → Stats
add s o d failed = record s {
  durs = s.durs ++ d ∷ [];
  by_op = bump s.by_op o;
  errors = if failed then s.errors + 1 else s.errors;
}

unfoldable pub add_shed : Stats → Stats
add_shed s = record s { shed = s.shed + 1 }

-- max(0, min(i, n - 1)) for the rank that comes before it is made an index.
abbrev pub clamp : ℤ → ℕ → ℕ
clamp (pos zero) n = 0
clamp (pos (suc i)) n = if ltb i n then i else n - 1
clamp (negsuc i) n = 0

-- percentile, where `rank` is int(math.Ceil(q * float64(n))).
unfoldable pub percentile : (ℕ → ℤ) → List ℕ → ℕ
percentile rank [] = 0
percentile rank (d ∷ ds) = get_or (d ∷ ds) (clamp (rank (length (d ∷ ds))) (length (d ∷ ds))) 0

abbrev pub sum_by_op : (Op → ℕ) → ℕ
sum_by_op f = f op_list + f op_view + f op_thumbnail + f op_upload + f op_delete + f op_settings

-- The counters agree: each request is counted under one operation, and no error is counted twice.
pub record AreTallied (s : Stats) : Type 0 where
  pub by_op_sums : sum_by_op s.by_op ≡ length s.durs
  pub errors_bounded : s.errors ≤ length s.durs

sum_by_op-bump : (f : Op → ℕ) (o : Op) → sum_by_op (bump f o) ≡ sum_by_op f + 1
sum_by_op-bump f op_list = omega arith
sum_by_op-bump f op_view = omega arith
sum_by_op-bump f op_thumbnail = omega arith
sum_by_op-bump f op_upload = omega arith
sum_by_op-bump f op_delete = omega arith
sum_by_op-bump f op_settings = omega arith

pub new_stats-AreTallied : AreTallied new_stats
unfolding new_stats
new_stats-AreTallied = record { by_op_sums = refl; errors_bounded = omega arith }

pub length-add :
    (s : Stats) (o : Op) (d : ℕ) (failed : Bool)
    → length (add s o d failed).durs ≡ length s.durs + 1
unfolding add
length-add s o d failed = length-append s.durs (d ∷ [])

pub add-AreTallied :
    (s : Stats) (o : Op) (d : ℕ) (failed : Bool) → AreTallied s → AreTallied (add s o d failed)
unfolding add
add-AreTallied s o d failed h = record {
  by_op_sums = omega (arith, sum_by_op-bump s.by_op o, h.by_op_sums, length-append s.durs (d ∷ []));
  errors_bounded = more failed;
}
  where
    more : (b : Bool) → (if b then s.errors + 1 else s.errors) ≤ length (s.durs ++ d ∷ [])
    more true = omega (arith, h.errors_bounded, length-append s.durs (d ∷ []))
    more false = omega (arith, h.errors_bounded, length-append s.durs (d ∷ []))

-- Sorted upwards.
abbrev pub IsSorted : List ℕ → Type 0
IsSorted [] = Unit
IsSorted (d ∷ ds) = All (λ e. d ≤ e) ds × IsSorted ds

-- How many are at most `p`, and how many are less.
abbrev pub at_most : ℕ → List ℕ → ℕ
at_most p [] = 0
at_most p (d ∷ ds) = (if leb d p then 1 else 0) + at_most p ds

abbrev pub below_of : ℕ → List ℕ → ℕ
below_of p [] = 0
below_of p (d ∷ ds) = (if ltb d p then 1 else 0) + below_of p ds

below_of-none : (d : ℕ) (ds : List ℕ) → All (λ e. d ≤ e) ds → below_of d ds ≡ 0
below_of-none d [] h = refl
below_of-none d (e ∷ ds) h =
    let not_less : ltb e d ≡ false = ground arith in
    rw not_less (omega (arith, below_of-none d ds h.1))

All-get_or : (d : ℕ) (ds : List ℕ) (i : ℕ) → All (λ e. d ≤ e) ds → i < length ds → d ≤ get_or ds i 0
All-get_or d [] i h low = absurd (omega (arith, low))
All-get_or d (e ∷ ds) zero h low = h.0
All-get_or d (e ∷ ds) (suc i) h low = All-get_or d ds i h.1 (omega arith)

ranked :
    (ds : List ℕ) (i : ℕ)
    → IsSorted ds
    → i < length ds
    → (i + 1 ≤ at_most (get_or ds i 0) ds) × (below_of (get_or ds i 0) ds ≤ i)
ranked [] i h low = absurd (omega (arith, low))
ranked (d ∷ ds) zero h low =
    let counted : leb d d ≡ true = ground arith in
    let not_less : ltb d d ≡ false = ground arith in
    rw (counted, not_less, below_of-none d ds h.0) (omega arith, omega arith)
ranked (d ∷ ds) (suc i) h low =
    let (more, less) = ranked ds i h.1 (omega arith) in
    let counted : leb d (get_or ds i 0) ≡ true =
      le→leb d (get_or ds i 0) (All-get_or d ds i h.0 (omega arith)) in
    rw counted (omega (arith, more), omega (arith, bounded (ltb d (get_or ds i 0)) less))
  where
    bounded : {n : ℕ} (b : Bool) → n ≤ i → (if b then 1 else 0) + n ≤ i + 1
    bounded true h = omega (arith, h)
    bounded false h = omega (arith, h)

-- For a rank from 1 to the number of durations, the percentile of sorted durations is the one of
-- that rank: at least so many durations are at most as long, and fewer are shorter.
percentile-ranked :
    (rank : ℕ → ℤ) (r : ℕ) (d : ℕ) (ds : List ℕ)
    → IsSorted (d ∷ ds)
    → rank (length (d ∷ ds)) ≡ pos (suc r)
    → r < length (d ∷ ds)
    → (r + 1 ≤ at_most (percentile rank (d ∷ ds)) (d ∷ ds))
      × (below_of (percentile rank (d ∷ ds)) (d ∷ ds) < r + 1)
unfolding percentile
percentile-ranked rank r d ds sorted e low =
    let here : ltb r (length (d ∷ ds)) ≡ true = lt→ltb r (length (d ∷ ds)) low in
    let place : clamp (rank (length (d ∷ ds))) (length (d ∷ ds)) ≡ r =
      ap (λ z. clamp z (length (d ∷ ds))) e ∙ rw here refl in
    let value : percentile rank (d ∷ ds) ≡ get_or (d ∷ ds) r 0 =
      ap (λ i. get_or (d ∷ ds) i 0) place in
    let (more, less) = ranked (d ∷ ds) r sorted low in
    subst (λ p. (r + 1 ≤ at_most p (d ∷ ds)) × (below_of p (d ∷ ds) < r + 1)) (sym value)
      (more, omega (arith, less))
