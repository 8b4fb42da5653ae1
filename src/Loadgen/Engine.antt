-- ===== src/Loadgen/Engine.antt =====
-- internal/loadgen/engine.go: the open-loop engine, as steps of its loop and of the goroutines that
-- run an operation. One goroutine runs an operation, then adds it to the statistics, then feeds the
-- breaker, and gives its slot back last; `breaker.record` and the store of `tripped` are one step.
use golang_helloworld.Prelude.{
  Bool, List, Option, [], ap, arith, false, if◌then◌else◌, length, length-remove, none, refl, some,
  suc, true, ℕ, ◌++◌, ◌+◌, ◌-◌, ◌<◌, ◌∷◌, ◌≡◌, ◌≤◌,
}
use golang_helloworld.Loadgen.Breaker.{Breaker, record_result}
use golang_helloworld.Loadgen.Scenarios.{Op}
use golang_helloworld.Loadgen.Summary.{AreTallied, Stats, add, add-AreTallied, add_shed, length-add}

-- How `run` comes to its end.
pub data Ending : Type 0 where
  breaker_tripped in_time : Ending

-- The loop waits in its select, or it has passed the test of `tripped` and is about to call `arrive`.
pub data Stage : Type 0 where
  ticking : Stage
  arriving : Stage
  ending : Ending → Stage
  ended : Ending → Stage

-- `attempting` goroutines run an operation, those of `added` have yet to feed the breaker with their
-- failure, `leaving` ones have only their slot to give back. `arrivals`, `cut` and `finished` count
-- what has happened, for the statements.
pub record Engine : Type 0 where
  pub stage : Stage
  pub tripped : Bool
  pub stats : Stats
  pub breaker : Option Breaker
  pub attempting : ℕ
  pub added : List Bool
  pub leaving : ℕ
  pub arrivals : ℕ
  pub cut : ℕ
  pub admitted : ℕ

-- The slots of the channel that are taken.
abbrev pub taken : Engine → ℕ
taken e = e.attempting + length e.added + e.leaving

-- e.breaker != nil && e.breaker.record(failed)
abbrev pub fed : Option Breaker → Bool → Option Breaker × Bool
fed none failed = (none, false)
fed (some b) failed = let (b', trips) = record_result b failed in (some b', trips)

pub data Step (concurrency : ℕ) (e : Engine) : Engine → Type 0 where
  stops_at_tick :
      e.stage ≡ ticking
      → e.tripped ≡ true
      → Step concurrency e (record e { stage = ending breaker_tripped })
  stops_in_time : e.stage ≡ ticking → Step concurrency e (record e { stage = ending in_time })
  ticks : e.stage ≡ ticking → e.tripped ≡ false → Step concurrency e (record e { stage = arriving })
  admits :
      e.stage ≡ arriving
      → taken e < concurrency
      → Step concurrency e (record e {
        stage = ticking;
        attempting = e.attempting + 1;
        arrivals = e.arrivals + 1;
        admitted = e.admitted + 1;
      })
  sheds :
      e.stage ≡ arriving
      → concurrency ≤ taken e
      → Step concurrency e
          (record e { stage = ticking; stats = add_shed e.stats; arrivals = e.arrivals + 1 })
  cuts :
      1 ≤ e.attempting
      → Step concurrency e
          (record e { attempting = e.attempting - 1; leaving = e.leaving + 1; cut = e.cut + 1 })
  adds :
      (o : Op) (d : ℕ) (failed : Bool)
      → 1 ≤ e.attempting
      → Step concurrency e (record e {
        attempting = e.attempting - 1;
        added = failed ∷ e.added;
        stats = add e.stats o d failed;
      })
  feeds :
      (before : List Bool) (failed : Bool) (after : List Bool)
      → e.added ≡ before ++ failed ∷ after
      → Step concurrency e (record e {
        added = before ++ after;
        leaving = e.leaving + 1;
        breaker = (fed e.breaker failed).0;
        tripped = if (fed e.breaker failed).1 then true else e.tripped;
      })
  releases : 1 ≤ e.leaving → Step concurrency e (record e { leaving = e.leaving - 1 })
  ends :
      (why : Ending)
      → e.stage ≡ ending why
      → taken e ≡ 0
      → Step concurrency e (record e { stage = ended why })

-- The engine as `run` starts it, on the statistics of the phases before.
abbrev pub start_engine : Option Breaker → Stats → Engine
start_engine b stats = record {
  stage = ticking;
  tripped = false;
  stats = stats;
  breaker = b;
  attempting = 0;
  added = [];
  leaving = 0;
  arrivals = 0;
  cut = 0;
  admitted = 0;
}

pub data Reach (concurrency : ℕ) (b : Option Breaker) (stats : Stats) : Engine → Type 0 where
  begun : Reach concurrency b stats (start_engine b stats)
  later :
      {e f : Engine}
      → Reach concurrency b stats e
      → Step concurrency e f
      → Reach concurrency b stats f

-- When the engine has ended, no goroutine is left.
abbrev pub IsQuiet : Stage → ℕ → Type 0
IsQuiet ticking n = Unit
IsQuiet arriving n = Unit
IsQuiet (ending why) n = Unit
IsQuiet (ended why) n = n ≡ 0

pub record IsEngine (concurrency : ℕ) (stats : Stats) (e : Engine) : Type 0 where
  pub slots_bounded : taken e ≤ concurrency
  pub arrivals_counted : e.arrivals + stats.shed ≡ e.admitted + e.stats.shed
  pub admitted_counted : e.admitted + length stats.durs ≡ e.attempting + length e.stats.durs + e.cut
  pub tallied : AreTallied e.stats
  pub quiet : IsQuiet e.stage (taken e)

IsQuiet-still : (stage : Stage) (n m : ℕ) → (n ≡ 0 → m ≡ 0) → IsQuiet stage n → IsQuiet stage m
IsQuiet-still ticking n m f h = tt
IsQuiet-still arriving n m f h = tt
IsQuiet-still (ending why) n m f h = tt
IsQuiet-still (ended why) n m f h = f h

shed_of_add : (s : Stats) (o : Op) (d : ℕ) (failed : Bool) → (add s o d failed).shed ≡ s.shed
unfolding add
shed_of_add s o d failed = refl

add_shed-AreTallied : (s : Stats) → AreTallied s → AreTallied (add_shed s)
unfolding add_shed
add_shed-AreTallied s h = record { by_op_sums = h.by_op_sums; errors_bounded = h.errors_bounded }

add_shed_counts : (s : Stats) → ((add_shed s).shed ≡ s.shed + 1) × ((add_shed s).durs ≡ s.durs)
unfolding add_shed
add_shed_counts s = (refl, refl)

-- A step that only moves the loop on.
staged :
    (c : ℕ) (stats : Stats) (e : Engine) (next : Stage)
    → IsEngine c stats e
    → IsQuiet next (taken e)
    → IsEngine c stats (record e { stage = next })
staged c stats e next h still = record {
  slots_bounded = h.slots_bounded;
  arrivals_counted = h.arrivals_counted;
  admitted_counted = h.admitted_counted;
  tallied = h.tallied;
  quiet = still;
}

Step-IsEngine :
    (c : ℕ) (stats : Stats) (e f : Engine) → IsEngine c stats e → Step c e f → IsEngine c stats f
Step-IsEngine c stats e f h (stops_at_tick t trip) = staged c stats e (ending breaker_tripped) h tt
Step-IsEngine c stats e f h (stops_in_time t) = staged c stats e (ending in_time) h tt
Step-IsEngine c stats e f h (ticks t trip) = staged c stats e arriving h tt
Step-IsEngine c stats e f h (admits t low) = record {
  slots_bounded = omega arith;
  arrivals_counted = omega (arith, h.arrivals_counted);
  admitted_counted = omega (arith, h.admitted_counted);
  tallied = h.tallied;
  quiet = tt;
}
Step-IsEngine c stats e f h (sheds t full) =
    let (one_more, same) = add_shed_counts e.stats in
    let long : length (add_shed e.stats).durs ≡ length e.stats.durs = ap length same in
    record {
      slots_bounded = h.slots_bounded;
      arrivals_counted = omega (arith, h.arrivals_counted, one_more);
      admitted_counted = omega (arith, h.admitted_counted, long);
      tallied = add_shed-AreTallied e.stats h.tallied;
      quiet = tt;
    }
Step-IsEngine c stats e f h (cuts some_left) = record {
  slots_bounded = omega (arith, h.slots_bounded);
  arrivals_counted = h.arrivals_counted;
  admitted_counted = omega (arith, h.admitted_counted);
  tallied = h.tallied;
  quiet =
      IsQuiet-still e.stage (taken e) (e.attempting - 1 + length e.added + (e.leaving + 1))
        (λ z. absurd (omega (arith, z, some_left))) h.quiet;
}
Step-IsEngine c stats e f h (adds o d failed some_left) = record {
  slots_bounded = omega (arith, h.slots_bounded);
  arrivals_counted = omega (arith, h.arrivals_counted, shed_of_add e.stats o d failed);
  admitted_counted = omega (arith, h.admitted_counted, length-add e.stats o d failed);
  tallied = add-AreTallied e.stats o d failed h.tallied;
  quiet =
      IsQuiet-still e.stage (taken e) (e.attempting - 1 + suc (length e.added) + e.leaving)
        (λ z. absurd (omega (arith, z, some_left))) h.quiet;
}
Step-IsEngine c stats e f h (feeds before failed after held) =
    let long : length e.added ≡ length (before ++ failed ∷ after) = ap length held in
    record {
      slots_bounded = omega (arith, h.slots_bounded, long, length-remove before failed after);
      arrivals_counted = h.arrivals_counted;
      admitted_counted = h.admitted_counted;
      tallied = h.tallied;
      quiet =
          IsQuiet-still e.stage (taken e)
            (e.attempting + length (before ++ after) + (e.leaving + 1))
            (λ z. omega (arith, z, long, length-remove before failed after)) h.quiet;
    }
Step-IsEngine c stats e f h (releases some_left) = record {
  slots_bounded = omega (arith, h.slots_bounded);
  arrivals_counted = h.arrivals_counted;
  admitted_counted = h.admitted_counted;
  tallied = h.tallied;
  quiet =
      IsQuiet-still e.stage (taken e) (e.attempting + length e.added + (e.leaving - 1))
        (λ z. absurd (omega (arith, z, some_left))) h.quiet;
}
Step-IsEngine c stats e f h (ends why t none_left) = staged c stats e (ended why) h none_left

-- At every point of a run, the requests in flight are `concurrency` at most; every arrival was
-- admitted or shed, and every one admitted is in flight, counted as a request, or was cut by the
-- interrupt; the requests counted by operation add up to those counted by duration, and the
-- errors are no more; and when the engine has ended, nothing is in flight. It takes that the
-- statistics it starts on were tallied so.
pub Reach-IsEngine :
    (c : ℕ) (b : Option Breaker) (stats : Stats) (e : Engine)
    → AreTallied stats
    → Reach c b stats e
    → IsEngine c stats e
Reach-IsEngine c b stats e h begun = record {
  slots_bounded = omega arith;
  arrivals_counted = omega arith;
  admitted_counted = omega arith;
  tallied = h;
  quiet = tt;
}
Reach-IsEngine c b stats f h (later {e = e} r step) =
    Step-IsEngine c stats e f (Reach-IsEngine c b stats e h r) step
