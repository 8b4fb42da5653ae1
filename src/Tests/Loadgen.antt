-- ===== src/Tests/Loadgen.antt =====
-- internal/loadgen: runs at concrete inputs, and instances of the theorems.
use golang_helloworld.Prelude.{[], arith, false, none, refl, true, ◌∷◌, ◌≡◌}
use golang_helloworld.Loadgen.Scenarios.{mixed_ops, total_weight}
use golang_helloworld.Loadgen.Summary.{add_shed, new_stats, new_stats-AreTallied}
use golang_helloworld.Loadgen.Engine.{
  Engine, IsEngine, Reach, Reach-IsEngine, admits, begun, later, sheds, start_engine, ticks,
}
use golang_helloworld.Loadgen.Breaker.{new_breaker, record_result}
use golang_helloworld.Loadgen.Breaker.History.{record_result-run, run, should_trip}

-- Three failures out of four, over a ring of four at one half.
trips : (record_result (run (new_breaker 4 1 2) (true ∷ false ∷ true ∷ [])) true).1 ≡ true
unfolding record_result run new_breaker
trips = refl

record_result-run_example :
    (record_result (run (new_breaker 2 1 2) (true ∷ true ∷ [])) false).1
    ≡ should_trip 2 1 2 (true ∷ false ∷ [])
record_result-run_example = record_result-run 2 1 2 (true ∷ true ∷ []) false (omega arith)

-- The mixes of the source add up to 100.
weights_mixed : total_weight mixed_ops ≡ 100
weights_mixed = refl

-- One slot: the first arrival is admitted, and the second one is shed.
abbrev one_shed : Engine
one_shed = record (start_engine none new_stats) {
  stats = add_shed new_stats;
  attempting = 1;
  arrivals = 2;
  admitted = 1;
}

one_shed_reached : Reach 1 none new_stats one_shed
unfolding add_shed new_stats
one_shed_reached =
    later
      (later (later (later begun (ticks refl refl)) (admits refl (omega arith))) (ticks refl refl))
      (sheds refl (omega arith))

Reach-IsEngine_example : IsEngine 1 new_stats one_shed
Reach-IsEngine_example =
    Reach-IsEngine 1 none new_stats one_shed new_stats-AreTallied one_shed_reached
