-- ===== src/Tests/Loop.antt =====
-- internal/platform/queue/consumer.go: a run of the read loop, and instances of its theorems.
use golang_helloworld.Prelude.{[], arith, false, refl, ℕ, ◌∷◌}
use golang_helloworld.Queue.Job.{Message, no_fields}
use golang_helloworld.Queue.Consumer.Loop.{
  IsRun, Reach, Reach-IsRun, RunState, asks, begun, group_ready, later, reads, spawning, spawns,
}

abbrev numbered : ℕ → Message
numbered n = record { id = n ∷ []; fields = no_fields }

-- Two messages are read with two slots free, and the first one is in work.
abbrev one_started : RunState
one_started = record {
  phase = spawning (numbered 2 ∷ []);
  canceled = false;
  running = numbered 1 ∷ [];
  taken = numbered 1 ∷ [];
  done_with = [];
}

one_started_reached : Reach 2 one_started
one_started_reached =
    later
      (later (later (later begun (group_ready refl)) (asks refl refl (omega arith)))
        (reads 2 (numbered 1 ∷ numbered 2 ∷ []) refl (omega arith)))
      (spawns (numbered 1) (numbered 2 ∷ []) refl (omega arith))

Reach-IsRun_example : IsRun 2 one_started
Reach-IsRun_example = Reach-IsRun 2 one_started one_started_reached
