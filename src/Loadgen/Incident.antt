-- ===== src/Loadgen/Incident.antt =====
-- internal/loadgen/incident.go: the phases of the incident, and the reset of the controls that always
-- comes last. Probabilities are thousandths; an error is kept without its text, and the lines that
-- are printed are left out.
use golang_helloworld.Prelude.{Bool, List, [], false, if◌then◌else◌, true, ℕ, ◌∷◌}
use golang_helloworld.Text.{Str, bytes}
use golang_helloworld.Loadgen.Scenarios.{
  Weighted, mixed_ops, op_list, op_thumbnail, op_upload, weigh,
}

pub record DemoControls : Type 0 where
  pub latency_ms : ℕ
  pub latency_probability : ℕ
  pub latency_routes : List Str
  pub error_probability : ℕ
  pub slow_db_ms : ℕ
  pub worker_failure_probability : ℕ
  pub worker_delay_ms : ℕ

abbrev pub no_controls : DemoControls
no_controls = record {
  latency_ms = 0;
  latency_probability = 0;
  latency_routes = [];
  error_probability = 0;
  slow_db_ms = 0;
  worker_failure_probability = 0;
  worker_delay_ms = 0;
}

pub record Phase : Type 0 where
  pub name : Str
  pub minutes : ℕ
  pub controls : DemoControls
  pub ops : List Weighted

abbrev pub upload_heavy : List Weighted
upload_heavy = weigh op_upload 60 ∷ weigh op_list 20 ∷ weigh op_thumbnail 20 ∷ []

abbrev pub phase_of : Str → ℕ → DemoControls → List Weighted → Phase
phase_of name minutes controls ops = record {
  name = name;
  minutes = minutes;
  controls = controls;
  ops = ops;
}

abbrev pub incident_phases : List Phase
incident_phases =
    phase_of (bytes "baseline") 2 no_controls mixed_ops
    ∷ phase_of (bytes "latency") 2
        (record no_controls {
          latency_ms = 800;
          latency_probability = 500;
          latency_routes = bytes "/api/images" ∷ [];
        })
        mixed_ops
    ∷ phase_of (bytes "errors") 2 (record no_controls { error_probability = 200 }) mixed_ops
    ∷ phase_of (bytes "worker-slowdown") 3 (record no_controls { worker_delay_ms = 4000 })
        upload_heavy
    ∷ phase_of (bytes "recovery") 1 no_controls mixed_ops
    ∷ []

-- How an incident ends: with no error, or with that of a phase or of the reset.
pub data Verdict : Type 0 where
  fine : Verdict
  controls_not_set : Str → Verdict
  engine_failed controls_not_reset : Verdict

-- What the incident calls: `true` is an error.
pub record Calls (W : Type 0) : Type 0 where
  pub is_interrupted : W → Bool
  pub set_controls : DemoControls → W → Bool × W
  pub reset_controls : W → Bool × W
  pub run_engine : Phase → W → Bool × W

module _ {W : Type 0} (calls : Calls W) where
  -- The rest of the phases, unless the engine of this one failed.
  abbrev pub after_engine : (W → Verdict × W) → Bool × W → Verdict × W
  after_engine rest (true, w) = (engine_failed, w)
  after_engine rest (false, w) = rest w

  abbrev pub after_controls : Phase → (W → Verdict × W) → Bool × W → Verdict × W
  after_controls p rest (true, w) = (controls_not_set p.name, w)
  after_controls p rest (false, w) = after_engine rest (calls.run_engine p w)

  unfoldable pub play : List Phase → W → Verdict × W
  play [] w = (fine, w)
  play (p ∷ phases) w =
      let rest = after_controls p (λ w'. play phases w') (calls.set_controls p.controls w) in
      if calls.is_interrupted w then (fine, w) else rest

  -- The error of the phases comes before that of the reset.
  abbrev pub after_reset : Verdict → Bool × W → Verdict × W
  after_reset fine (true, w) = (controls_not_reset, w)
  after_reset (controls_not_set name) (true, w) = (controls_not_set name, w)
  after_reset engine_failed (true, w) = (engine_failed, w)
  after_reset controls_not_reset (true, w) = (controls_not_reset, w)
  after_reset verdict (false, w) = (verdict, w)

  unfoldable pub run_incident : W → Verdict × W
  unfolding play
  run_incident w =
      let (verdict, w1) = play incident_phases w in after_reset verdict (calls.reset_controls w1)
