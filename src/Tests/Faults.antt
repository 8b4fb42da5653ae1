-- ===== src/Tests/Faults.antt =====
-- internal/domain/demo and internal/faults: instances of the theorems, with thousandths for float64.
use golang_helloworld.Prelude.{
  Option, [], arith, ltb, none, refl, some, subst, suc, true, ℕ, ◌*◌, ◌+◌, ◌/◌, ◌<◌, ◌∷◌, ◌≡◌,
}
use golang_helloworld.Faults.Service.{
  Cache, Holds, Repository, get_controls, get_controls-update_controls, no_controls, saved,
  update_controls,
}
use golang_helloworld.Faults.Injector.{Injector, middleware, start}
use golang_helloworld.Faults.Requests.{Meets, middleware-Meets}
use golang_helloworld.Faults.Budget.{delays_before_claim, held_ms}
use golang_helloworld.Text.{bytes}
use golang_helloworld.Text.Decimal.{atoi, itoa, itoa_nat, pos}
use golang_helloworld.Queue.Job.{Message, job_from_message, no_fields, update}
use golang_helloworld.Queue.Consumer.{
  Outside, ack, attempt, attempts, attempts_from, back_off, default_options, handle, panics,
}
use golang_helloworld.Queue.Consumer.Bounds.{as_attempt, as_pause, total}
use golang_helloworld.Faults.{Controls, Float, validate_controls}

abbrev thousandths : Float
thousandths = record { Number = ℕ; less = ltb; zero_point = 0; one_point = 1000 }

abbrev slow_half : Controls thousandths
slow_half = record {
  latency_ms = pos 200;
  latency_probability = 505;
  latency_routes = [];
  error_probability = 100;
  slow_db_ms = pos 0;
  worker_failure_probability = 0;
  worker_delay_ms = pos 9_000;
}

slow_half_valid : validate_controls thousandths slow_half ≡ []
unfolding validate_controls
slow_half_valid = refl

-- The row, and the entry of the cache.
abbrev Kept : Type 0
Kept = Controls thousandths × Option (Controls thousandths)

abbrev memory : Cache thousandths Kept
memory = record { fetch = λ w. (w.1, w); put = λ c w. (w.0, some c); remove = λ w. (w.0, none) }

-- The columns keep hundredths.
abbrev hundredths : ℕ → ℕ
hundredths n = n / 10 * 10

abbrev rounded : Controls thousandths → Controls thousandths
rounded c = record c {
  latency_probability = hundredths c.latency_probability;
  error_probability = hundredths c.error_probability;
  worker_failure_probability = hundredths c.worker_failure_probability;
}

abbrev database : Repository thousandths Kept
database = record { load = λ w. (some w.0, w); save = λ c w. (some c, (rounded c, w.1)) }

abbrev row_of_kept : Kept → Controls thousandths
row_of_kept w = w.0

abbrev entry_of_kept : Kept → Option (Controls thousandths)
entry_of_kept w = w.1

kept_Holds : Holds thousandths database memory rounded row_of_kept entry_of_kept
kept_Holds = record {
  load_reads = λ w c e. cc;
  load_keeps = λ w. (refl, refl);
  save_writes = λ c d w e. (cc, refl);
  fetch_reads = λ w c e. e;
  fetch_keeps = λ w. (refl, refl);
  remove_empties = λ w. (refl, refl);
}

abbrev before : Kept
before = (no_controls thousandths, some (no_controls thousandths))

slow_half_saved :
    (update_controls thousandths database (some memory) slow_half before).0 ≡ saved slow_half
unfolding update_controls validate_controls
slow_half_saved = refl

get_controls-update_controls_example :
    let w' = (update_controls thousandths database (some memory) slow_half before).1 in
    (slow_half ≡ slow_half)
    × ((e : Controls thousandths)
        → (get_controls thousandths database (some memory) w').0 ≡ some e
        → e ≡ rounded slow_half)
get_controls-update_controls_example =
    get_controls-update_controls thousandths database memory rounded row_of_kept entry_of_kept
      kept_Holds slow_half slow_half before slow_half_saved

abbrev steady : Injector thousandths ℕ
steady = record {
  source = λ w. (some slow_half, w);
  rnd = λ w. (50, suc w);
  sleep = λ d w. (none, w);
  next = λ w. w;
}

middleware-Meets_example :
    let (answer, s) = middleware thousandths steady (bytes "/api/images") (start 0) in
    Meets thousandths steady (bytes "/api/images") 0 answer s.notes s.world
middleware-Meets_example = middleware-Meets thousandths steady (bytes "/api/images") 0

abbrev always_failing : Outside ℕ
always_failing = record {
  handler = λ job w. (panics, suc w);
  text_of = λ e. [];
  now = λ w. [];
  xadd_dead = λ f w. (true, w);
  xack = λ id w. (true, w);
  on_dead_letter = none;
}

abbrev message_nine : Message
message_nine = record { id = bytes "9-0"; fields = update no_fields "image_id" (bytes "9") }

four_attempts :
    total as_attempt
      (handle default_options always_failing message_nine (record { world = 0; trace = [] })).trace
    ≡ 4
unfolding handle attempts attempts_from attempt back_off ack job_from_message atoi itoa itoa_nat
four_attempts = refl

steady_valid :
    (v : ℕ) (c : Controls thousandths)
    → (steady.source v).0 ≡ some c
    → validate_controls thousandths c ≡ []
steady_valid v c e = subst (λ x. validate_controls thousandths x ≡ []) (some-inj e) slow_half_valid
  where
    some-inj : {a b : Controls thousandths} → some a ≡ some b → a ≡ b
    some-inj h = cc

-- Each of the four attempts meets the worker fault.
delays_before_claim_example :
    held_ms thousandths steady (0 ∷ 1 ∷ 2 ∷ 3 ∷ []) * 1_000_000
      + total as_pause
          (handle default_options always_failing message_nine
            (record { world = 0; trace = [] })).trace
    < default_options.claim_idle
delays_before_claim_example =
    delays_before_claim thousandths steady always_failing message_nine 0 (0 ∷ 1 ∷ 2 ∷ 3 ∷ [])
      steady_valid (omega (arith, four_attempts))
