-- ===== src/Faults/Injector.antt =====
-- internal/faults/injector.go: the faults that the controls draw, for a request, a query and a job.
-- `W` is the state outside. Of the spans, counters and log lines the fault's name is kept, in a
-- trace, with the sleeps in milliseconds.
use golang_helloworld.Prelude.{
  Bool, List, Option, [], false, if◌then◌else◌, none, not, some, true, ℕ, ◌&&◌, ◌++◌, ◌||◌, ◌∷◌,
}
use golang_helloworld.Text.{Str, bytes}
use golang_helloworld.Text.Decimal.{negsuc, pos, ℤ}
use golang_helloworld.Queue.Failure.{Failure, fault, injected_worker_failure}
use golang_helloworld.Domain.{above}
use golang_helloworld.Text.Search.{has_prefix}
use golang_helloworld.Faults.{Controls, Float, active, matches_latency_route}

pub data Fault : Type 0 where
  latency error slow_db worker_failure worker_slowdown : Fault

pub data Note : Type 0 where
  injected_fault : Fault → Note
  slept : ℕ → Note

-- What becomes of a request: it is served, refused with 503, or the client went away.
pub data Answer : Type 0 where
  served refused_503 client_gone : Answer

pub record Traced (W : Type 0) : Type 0 where
  pub world : W
  pub notes : List Note

-- !HasPrefix(path, "/api/") || HasPrefix(path, "/api/settings/demo")
unfoldable pub exempt : Str → Bool
exempt path = not (has_prefix path (bytes "/api/")) || has_prefix path (bytes "/api/settings/demo")

-- A delay of so many milliseconds, for those that are above 0.
abbrev pub delay_of : ℤ → ℕ
delay_of (pos n) = n
delay_of (negsuc n) = 0

module _ (fl : Float) where
  -- The source of the controls, rnd, sleep (where an error says that the context ended) and the
  -- handler that comes next.
  pub record Injector (W : Type 0) : Type 0 where
    pub source : W → Option (Controls fl) × W
    pub rnd : W → fl.Number × W
    pub sleep : ℕ → W → Option Failure × W
    pub next : W → W

  module _ {W : Type 0} (inj : Injector W) where
    abbrev pub record_fault : Fault → Traced W → Traced W
    record_fault f s = record s { notes = s.notes ++ injected_fault f ∷ [] }

    abbrev pub sleep_for : ℕ → Traced W → Option Failure × Traced W
    sleep_for d s =
        let (e, w) = inj.sleep d s.world in
        (e, record { world = w; notes = s.notes ++ slept d ∷ [] })

    -- i.rnd() < p, where a chance of 0 is not drawn.
    abbrev pub draw : fl.Number → Traced W → Bool × Traced W
    draw p s = let (x, w) = inj.rnd s.world in (fl.less x p, record s { world = w })

    abbrev pub serve : Traced W → Answer × Traced W
    serve s = (served, record s { world = inj.next s.world })

    abbrev pub refuse : Bool × Traced W → Answer × Traced W
    refuse (true, s) = (refused_503, record_fault error s)
    refuse (false, s) = serve s

    -- The second fault, once the latency is over.
    unfoldable pub inject_error : Controls fl → Traced W → Answer × Traced W
    inject_error c s =
        if fl.less fl.zero_point c.error_probability
        then refuse (draw c.error_probability s)
        else serve s

    abbrev pub after_sleep : Controls fl → Option Failure × Traced W → Answer × Traced W
    after_sleep c (none, s) = inject_error c s
    after_sleep c (some e, s) = (client_gone, s)

    abbrev pub delayed : Controls fl → Bool × Traced W → Answer × Traced W
    delayed c (true, s) = after_sleep c (sleep_for (delay_of c.latency_ms) (record_fault latency s))
    delayed c (false, s) = inject_error c s

    unfoldable pub inject_latency : Controls fl → Str → Traced W → Answer × Traced W
    inject_latency c path s =
        if above c.latency_ms 0 && matches_latency_route fl c path
        then delayed c (draw c.latency_probability s)
        else inject_error c s

    abbrev pub with_controls : Str → Option (Controls fl) → Traced W → Answer × Traced W
    with_controls path none s = serve s
    with_controls path (some c) s = if active fl c then inject_latency c path s else serve s

    unfoldable pub middleware : Str → Traced W → Answer × Traced W
    middleware path s =
        if exempt path
        then serve s
        else (let (found, w) = inj.source s.world in
            with_controls path found (record s { world = w }))

    abbrev pub slow_for : Option (Controls fl) → Traced W → ℕ × Traced W
    slow_for none s = (0, s)
    slow_for (some c) s =
        if above c.slow_db_ms 0 then (delay_of c.slow_db_ms, record_fault slow_db s) else (0, s)

    unfoldable pub slow_database : Traced W → ℕ × Traced W
    slow_database s = let (found, w) = inj.source s.world in slow_for found (record s { world = w })

    abbrev pub fail_job : Bool × Traced W → Option Failure × Traced W
    fail_job (true, s) = (some (fault injected_worker_failure), record_fault worker_failure s)
    fail_job (false, s) = (none, s)

    unfoldable pub inject_failure : Controls fl → Traced W → Option Failure × Traced W
    inject_failure c s =
        if fl.less fl.zero_point c.worker_failure_probability
        then fail_job (draw c.worker_failure_probability s)
        else (none, s)

    abbrev pub after_slowdown : Controls fl → Option Failure × Traced W → Option Failure × Traced W
    after_slowdown c (none, s) = inject_failure c s
    after_slowdown c (some e, s) = (some e, s)

    abbrev pub faulty : Option (Controls fl) → Traced W → Option Failure × Traced W
    faulty none s = (none, s)
    faulty (some c) s =
        if above c.worker_delay_ms 0
        then after_slowdown c
            (sleep_for (delay_of c.worker_delay_ms) (record_fault worker_slowdown s))
        else inject_failure c s

    -- WorkerFault: controls that cannot be read mean no fault.
    unfoldable pub worker_fault : Traced W → Option Failure × Traced W
    worker_fault s = let (found, w) = inj.source s.world in faulty found (record s { world = w })

module _ {W : Type 0} where
  -- A request or a job starts with no notes.
  abbrev pub start : W → Traced W
  start w = record { world = w; notes = [] }
