-- ===== src/Faults/Budget.antt =====
-- How long the demo controls may hold a job of internal/faults/injector.go, and what that leaves
-- of the time after which internal/platform/queue/consumer.go reclaims an entry.
use golang_helloworld.Prelude.{
  Bool, List, Option, [], arith, false, if◌then◌else◌, length, none, refl, some, true, ℕ, ◌*◌, ◌++◌,
  ◌+◌, ◌<◌, ◌∷◌, ◌≡◌, ◌≤◌,
}
use golang_helloworld.Text.Decimal.{negsuc, pos, ℤ}
use golang_helloworld.Queue.Failure.{Failure}
use golang_helloworld.Domain.{above}
use golang_helloworld.Faults.{
  Controls, Float, IsDelay, max_worker_delay_ms, validate_controls, validate_controls-AreBounded,
}
use golang_helloworld.Queue.Job.{Message}
use golang_helloworld.Queue.Consumer.{Outside, default_options, handle}
use golang_helloworld.Queue.Consumer.Bounds.{as_attempt, as_pause, handle_counts, total}
use golang_helloworld.Faults.Injector.{
  Injector, Note, Traced, after_slowdown, delay_of, fail_job, faulty, inject_failure,
  injected_fault, slept, start, worker_failure, worker_fault, worker_slowdown,
}

-- The milliseconds slept.
abbrev pub slept_ms : List Note → ℕ
slept_ms [] = 0
slept_ms (slept d ∷ notes) = d + slept_ms notes
slept_ms (injected_fault f ∷ notes) = slept_ms notes

slept_ms-append : (xs ys : List Note) → slept_ms (xs ++ ys) ≡ slept_ms xs + slept_ms ys
slept_ms-append [] ys = omega arith
slept_ms-append (slept d ∷ xs) ys = omega (arith, slept_ms-append xs ys)
slept_ms-append (injected_fault f ∷ xs) ys = slept_ms-append xs ys

module _ (fl : Float) {W : Type 0} (inj : Injector fl W) where
  inject_failure-slept :
      (c : Controls fl) (s : Traced W)
      → slept_ms (inject_failure fl inj c s).1.notes ≡ slept_ms s.notes
  unfolding inject_failure
  inject_failure-slept c s =
      go (fl.less fl.zero_point c.worker_failure_probability)
        (fl.less (inj.rnd s.world).0 c.worker_failure_probability)
    where
      go :
          (likely drawn : Bool)
          → slept_ms
              (if likely
                then fail_job fl inj (drawn, record s { world = (inj.rnd s.world).1 })
                else (none, s)).1.notes
            ≡ slept_ms s.notes
      go true true = omega (arith, slept_ms-append s.notes (injected_fault worker_failure ∷ []))
      go true false = refl
      go false drawn = refl

  delay_small :
      (c : Controls fl)
      → validate_controls fl c ≡ []
      → delay_of c.worker_delay_ms ≤ max_worker_delay_ms
  delay_small c valid =
      go c.worker_delay_ms (((validate_controls-AreBounded fl c).0 valid).delay_bounded)
    where
      go : (v : ℤ) → IsDelay fl v max_worker_delay_ms → delay_of v ≤ max_worker_delay_ms
      go (pos n) h = h
      go (negsuc n) h = absurd h

  faulty-slept :
      (found : Option (Controls fl)) (w : W)
      → ((c : Controls fl) → found ≡ some c → validate_controls fl c ≡ [])
      → slept_ms (faulty fl inj found (start w)).1.notes ≤ max_worker_delay_ms
  faulty-slept none w valid = omega arith
  faulty-slept (some c) w valid =
      slowed (above c.worker_delay_ms 0) (inj.sleep (delay_of c.worker_delay_ms) w).0
        (delay_small c (valid c refl))
    where
      slowed :
          (slows : Bool) (e : Option Failure)
          → delay_of c.worker_delay_ms ≤ max_worker_delay_ms
          → let notes = injected_fault worker_slowdown ∷ slept (delay_of c.worker_delay_ms) ∷ [] in
            let s : Traced W = record {
              world = (inj.sleep (delay_of c.worker_delay_ms) w).1;
              notes = notes;
            } in
            slept_ms
              (if slows
                then after_slowdown fl inj c (e, s)
                else inject_failure fl inj c (start w)).1.notes
            ≤ max_worker_delay_ms
      slowed true none small = omega (arith, inject_failure-slept c _)
      slowed true (some e) small = omega arith
      slowed false e small = omega (arith, inject_failure-slept c (start w))

  -- When Validate lets pass the controls that the source gives, a job is slowed down by 10 s at
  -- most.
  worker_fault-slept :
      (w : W)
      → ((c : Controls fl) → (inj.source w).0 ≡ some c → validate_controls fl c ≡ [])
      → slept_ms (worker_fault fl inj (start w)).1.notes ≤ max_worker_delay_ms
  unfolding worker_fault
  worker_fault-slept w valid = faulty-slept (inj.source w).0 (inj.source w).1 valid

module _ (fl : Float) {V : Type 0} (inj : Injector fl V) where
  -- The milliseconds that the injector sleeps in jobs that meet the worlds `vs`.
  abbrev pub held_ms : List V → ℕ
  held_ms [] = 0
  held_ms (v ∷ vs) = slept_ms (worker_fault fl inj (start v)).1.notes + held_ms vs

  held_ms_bounded :
      (vs : List V)
      → ((v : V) (c : Controls fl) → (inj.source v).0 ≡ some c → validate_controls fl c ≡ [])
      → held_ms vs ≤ length vs * max_worker_delay_ms
  held_ms_bounded [] valid = omega arith
  held_ms_bounded (v ∷ vs) valid =
      omega (arith, worker_fault-slept fl inj v (valid v), held_ms_bounded vs valid)

  -- With the default options, a delivery whose attempts each meet the worker fault, in whatever state,
  -- still leaves its pauses room: what the injector sleeps in all of them and the pauses together
  -- end before the entry counts as idle. It takes that Validate passes the controls that the injector
  -- is given.
  pub delays_before_claim :
      {W : Type 0} (out : Outside W) (m : Message) (w : W) (vs : List V)
      → ((v : V) (c : Controls fl) → (inj.source v).0 ≡ some c → validate_controls fl c ≡ [])
      → length vs
        ≤ total as_attempt (handle default_options out m (record { world = w; trace = [] })).trace
      → held_ms vs * 1_000_000
          + total as_pause (handle default_options out m (record { world = w; trace = [] })).trace
        < default_options.claim_idle
  delays_before_claim out m w vs valid some_attempts =
      let (_, _, _, attempts_, pauses) =
        handle_counts default_options out m (record { world = w; trace = [] }) in
      omega (arith, held_ms_bounded vs valid, some_attempts)
