-- ===== src/Queue/Consumer.antt =====
-- internal/platform/queue/consumer.go: one delivery of a stream entry, from its handler to its ack.
-- `W` is the state of everything outside the queue (the stream server, the database, the object
-- store), which the handler and the hook may change. `handle` runs on a context that is never
-- canceled, so a pause always lasts its whole time. Spans are left out; the counters, the pauses
-- and the calls of the stream server are kept as a trace, oldest first.
pub mod Attempts
pub mod Delivery
pub mod Bounds
pub mod Invariant
pub mod DeadLetter
pub mod Loop
use golang_helloworld.Prelude.{
  Bool, List, Option, [], if◌then◌else◌, none, some, suc, zero, ℕ, ◌%◌, ◌*◌, ◌++◌, ◌+◌, ◌-◌, ◌==◌,
  ◌^◌, ◌||◌, ◌∷◌,
}
use golang_helloworld.Text.{Str}
use golang_helloworld.Queue.Failure.{Failure, fault, handler_panic, is_permanent, is_skip}
use golang_helloworld.Queue.Job.{Fields, Job, Message, job_from_message, no_fields, overlay, update}

-- The outcome label of a job (internal/observability/names.go).
pub data Outcome : Type 0 where
  success retry dead_letter skipped : Outcome

-- What a handler does: it returns an error or nil, or it panics.
pub data Reply : Type 0 where
  returns : Option Failure → Reply
  panics : Reply

pub data Event : Type 0 where
  attempted : ℕ → Event
  counted : Outcome → Event
  paused : ℕ → Event
  dead_lettered : Str → Option Failure → Event
  hooked : Event
  acked : Str → Event

-- The options that a consumer reads, times in nanoseconds.
pub record Options : Type 0 where
  pub max_attempts : ℕ
  pub backoff : ℕ → ℕ
  pub claim_idle : ℕ
  pub concurrency : ℕ

-- 500ms << (attempt - 1), as a 64-bit word.
abbrev pub default_backoff : ℕ → ℕ
default_backoff attempt = (500_000_000 * 2 ^ (attempt - 1)) % 2 ^ 64

abbrev pub default_options : Options
default_options = record {
  max_attempts = 4;
  backoff = default_backoff;
  claim_idle = 60_000_000_000;
  concurrency = 2;
}

-- Each answers from the state outside and changes it; a Bool says whether the call succeeded.
-- `text_of` and `now` are the texts that fmt.Sprint and the clock give for a dead letter.
pub record Outside (W : Type 0) : Type 0 where
  pub handler : Job → W → Reply × W
  pub text_of : Option Failure → Str
  pub now : W → Str
  pub xadd_dead : Fields → W → Bool × W
  pub xack : Str → W → Bool × W
  pub on_dead_letter : Option (Job → Option Failure → W → W)

-- The entry of the dead-letter stream: the fields of the message win over the three of its own.
unfoldable pub dead_letter_fields : Message → Str → Str → Fields
dead_letter_fields m error failed_at =
    overlay
      (update (update (update no_fields "original_id" m.id) "error" error) "failed_at" failed_at)
      m.fields

pub record Run (W : Type 0) : Type 0 where
  pub world : W
  pub trace : List Event

module _ {W : Type 0} where
  abbrev pub emit : Event → Run W → Run W
  emit e s = record s { trace = s.trace ++ e ∷ [] }

-- The recover of `attempt`: a panic is an error like any other.
abbrev pub error_of : Reply → Option Failure
error_of (returns e) = e
error_of panics = some (fault handler_panic)

module _ {W : Type 0} (o : Options) (out : Outside W) where
  unfoldable pub attempt : Job → ℕ → Run W → Option Failure × Run W
  attempt job n s =
      let (reply, w) = out.handler job s.world in
      (error_of reply, record { world = w; trace = s.trace ++ attempted n ∷ [] })

  -- The retry counter and the pause between two attempts.
  unfoldable pub back_off : ℕ → Run W → Run W
  back_off n s = emit (paused (o.backoff n)) (emit (counted retry) s)

  -- The loop from attempt `n` on, with `left` attempts to go; `last` is the error so far.
  unfoldable pub attempts_from :
      Job → (left : ℕ) → ℕ → Option Failure → Run W → (Outcome × Option Failure) × Run W
  attempts_from job zero n last s = ((dead_letter, last), s)
  attempts_from job (suc left) n last s =
      let (error, s1) = attempt job n s in
      elim error [
        | none ↦ ((success, none), s1)
        | some e ↦
            let again = attempts_from job left (n + 1) (some e) (back_off n s1) in
            if is_skip e
            then ((skipped, none), s1)
            else if is_permanent e || n == o.max_attempts
            then ((dead_letter, some e), s1)
            else again
      ]

  unfoldable pub attempts : Job → Run W → (Outcome × Option Failure) × Run W
  unfolding attempts_from
  attempts job s = attempts_from job o.max_attempts 1 none s

  -- The hook runs for five seconds at most; a state it has not reached by then it reaches later.
  abbrev pub run_hook : Option (Job → Option Failure → W → W) → Job → Option Failure → Run W → Run W
  run_hook none job cause s = s
  run_hook (some hook) job cause s = record {
    world = hook job cause s.world;
    trace = s.trace ++ hooked ∷ [];
  }

  unfoldable pub send_dead_letter : Message → Job → Option Failure → Run W → Run W
  send_dead_letter m job cause s =
      let fields = dead_letter_fields m (out.text_of cause) (out.now s.world) in
      let (_, w) = out.xadd_dead fields s.world in
      run_hook out.on_dead_letter job cause
        (record { world = w; trace = s.trace ++ dead_lettered m.id cause ∷ [] })

  unfoldable pub ack : Str → Run W → Run W
  ack id s =
      let (_, w) = out.xack id s.world in record { world = w; trace = s.trace ++ acked id ∷ [] }

  abbrev pub settle : Message → Job → Outcome × Option Failure → Run W → Run W
  settle m job (dead_letter, cause) s =
      emit (counted dead_letter) (ack m.id (send_dead_letter m job cause s))
  settle m job (outcome, cause) s = emit (counted outcome) (ack m.id s)

  abbrev pub process : Message → Job × Option Failure → Run W → Run W
  process m (job, some parse_error) s = settle m job (dead_letter, some parse_error) s
  process m (job, none) s = let (result, s1) = attempts job s in settle m job result s1

  unfoldable pub handle : Message → Run W → Run W
  unfolding attempts send_dead_letter ack
  handle m s = process m (job_from_message m) s
