-- ===== src/Queue/Consumer/Delivery.antt =====
-- One delivery in `handle` of internal/platform/queue/consumer.go: what it does, in order.
use golang_helloworld.Prelude.{
  List, Option, [], append-nil, append_assoc, none, refl, some, sym, ◌++◌, ◌∷◌, ◌≡◌,
}
use golang_helloworld.Queue.Failure.{Failure}
use golang_helloworld.Queue.Job.{Job, Message, job_from_message}
use golang_helloworld.Queue.Consumer.{
  Event, Options, Outcome, Outside, Run, ack, acked, attempts, counted, dead_letter, dead_lettered,
  handle, hooked, process, retry, run_hook, send_dead_letter, settle, skipped, success,
}
use golang_helloworld.Queue.Consumer.Attempts.{answers, attempts-decide, decide, timeline}

module _ {W : Type 0} where
  abbrev pub hook_events : Option (Job → Option Failure → W → W) → List Event
  hook_events none = []
  hook_events (some hook) = hooked ∷ []

module _ {W : Type 0} (o : Options) (out : Outside W) where
  run_hook-events :
      (h : Option (Job → Option Failure → W → W)) (job : Job) (cause : Option Failure) (s : Run W)
      → (run_hook o out h job cause s).trace ≡ s.trace ++ hook_events h
  run_hook-events none job cause s = sym (append-nil s.trace)
  run_hook-events (some hook) job cause s = refl

  -- How a delivery ends: a dead letter is written before the entry is acked.
  abbrev pub closing : Message → Outcome × Option Failure → List Event
  closing m (dead_letter, cause) =
      dead_lettered m.id cause
      ∷ (hook_events out.on_dead_letter ++ acked m.id ∷ counted dead_letter ∷ [])
  closing m (outcome, cause) = acked m.id ∷ counted outcome ∷ []

  -- A malformed entry reaches no handler.
  abbrev pub story_of : Message → Job × Option Failure → W → List Event
  story_of m (job, some parse_error) w = closing m (dead_letter, some parse_error)
  story_of m (job, none) w =
      let given = answers out job o.max_attempts w in
      timeline o.backoff 1 given ++ closing m (decide none given)

  unfoldable pub story : Message → W → List Event
  story m w = story_of m (job_from_message m) w

  settle-closing :
      (m : Message) (job : Job) (result : Outcome × Option Failure) (s : Run W)
      → (settle o out m job result s).trace ≡ s.trace ++ closing m result
  unfolding send_dead_letter ack
  settle-closing m job (success, cause) s = simp append_assoc
  settle-closing m job (retry, cause) s = simp append_assoc
  settle-closing m job (skipped, cause) s = simp append_assoc
  settle-closing m job (dead_letter, cause) s =
      rw (run_hook-events out.on_dead_letter job cause _) (simp append_assoc)

  process-story :
      (m : Message) (read : Job × Option Failure) (s : Run W)
      → (process o out m read s).trace ≡ s.trace ++ story_of m read s.world
  process-story m (job, some e) s = settle-closing m job (dead_letter, some e) s
  process-story m (job, none) s =
      let (same, shown) = attempts-decide o out job s in
      rw (settle-closing m job (attempts o out job s).0 (attempts o out job s).1, same, shown)
        (append_assoc s.trace _ _)

  -- A delivery does what `story` says, no more and no less: a malformed entry is dead-lettered
  -- without an attempt, any other runs its attempts; a dead letter is written, and the hook called,
  -- before the entry is acked; the outcome is counted last.
  pub handle-story :
      (m : Message) (s : Run W) → (handle o out m s).trace ≡ s.trace ++ story m s.world
  unfolding handle story
  handle-story m s = process-story m (job_from_message m) s
