-- ===== src/Queue/Consumer/Bounds.antt =====
-- How often a delivery of internal/platform/queue/consumer.go does what, and how long it pauses.
use golang_helloworld.Prelude.{
  List, Option, [], ap, arith, if◌then◌else◌, length, none, refl, some, subst, suc, zero, ℕ, ◌++◌,
  ◌+◌, ◌∷◌, ◌≡◌, ◌≤◌,
}
use golang_helloworld.Text.{Str, str_eq, str_eq_refl}
use golang_helloworld.Queue.Failure.{Failure}
use golang_helloworld.Queue.Job.{Job, Message, job_from_message}
use golang_helloworld.Queue.Consumer.{
  Event, Options, Outcome, Outside, Run, acked, attempted, counted, dead_letter, dead_lettered,
  handle, paused, retry, skipped, success,
}
use golang_helloworld.Queue.Consumer.Attempts.{answers, decide, timeline}
use golang_helloworld.Queue.Consumer.Delivery.{closing, handle-story, hook_events, story, story_of}

-- The sum of a weight over a trace.
abbrev pub total : (Event → ℕ) → List Event → ℕ
total f [] = 0
total f (e ∷ es) = f e + total f es

pub total-append :
    (f : Event → ℕ) (xs ys : List Event) → total f (xs ++ ys) ≡ total f xs + total f ys
total-append f [] ys = omega arith
total-append f (e ∷ xs) ys = omega (arith, total-append f xs ys)

abbrev pub as_ack : Event → ℕ
as_ack (acked id) = 1
as_ack _ = 0

-- An ack of an entry other than `id`.
abbrev pub as_other_ack : Str → Event → ℕ
as_other_ack id (acked i) = if str_eq i id then 0 else 1
as_other_ack id _ = 0

abbrev pub as_dead_letter : Event → ℕ
as_dead_letter (dead_lettered id cause) = 1
as_dead_letter _ = 0

abbrev pub as_attempt : Event → ℕ
as_attempt (attempted n) = 1
as_attempt _ = 0

abbrev pub as_pause : Event → ℕ
as_pause (paused d) = d
as_pause _ = 0

-- The backoffs of `k` attempts from the one numbered `n` on.
abbrev pub backoffs : (ℕ → ℕ) → ℕ → ℕ → ℕ
backoffs b n zero = 0
backoffs b n (suc k) = b n + backoffs b (n + 1) k

-- Between `k` attempts there are `k - 1` pauses.
abbrev pub backoffs_between : (ℕ → ℕ) → ℕ → ℕ
backoffs_between b zero = 0
backoffs_between b (suc k) = backoffs b 1 k

module _ (b : ℕ → ℕ) where
  timeline_quiet :
      (n : ℕ) (given : List (Option Failure))
      → (total as_ack (timeline b n given) ≡ 0) × (total as_dead_letter (timeline b n given) ≡ 0)
  unfolding timeline
  timeline_quiet n [] = (refl, refl)
  timeline_quiet n (a ∷ []) = (refl, refl)
  timeline_quiet n (a ∷ c ∷ rest) = ground (arith, timeline_quiet (n + 1) (c ∷ rest))

  timeline_no_other_ack :
      (id : Str) (n : ℕ) (given : List (Option Failure))
      → total (as_other_ack id) (timeline b n given) ≡ 0
  unfolding timeline
  timeline_no_other_ack id n [] = refl
  timeline_no_other_ack id n (a ∷ []) = refl
  timeline_no_other_ack id n (a ∷ c ∷ rest) =
      ground (arith, timeline_no_other_ack id (n + 1) (c ∷ rest))

  timeline_attempts :
      (n : ℕ) (given : List (Option Failure)) → total as_attempt (timeline b n given) ≤ length given
  unfolding timeline
  timeline_attempts n [] = omega arith
  timeline_attempts n (a ∷ []) = omega arith
  timeline_attempts n (a ∷ c ∷ rest) = ground (arith, timeline_attempts (n + 1) (c ∷ rest))

  timeline_pauses :
      (n : ℕ) (a : Option Failure) (given : List (Option Failure))
      → total as_pause (timeline b n (a ∷ given)) ≤ backoffs b n (length given)
  unfolding timeline
  timeline_pauses n a [] = omega arith
  timeline_pauses n a (c ∷ rest) = ground (arith, timeline_pauses (n + 1) c rest)

  timeline_pauses_between :
      (given : List (Option Failure))
      → total as_pause (timeline b 1 given) ≤ backoffs_between b (length given)
  unfolding timeline
  timeline_pauses_between [] = omega arith
  timeline_pauses_between (a ∷ given) = timeline_pauses 1 a given

length-answers :
    {W : Type 0} (out : Outside W) (job : Job) (k : ℕ) (w : W) → length (answers out job k w) ≡ k
unfolding answers
length-answers out job zero w = refl
length-answers out job (suc k) w = ap suc (length-answers out job k (out.handler job w).1)

module _ {W : Type 0} (o : Options) (out : Outside W) where
  closing_counts :
      (m : Message) (result : Outcome × Option Failure)
      → (total as_ack (closing o out m result) ≡ 1)
        × (total as_attempt (closing o out m result) ≡ 0)
        × (total as_pause (closing o out m result) ≡ 0)
        × (total as_dead_letter (closing o out m result) ≤ 1)
  closing_counts m (success, cause) = omega arith
  closing_counts m (retry, cause) = omega arith
  closing_counts m (skipped, cause) = omega arith
  closing_counts m (dead_letter, cause) = hooked_or_not out.on_dead_letter
    where
      hooked_or_not :
          (h : Option (Job → Option Failure → W → W))
          → let es =
              dead_lettered m.id cause ∷ (hook_events h ++ acked m.id ∷ counted dead_letter ∷ []) in
            (total as_ack es ≡ 1)
            × (total as_attempt es ≡ 0)
            × (total as_pause es ≡ 0)
            × (total as_dead_letter es ≤ 1)
      hooked_or_not none = omega arith
      hooked_or_not (some hook) = omega arith

  closing_no_other_ack :
      (m : Message) (result : Outcome × Option Failure)
      → total (as_other_ack m.id) (closing o out m result) ≡ 0
  closing_no_other_ack m (success, cause) = rw (str_eq_refl m.id) refl
  closing_no_other_ack m (retry, cause) = rw (str_eq_refl m.id) refl
  closing_no_other_ack m (skipped, cause) = rw (str_eq_refl m.id) refl
  closing_no_other_ack m (dead_letter, cause) = hooked_or_not out.on_dead_letter
    where
      hooked_or_not :
          (h : Option (Job → Option Failure → W → W))
          → total
              (as_other_ack m.id)
              (dead_lettered m.id cause ∷ (hook_events h ++ acked m.id ∷ counted dead_letter ∷ []))
            ≡ 0
      hooked_or_not none = rw (str_eq_refl m.id) refl
      hooked_or_not (some hook) = rw (str_eq_refl m.id) refl

  story_of_no_other_ack :
      (m : Message) (read : Job × Option Failure) (w : W)
      → total (as_other_ack m.id) (story_of o out m read w) ≡ 0
  story_of_no_other_ack m (job, some e) w = closing_no_other_ack m (dead_letter, some e)
  story_of_no_other_ack m (job, none) w =
      let given = answers out job o.max_attempts w in
      let line = timeline o.backoff 1 given in
      let end = closing o out m (decide none given) in
      omega (
        arith,
        total-append (as_other_ack m.id) line end,
        timeline_no_other_ack o.backoff m.id 1 given,
        closing_no_other_ack m (decide none given),
      )

  story_no_other_ack : (m : Message) (w : W) → total (as_other_ack m.id) (story o out m w) ≡ 0
  unfolding story
  story_no_other_ack m w = story_of_no_other_ack m (job_from_message m) w

  story_of_counts :
      (m : Message) (read : Job × Option Failure) (w : W)
      → (total as_ack (story_of o out m read w) ≡ 1)
        × (total as_attempt (story_of o out m read w) ≤ o.max_attempts)
        × (total as_pause (story_of o out m read w) ≤ backoffs_between o.backoff o.max_attempts)
        × (total as_dead_letter (story_of o out m read w) ≤ 1)
  story_of_counts m (job, some e) w =
      let (a, t, p, d) = closing_counts m (dead_letter, some e) in (a, omega arith, omega arith, d)
  story_of_counts m (job, none) w =
      let given = answers out job o.max_attempts w in
      let line = timeline o.backoff 1 given in
      let end = closing o out m (decide none given) in
      let (a, t, p, d) = closing_counts m (decide none given) in
      let (no_ack, no_dead) = timeline_quiet o.backoff 1 given in
      let size = length-answers out job o.max_attempts w in
      let pauses =
        subst (λ k. total as_pause line ≤ backoffs_between o.backoff k) size
          (timeline_pauses_between o.backoff given) in
      (
        omega (arith, total-append as_ack line end),
        omega (arith, total-append as_attempt line end, timeline_attempts o.backoff 1 given),
        omega (arith, total-append as_pause line end),
        omega (arith, total-append as_dead_letter line end),
      )

  story_counts :
      (m : Message) (w : W)
      → (total as_ack (story o out m w) ≡ 1)
        × (total as_attempt (story o out m w) ≤ o.max_attempts)
        × (total as_pause (story o out m w) ≤ backoffs_between o.backoff o.max_attempts)
        × (total as_dead_letter (story o out m w) ≤ 1)
  unfolding story
  story_counts m w = story_of_counts m (job_from_message m) w

  -- Every delivery acks its own entry exactly once and no other, writes one dead letter at most, runs
  -- the handler `max_attempts` times at most, and pauses no longer than the backoffs between so many
  -- attempts.
  pub handle_counts :
      (m : Message) (s : Run W)
      → let s' = handle o out m s in
        (total as_ack s'.trace ≡ total as_ack s.trace + 1)
        × (total (as_other_ack m.id) s'.trace ≡ total (as_other_ack m.id) s.trace)
        × (total as_dead_letter s'.trace ≤ total as_dead_letter s.trace + 1)
        × (total as_attempt s'.trace ≤ total as_attempt s.trace + o.max_attempts)
        × (total as_pause s'.trace
            ≤ total as_pause s.trace + backoffs_between o.backoff o.max_attempts)
  handle_counts m s =
      let told = story o out m s.world in
      let (a, t, p, d) = story_counts m s.world in
      rw (handle-story o out m s) (
        omega (arith, total-append as_ack s.trace told),
        omega (arith, total-append (as_other_ack m.id) s.trace told, story_no_other_ack m s.world),
        omega (arith, total-append as_dead_letter s.trace told),
        omega (arith, total-append as_attempt s.trace told),
        omega (arith, total-append as_pause s.trace told),
      )
