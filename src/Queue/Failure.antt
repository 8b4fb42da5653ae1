-- ===== src/Queue/Failure.antt =====
-- The errors that travel through the queue and the worker, and the two marks of
-- internal/platform/queue/job.go on them. An error is kept as what it says and wraps; its text,
-- which the program only stores and logs, is not written out.
use golang_helloworld.Prelude.{Bool, Option, false, none, some, true, ℕ}
use golang_helloworld.Text.{Str}
use golang_helloworld.Domain.{DomainError}
use golang_helloworld.Text.Decimal.{ℤ}

-- The leaves of an error chain.
pub data Cause : Type 0 where
  unknown_job_type : Str → Cause
  bad_number : Cause
  handler_panic : Cause
  injected_worker_failure : Cause
  object_too_large : ℕ → Cause
  too_many_pixels : ℕ → ℕ → Cause
  no_job_queue : Cause
  domain_refusal : DomainError → Cause
  external : Str → Cause

-- What fmt.Errorf("…: %w", err) adds.
pub data Context : Type 0 where
  malformed_image_id : Str → Context
  load_image : ℤ → Context
  decoding thumbnailing enqueueing : Context
  other : Str → Context

pub data Failure : Type 0 where
  skip : Failure
  fault : Cause → Failure
  wrap : Context → Failure → Failure
  permanent : Failure → Failure

-- errors.Is(err, ErrSkip), which unwraps both kinds of wrapping.
abbrev pub is_skip : Failure → Bool
is_skip skip = true
is_skip (fault c) = false
is_skip (wrap c e) = is_skip e
is_skip (permanent e) = is_skip e

-- errors.As into a permanentError, anywhere in the chain.
abbrev pub is_permanent : Failure → Bool
is_permanent skip = false
is_permanent (fault c) = false
is_permanent (wrap c e) = is_permanent e
is_permanent (permanent e) = true

-- `Permanent` leaves a nil error nil.
abbrev pub mark_permanent : Option Failure → Option Failure
mark_permanent none = none
mark_permanent (some e) = some (permanent e)

-- The result of a Go function that returns a value and an error.
pub data Result {ℓ} (A : Type ℓ) : Type ℓ where
  ok : A → Result A
  err : Failure → Result A
