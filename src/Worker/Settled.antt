-- ===== src/Worker/Settled.antt =====
-- A delivery of internal/platform/queue/consumer.go to the worker settles its image.
use golang_helloworld.Prelude.{Option, arith, none, refl, some, suc, zero, ℕ, ◌<◌, ◌∙◌, ◌≡◌}
use golang_helloworld.Queue.Consumer.Attempts.{answers, attempts-decide, decide, decide_cause}
use golang_helloworld.Text.{Str}
use golang_helloworld.Text.Decimal.{ℤ}
use golang_helloworld.Queue.Failure.{Failure, Result, err, ok}
use golang_helloworld.Queue.Job.{Fields, Job, Message, job_from_message}
use golang_helloworld.Queue.Consumer.{
  Options, Outcome, Run, ack, attempts, dead_letter, dead_letter_fields, error_of, handle, retry,
  send_dead_letter, settle, skipped, success,
}
use golang_helloworld.Queue.Consumer.Invariant.{Judged, attempts_inv}
use golang_helloworld.Worker.Images.{RepositoryLaws, Row, failed, ready, with_status}
use golang_helloworld.Worker.{Processor, handle_job, on_dead_letter}
use golang_helloworld.Worker.Effects.{LeavesRows}
use golang_helloworld.Worker.Outcomes.{written_to}
use golang_helloworld.Worker.Errors.{NeverSkips}
use golang_helloworld.Worker.Lifecycle.{
  AfterRun, Settled, Stream, reply_of, run_once, worker_outside,
}

-- The calls of the stream server write to no image row.
pub record StreamLeavesRows {W : Type 0} (st : Stream W) (row : ℤ → W → Option Row) : Type 0 where
  pub xadd_keeps : (f : Fields) (w : W) (j : ℤ) → row j (st.xadd_dead f w).1 ≡ row j w
  pub xack_keeps : (id : Str) (w : W) (j : ℤ) → row j (st.xack id w).1 ≡ row j w

-- The image is there, and reached with: thumbnail and metadata, or the failure that ended it.
pub data IsSettled (after : Option Row) : Type 0 where
  is_ready : (r : Row) → after ≡ some r → r.status ≡ ready → IsSettled after
  is_failed : (r : Row) → after ≡ some r → r.status ≡ failed → IsSettled after

module _ {W : Type 0} (p : Processor W) (row : ℤ → W → Option Row) (leaves : LeavesRows p row)
    (laws : RepositoryLaws p.images row) (never : NeverSkips p) (st : Stream W)
    (stream_leaves : StreamLeavesRows st row) (o : Options) where
  abbrev Known : ℤ → W → Type 0
  Known id w = (r : Row) × (row id w ≡ some r)

  abbrev Ended : ℤ → Outcome → W → Type 0
  Ended id x w = (r : Row) × (row id w ≡ some r) × Settled x r

  answered :
      (job : Job) (w : W)
      → Known job.image_id w
      → Known job.image_id (handle_job p job w).1
        × Judged
            (Ended job.image_id)
            (error_of (reply_of (handle_job p job w).0))
            (handle_job p job w).1
  answered job w (r, here) =
      go (handle_job p job w).0 (run_once p row leaves laws never job w r here)
    where
      go :
          (answer : Result (Unit {0}))
          → ((r' : Row) × (row job.image_id (handle_job p job w).1 ≡ some r') × AfterRun answer r')
          → Known job.image_id (handle_job p job w).1
            × Judged (Ended job.image_id) (error_of (reply_of answer)) (handle_job p job w).1
      go (ok u) (r', now, after) = ((r', now), (r', now, after))
      go (err e) (r', now, after) = ((r', now), λ h. (r', now, after h))

  -- The write of the dead-letter hook, after the dead letter was added in the state `w`.
  abbrev pub hook_write : Message → Job → Failure → W → Option Failure × W
  hook_write m job c w =
      p.images.update_status job.image_id failed (some c)
        (st.xadd_dead (dead_letter_fields m (st.text_of (some c)) (st.now w)) w).1

  settle-IsSettled :
      (m : Message) (job : Job) (x : Outcome) (cause : Option Failure) (s : Run W)
      → ((c : Failure) → x ≡ dead_letter → cause ≡ some c → (hook_write m job c s.world).0 ≡ none)
      → Ended job.image_id x s.world
      → (x ≡ dead_letter → (c : Failure) × (cause ≡ some c))
      → IsSettled (row job.image_id (settle o (worker_outside p st) m job (x, cause) s).world)
  unfolding ack send_dead_letter on_dead_letter
  settle-IsSettled m job success cause s writes (r, here, reached) caused =
      is_ready r (stream_leaves.xack_keeps m.id s.world job.image_id ∙ here) reached
  settle-IsSettled m job skipped cause s writes (r, here, reached) caused =
      is_ready r (stream_leaves.xack_keeps m.id s.world job.image_id ∙ here) reached
  settle-IsSettled m job retry cause s writes (r, here, reached) caused = absurd reached
  settle-IsSettled m job dead_letter none s writes ended caused = absurd (cc ((caused refl).1))
  settle-IsSettled m job dead_letter (some c) s writes (r, here, reached) caused =
      let fields = dead_letter_fields m (st.text_of (some c)) (st.now s.world) in
      let w = (st.xadd_dead fields s.world).1 in
      let here' = stream_leaves.xadd_keeps fields s.world job.image_id ∙ here in
      let update = laws.update_status_writes job.image_id failed (some c) w in
      is_failed (with_status failed (some c) r)
        (stream_leaves.xack_keeps m.id (on_dead_letter p job (some c) w) job.image_id
          ∙ written_to update r here' (writes c refl refl))
        refl

  attempts_caused :
      (job : Job) (s : Run W)
      → 0 < o.max_attempts
      → let result = (attempts o (worker_outside p st) job s).0 in
        result.0 ≡ dead_letter → (c : Failure) × (result.1 ≡ some c)
  unfolding answers
  attempts_caused job s some_attempt =
      go o.max_attempts (attempts-decide o (worker_outside p st) job s).0 some_attempt
    where
      go :
          (k : ℕ)
          → (attempts o (worker_outside p st) job s).0
            ≡ decide none (answers (worker_outside p st) job k s.world)
          → 0 < k
          → let result = (attempts o (worker_outside p st) job s).0 in
            result.0 ≡ dead_letter → (c : Failure) × (result.1 ≡ some c)
      go zero same h = absurd (omega arith)
      go (suc k) same h = rw same (decide_cause none _ _)

  -- Whatever its handler meets, a delivery with at least one attempt, of a job for an image that
  -- is there, leaves the image ready or failed: never pending, and never processing. It takes that, if
  -- the delivery ends with a dead letter, the one write of its hook is answered without an error; the
  -- calls outside that write no image write none, the repository keeps its laws, and no call but
  -- the worker's own answers ErrSkip.
  pub handle-IsSettled :
      (m : Message) (job : Job) (s : Run W) (r : Row)
      → 0 < o.max_attempts
      → job_from_message m ≡ (job, none)
      → row job.image_id s.world ≡ some r
      → ((c : Failure)
          → (attempts o (worker_outside p st) job s).0 ≡ (dead_letter, some c)
          → (hook_write m job c (attempts o (worker_outside p st) job s).1.world).0 ≡ none)
      → IsSettled (row job.image_id (handle o (worker_outside p st) m s).world)
  unfolding handle
  handle-IsSettled m job s r some_attempt read here writes =
      let run = attempts o (worker_outside p st) job s in
      let ended =
        attempts_inv o (worker_outside p st) job (Known job.image_id) (Ended job.image_id)
          (answered job) (λ w k. (k.0, k.1, tt)) s (r, here) in
      rw (read, handle)
        (settle-IsSettled m job run.0.0 run.0.1 run.1
          (λ c dead caused. writes c (λ i. (dead i, caused i))) ended
          (attempts_caused job s some_attempt))
