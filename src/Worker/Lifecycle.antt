-- ===== src/Worker/Lifecycle.antt =====
-- The worker of internal/worker/processor.go as the handler of the consumer of
-- internal/platform/queue/consumer.go, wired as internal/app/worker.go wires them: what a delivery
-- leaves of the image it is about.
use mathlib.Core.Bool.{false≢true}
use golang_helloworld.Prelude.{
  Bool, Bool-cases, Option, ap, arith, false, inl, inr, none, refl, some, sym, true, ◌∙◌, ◌≡◌, ◌≢◌,
  ◌⊎◌,
}
use golang_helloworld.Text.{Str, str_eq}
use golang_helloworld.Text.Decimal.{ℤ}
use golang_helloworld.Queue.Failure.{Failure, Result, err, is_skip, ok}
use golang_helloworld.Queue.Job.{Fields, Job, job_type_process_image}
use golang_helloworld.Queue.Consumer.{
  Outcome, Outside, Reply, dead_letter, retry, returns, skipped, success,
}
use golang_helloworld.Worker.Images.{
  Image, RepositoryLaws, Row, Status, failed, pending, processing, ready, with_result, with_status,
}
use golang_helloworld.Worker.{Processor, handle_job, loaded, on_dead_letter}
use golang_helloworld.Worker.Effects.{LeavesRows}
use golang_helloworld.Worker.Outcomes.{
  Ends, finished, finished_unheard, left_processing, untouched, handle_job-Ends, handle_job_ready,
  loaded_busy,
}
use golang_helloworld.Worker.Errors.{NeverSkips, work_on-NoSkip}

-- The stream server as the consumer calls it, and the texts of a dead letter.
pub record Stream (W : Type 0) : Type 0 where
  pub text_of : Option Failure → Str
  pub now : W → Str
  pub xadd_dead : Fields → W → Bool × W
  pub xack : Str → W → Bool × W

abbrev pub reply_of : Result (Unit {0}) → Reply
reply_of (ok u) = returns none
reply_of (err e) = returns (some e)

-- consumer.Run(ctx, p.Handle) with WithDeadLetterHook(p.OnDeadLetter)
abbrev pub worker_outside : {W : Type 0} → Processor W → Stream W → Outside W
worker_outside p st = record {
  handler = λ job w. (reply_of (handle_job p job w).0, (handle_job p job w).1);
  text_of = st.text_of;
  now = st.now;
  xadd_dead = st.xadd_dead;
  xack = st.xack;
  on_dead_letter = some (on_dead_letter p);
}

-- What an outcome says of the row.
abbrev pub Settled : Outcome → Row → Type 0
Settled success r = r.status ≡ ready
Settled skipped r = r.status ≡ ready
Settled dead_letter r = Unit
Settled retry r = ⊥

Status-cases : (s : Status) → (s ≡ ready) ⊎ (s ≢ ready)
Status-cases pending = inr (λ e. cc)
Status-cases processing = inr (λ e. cc)
Status-cases ready = inl refl
Status-cases failed = inr (λ e. cc)

-- The row after one run of the handler, by its answer.
abbrev pub AfterRun : Result (Unit {0}) → Row → Type 0
AfterRun (ok u) r = r.status ≡ ready
AfterRun (err e) r = is_skip e ≡ true → r.status ≡ ready

module _ {W : Type 0} (p : Processor W) (row : ℤ → W → Option Row) (leaves : LeavesRows p row)
    (laws : RepositoryLaws p.images row) (never : NeverSkips p) (job : Job) where
  Ends-AfterRun :
      (r : Row) (answer : Result (Unit {0})) (after : Option Row)
      → ((e : Failure) → answer ≡ err e → is_skip e ≡ false)
      → Ends p job.image_id r after answer
      → (r' : Row) × (after ≡ some r') × AfterRun answer r'
  Ends-AfterRun r _ after quiet (finished pr w key said now) = (with_result pr r, now, refl)
  Ends-AfterRun r (err e) after quiet (untouched now) =
      (r, now, λ h. absurd (false≢true (sym (quiet e refl) ∙ h)))
  Ends-AfterRun r (err e) after quiet (left_processing now) =
      (with_status processing none r, now, λ h. absurd (false≢true (sym (quiet e refl) ∙ h)))
  Ends-AfterRun r (err e) after quiet (finished_unheard pr w key said now) =
      (with_result pr r, now, λ h. refl)

  busy_never_skips :
      (w : W) (r : Row)
      → row job.image_id w ≡ some r
      → r.status ≢ ready
      → (e : Failure) → (handle_job p job w).0 ≡ err e
      → is_skip e ≡ false
  unfolding handle_job
  busy_never_skips w r here busy e = elim (Bool-cases (str_eq job.kind job_type_process_image)) [
    | inr unknown ↦ rw unknown (λ h. ground arith)
    | inl known ↦ rw known (
        go (p.images.get_by_id job.image_id w).0 (p.images.get_by_id job.image_id w).1
          (laws.get_reads job.image_id w) (never.get job.image_id w))
  ]
    where
      some-inj : {a b : Row} → some a ≡ some b → a ≡ b
      some-inj same = cc

      go :
          (found : Result Image) (w' : W)
          → ((img : Image)
              → found ≡ ok img
              → (img.id ≡ job.image_id)
                × ((r' : Row) × (row job.image_id w ≡ some r') × (img.status ≡ r'.status)))
          → ((c : Failure) → found ≡ err c → is_skip c ≡ false)
          → (loaded p job.image_id found w').0 ≡ err e
          → is_skip e ≡ false
      go (err c) w' reads quiet h = ground (arith, quiet c refl)
      go (ok img) w' reads quiet h =
          let (same, found_row) = reads img refl in
          let (r', was, status) = found_row in
          let not_ready : img.status ≢ ready =
            λ e. busy (ap (λ (q : Row). q.status) (some-inj (sym here ∙ was)) ∙ sym status ∙ e) in
          work_on-NoSkip p never img w' e (
            ap (λ (x : Result (Unit {0}) × W). x.0)
              (sym (loaded_busy p job.image_id img w' not_ready))
            ∙ h)

  pub run_once :
      (w : W) (r : Row)
      → row job.image_id w ≡ some r
      → let (answer, w') = handle_job p job w in
        (r' : Row) × (row job.image_id w' ≡ some r') × AfterRun answer r'
  run_once w r here = elim (Status-cases r.status) [
    | inr busy ↦
        Ends-AfterRun r (handle_job p job w).0 (row job.image_id (handle_job p job w).1)
          (busy_never_skips w r here busy) (handle_job-Ends p row leaves laws job w r here busy)
    | inl is_ready ↦
        let (kept, failed_) = handle_job_ready p row leaves laws job w r here is_ready in
        let (e, is_err) = failed_ in
        (r, kept job.image_id ∙ here, rw (is_err, AfterRun) (λ h. is_ready))
  ]
