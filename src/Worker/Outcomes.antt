-- ===== src/Worker/Outcomes.antt =====
-- How a run of the handler of internal/worker/processor.go leaves the row of its image.
use golang_helloworld.Prelude.{
  Bool-cases, Option, ap, inl, inr, none, refl, some, subst, sym, ◌∙◌, ◌≡◌, ◌≢◌, ◌⊎◌,
}
use golang_helloworld.Text.{str_eq}
use golang_helloworld.Text.Decimal.{ℤ}
use golang_helloworld.Queue.Failure.{Failure, Result, err, ok, skip}
use golang_helloworld.Queue.Job.{Job, job_type_process_image}
use golang_helloworld.Worker.Images.{
  Image, ProcessingResult, RepositoryLaws, Row, Status, Writes, failed, pending, processing, ready,
  with_result, with_status,
}
use golang_helloworld.Worker.{
  Io, Processor, checked, checked_result, continue, fail, handle_job, injected, loaded, process,
  work_on, ◌>>=◌, ◌>>◌,
}
use golang_helloworld.Worker.Effects.{LeavesRows, injected-Quiet, process-Quiet}
use golang_helloworld.Worker.Keys.{HasKey, process-key}

-- The ends of a run on the row `r`: the image is ready, with the thumbnail that was stored under its
-- key, or there is an error and the row is as it was, processing, or ready all the same: then the
-- error is the answer of the last write, which was made and whose answer was lost.
pub data Ends {W : Type 0} (p : Processor W) (id : ℤ) (r : Row) (after : Option Row)
    : Result (Unit {0}) → Type 0 where
  finished :
      {u : Unit {0}} (pr : ProcessingResult) (w : W)
      → HasKey p id pr
      → (p.images.complete_processing id pr w).0 ≡ none
      → after ≡ some (with_result pr r)
      → Ends p id r after (ok u)
  untouched : {e : Failure} → after ≡ some r → Ends p id r after (err e)
  left_processing :
      {e : Failure} → after ≡ some (with_status processing none r) → Ends p id r after (err e)
  finished_unheard :
      {e : Failure} (pr : ProcessingResult) (w : W)
      → HasKey p id pr
      → (p.images.complete_processing id pr w).0 ≡ some e
      → after ≡ some (with_result pr r)
      → Ends p id r after (err e)

-- A statement on a row that is known.
module _ {W : Type 0} {row : ℤ → W → Option Row} {id : ℤ} {f : Row → Row} {w : W}
    {answer : Option Failure × W} (writes : Writes row id f w answer) (r : Row)
    (here : row id w ≡ some r) where
  pub written_to : answer.0 ≡ none → row id answer.1 ≡ some (f r)
  written_to fine =
      let (r', was, now) = writes.written fine in
      now ∙ ap some (ap f (some-injective' (sym was ∙ here)))
    where
      some-injective' : {r' : Row} → some r' ≡ some r → r' ≡ r
      some-injective' e = cc

  pub maybe_written : (row id answer.1 ≡ some r) ⊎ (row id answer.1 ≡ some (f r))
  maybe_written = go writes.not_written
    where
      go :
          (row id answer.1 ≡ row id w)
            ⊎ ((r' : Row) × (row id w ≡ some r') × (row id answer.1 ≡ some (f r')))
          → (row id answer.1 ≡ some r) ⊎ (row id answer.1 ≡ some (f r))
      go (inl same) = inl (same ∙ here)
      go (inr (r', was, now)) = inr (cc (was, here, now))

module _ {W : Type 0} (p : Processor W) (row : ℤ → W → Option Row) (leaves : LeavesRows p row)
    (laws : RepositoryLaws p.images row) (img : Image) (r : Row) where
  abbrev EndsIn : Result (Unit {0}) × W → Type 0
  EndsIn (answer, w') = Ends p img.id r (row img.id w') answer

  abbrev finish : ProcessingResult → Io W (Unit {0})
  finish pr = checked (p.images.complete_processing img.id pr)

  -- The last step, on a row that is processing.
  complete-Ends :
      (w : W) (pr : ProcessingResult)
      → HasKey p img.id pr
      → row img.id w ≡ some (with_status processing none r)
      → EndsIn (checked (p.images.complete_processing img.id pr) w)
  complete-Ends w pr key here =
      let writes = laws.complete_processing_writes img.id pr w in
      go (p.images.complete_processing img.id pr w).0 refl (written_to writes _ here)
        (maybe_written writes _ here)
    where
      go :
          (e : Option Failure) {after : Option Row}
          → (p.images.complete_processing img.id pr w).0 ≡ e
          → (e ≡ none → after ≡ some (with_result pr r))
          → (after ≡ some (with_status processing none r)) ⊎ (after ≡ some (with_result pr r))
          → Ends p img.id r after (checked_result e)
      go none said done maybe = finished pr w key said (done refl)
      go (some e) said done (inl same) = left_processing same
      go (some e) said done (inr now) = finished_unheard pr w key said now

  -- From the processing status on.
  process-Ends :
      (w : W)
      → row img.id w ≡ some (with_status processing none r)
      → EndsIn ((process p img >>= finish) w)
  process-Ends w here =
      go (process p img w).0 (process p img w).1 refl
        ((process-Quiet p row leaves img).at w img.id ∙ here)
    where
      go :
          (got : Result ProcessingResult) (w' : W)
          → (process p img w).0 ≡ got
          → row img.id w' ≡ some (with_status processing none r)
          → EndsIn (continue got finish w')
      go (ok pr) w' e here' = complete-Ends w' pr ((process-key p img).at w pr e) here'
      go (err c) w' e here' = left_processing here'

  injected-Ends :
      (w : W)
      → row img.id w ≡ some (with_status processing none r)
      → EndsIn ((injected p p.faults >> (process p img >>= finish)) w)
  injected-Ends w here =
      go (injected p p.faults w).0 (injected p p.faults w).1
        ((injected-Quiet p row leaves).at w img.id ∙ here)
    where
      go :
          (got : Result (Unit {0})) (w' : W)
          → row img.id w' ≡ some (with_status processing none r)
          → EndsIn (continue got (λ u. process p img >>= finish) w')
      go (ok u) w' here' = process-Ends w' here'
      go (err c) w' here' = left_processing here'

  -- The whole run, on the row as it was.
  work_on-Ends : (w : W) → row img.id w ≡ some r → EndsIn (work_on p img w)
  unfolding work_on
  work_on-Ends w here =
      let writes = laws.update_status_writes img.id processing none w in
      go (p.images.update_status img.id processing none w).0 (written_to writes r here)
        (maybe_written writes r here)
    where
      go :
          (e : Option Failure) {w' : W}
          → (e ≡ none → row img.id w' ≡ some (with_status processing none r))
          → (row img.id w' ≡ some r) ⊎ (row img.id w' ≡ some (with_status processing none r))
          → EndsIn (
              continue
                (checked_result e)
                (λ u. injected p p.faults >> (process p img >>= finish))
                w')
      go none {w' = w'} done maybe = injected-Ends w' (done refl)
      go (some e) done (inl same) = untouched same
      go (some e) done (inr now) = left_processing now

module _ {W : Type 0} (p : Processor W) (id : ℤ) (img : Image) (w : W) where
  pub loaded_busy : img.status ≢ ready → loaded p id (ok img) w ≡ work_on p img w
  loaded_busy = go img.status
    where
      go :
          (s : Status)
          → s ≢ ready
          → (elim s as (λ x. Io W (Unit {0})) [ ready ↦ fail skip | _ ↦ work_on p img ]) w
            ≡ work_on p img w
      go pending h = refl
      go processing h = refl
      go ready h = absurd (h refl)
      go failed h = refl

  pub loaded_ready : img.status ≡ ready → loaded p id (ok img) w ≡ (err skip, w)
  loaded_ready e = rw (e, loaded) refl

module _ {W : Type 0} (p : Processor W) (row : ℤ → W → Option Row) (leaves : LeavesRows p row)
    (laws : RepositoryLaws p.images row) where
  pub handle_job-Ends :
      (job : Job) (w : W) (r : Row)
      → row job.image_id w ≡ some r
      → r.status ≢ ready
      → let (answer, w') = handle_job p job w in Ends p job.image_id r (row job.image_id w') answer
  unfolding handle_job
  handle_job-Ends job w r here busy = elim (Bool-cases (str_eq job.kind job_type_process_image)) [
    | inr unknown ↦ rw unknown (untouched here)
    | inl known ↦ rw known (
        go (p.images.get_by_id job.image_id w).0 (laws.get_reads job.image_id w)
          ((laws.get_keeps job.image_id job.image_id w) ∙ here))
  ]
    where
      some-inj : {a b : Row} → some a ≡ some b → a ≡ b
      some-inj e = cc

      go :
          (found : Result Image) {w' : W}
          → ((img : Image)
              → found ≡ ok img
              → (img.id ≡ job.image_id)
                × ((r' : Row) × (row job.image_id w ≡ some r') × (img.status ≡ r'.status)))
          → row job.image_id w' ≡ some r
          → let (answer, w'') = loaded p job.image_id found w' in
            Ends p job.image_id r (row job.image_id w'') answer
      go (err e) reads kept = untouched kept
      go (ok img) {w' = w'} reads kept =
          let (same, found_row) = reads img refl in
          let (r', was, status) = found_row in
          let r'-r : r' ≡ r = some-inj (sym was ∙ here) in
          let not_ready : img.status ≢ ready =
            λ e. busy (sym (status ∙ ap (λ (q : Row). q.status) r'-r) ∙ e) in
          rw (loaded_busy p job.image_id img w' not_ready) (
            subst
              (λ id.
                row id w' ≡ some r → Ends p id r (row id (work_on p img w').1) (work_on p img w').0)
              same (work_on-Ends p row leaves laws img r w') kept)

  -- A ready image is left alone: the handler changes no row and answers with an error. It takes the
  -- laws of the repository, and that the object store and the fault injector write no row.
  pub handle_job_ready :
      (job : Job) (w : W) (r : Row)
      → row job.image_id w ≡ some r
      → r.status ≡ ready
      → let (answer, w') = handle_job p job w in
        ((j : ℤ) → row j w' ≡ row j w) × ((e : Failure) × (answer ≡ err e))
  unfolding handle_job
  handle_job_ready job w r here is_ready =
      elim (Bool-cases (str_eq job.kind job_type_process_image)) [
        | inr unknown ↦ rw unknown (λ j. refl, (_, refl))
        | inl known ↦ rw known (
            go (p.images.get_by_id job.image_id w).0 (laws.get_reads job.image_id w)
              (λ j. laws.get_keeps job.image_id j w))
      ]
    where
      some-inj : {a b : Row} → some a ≡ some b → a ≡ b
      some-inj e = cc

      go :
          (found : Result Image) {w' : W}
          → ((img : Image)
              → found ≡ ok img
              → (img.id ≡ job.image_id)
                × ((r' : Row) × (row job.image_id w ≡ some r') × (img.status ≡ r'.status)))
          → ((j : ℤ) → row j w' ≡ row j w)
          → let (answer, w'') = loaded p job.image_id found w' in
            ((j : ℤ) → row j w'' ≡ row j w) × ((e : Failure) × (answer ≡ err e))
      go (err e) reads kept = (kept, (_, refl))
      go (ok img) {w' = w'} reads kept =
          let (same, found_row) = reads img refl in
          let (r', was, status) = found_row in
          let r'-r : r' ≡ r = some-inj (sym was ∙ here) in
          rw
            (loaded_ready p job.image_id img w'
              (status ∙ ap (λ (q : Row). q.status) r'-r ∙ is_ready))
            (kept, (skip, refl))
