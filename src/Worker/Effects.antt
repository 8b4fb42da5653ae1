-- ===== src/Worker/Effects.antt =====
-- What a run of the handler of internal/worker/processor.go may change.
use golang_helloworld.Prelude.{Option, none, refl, some, ◌≡◌}
use golang_helloworld.Text.{Str}
use golang_helloworld.Text.Decimal.{ℤ}
use golang_helloworld.Queue.Failure.{Failure}
use golang_helloworld.Worker.Images.{Image, Row}
use golang_helloworld.Worker.{Processor, checked, fetch, injected, process, store_thumbnail}
use golang_helloworld.Worker.Rules.{Quiet, Quiet-checked, Quiet-pure, quiet_rules}

-- Neither the object store nor the fault injector writes to the image rows.
pub record LeavesRows {W : Type 0} (p : Processor W) (row : ℤ → W → Option Row) : Type 0 where
  pub retrieve_keeps : (path : Str) (w : W) (j : ℤ) → row j (p.store.retrieve path w).1 ≡ row j w
  pub store_keeps :
      (key kind content : Str) (w : W) (j : ℤ)
      → row j (p.store.store_at key kind content w).1 ≡ row j w
  pub faults_keep :
      (f : W → Option Failure × W) → p.faults ≡ some f → (w : W) (j : ℤ) → row j (f w).1 ≡ row j w

module _ {W : Type 0} (p : Processor W) (row : ℤ → W → Option Row) (leaves : LeavesRows p row) where
  retrieve-Quiet : (path : Str) → Quiet row (p.store.retrieve path)
  retrieve-Quiet path = record { at = leaves.retrieve_keeps path }

  store-Quiet : (key kind content : Str) → Quiet row (checked (p.store.store_at key kind content))
  store-Quiet key kind content = Quiet-checked _ (leaves.store_keeps key kind content)

  fetch-Quiet : (path : Str) → Quiet row (fetch p path)
  unfolding fetch
  fetch-Quiet path = search (quiet_rules, retrieve-Quiet)

  store_thumbnail-Quiet :
      (id : ℤ) (format thumb : Str) → Quiet row (store_thumbnail p id format thumb)
  unfolding store_thumbnail
  store_thumbnail-Quiet id format thumb = search (quiet_rules, store-Quiet)

  pub process-Quiet : (img : Image) → Quiet row (process p img)
  unfolding process
  process-Quiet img = search (quiet_rules, fetch-Quiet, store_thumbnail-Quiet)

  pub injected-Quiet : Quiet row (injected p p.faults)
  injected-Quiet = go p.faults leaves.faults_keep
    where
      go :
          (faults : Option (W → Option Failure × W))
          → ((f : W → Option Failure × W)
              → faults ≡ some f
              → (w : W) (j : ℤ) → row j (f w).1 ≡ row j w)
          → Quiet row (injected p faults)
      go none keeps = Quiet-pure tt
      go (some f) keeps = Quiet-checked f (keeps f refl)
