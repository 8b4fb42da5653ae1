-- ===== src/Worker/Images.antt =====
-- The image rows as the worker sees them (internal/domain/image/interfaces.go and models.go): the
-- repository as an interface, with the laws that its SQL statements are written for
-- (internal/platform/database/image_repository.go).
use golang_helloworld.Prelude.{Bool, Option, none, some, ℕ, ◌≡◌, ◌≢◌, ◌⊎◌}
use golang_helloworld.Text.{Str}
use golang_helloworld.Text.Decimal.{ℤ}
use golang_helloworld.Queue.Failure.{Failure, Result, ok}

pub data Status : Type 0 where
  pending processing ready failed : Status

-- The fields of an image that the worker reads.
pub record Image : Type 0 where
  pub id : ℤ
  pub storage_path : Str
  pub status : Status

pub record ProcessingResult : Type 0 where
  pub thumbnail_path : Str
  pub width : ℕ
  pub height : ℕ
  pub format : Str
  pub color_space : Str
  pub has_alpha : Bool

-- The columns of a row that these statements write.
pub record Row : Type 0 where
  pub storage_path : Str
  pub status : Status
  pub processing_error : Option Failure
  pub result : Option ProcessingResult

pub record Repository (W : Type 0) : Type 0 where
  pub get_by_id : ℤ → W → Result Image × W
  pub update_status : ℤ → Status → Option Failure → W → Option Failure × W
  pub complete_processing : ℤ → ProcessingResult → W → Option Failure × W

-- UPDATE images SET status = $2, processing_error = $3
abbrev pub with_status : Status → Option Failure → Row → Row
with_status s e r = record r { status = s; processing_error = e }

-- UPDATE images SET status = 'ready', thumbnail_path = $2, …, processing_error = NULL
abbrev pub with_result : ProcessingResult → Row → Row
with_result p r = record r { status = ready; processing_error = none; result = some p }

-- A statement on the row `id`: it touches no other row, a success has written it, and a failure
-- has written it or not (the connection may break after the commit).
pub record Writes {W : Type 0} (row : ℤ → W → Option Row) (id : ℤ) (f : Row → Row) (w : W)
    (answer : Option Failure × W) : Type 0 where
  pub elsewhere : (j : ℤ) → j ≢ id → row j answer.1 ≡ row j w
  pub written : answer.0 ≡ none → (r : Row) × (row id w ≡ some r) × (row id answer.1 ≡ some (f r))
  pub not_written :
      (row id answer.1 ≡ row id w)
      ⊎ ((r : Row) × (row id w ≡ some r) × (row id answer.1 ≡ some (f r)))

pub record RepositoryLaws {W : Type 0} (images : Repository W) (row : ℤ → W → Option Row)
    : Type 0 where
  pub get_keeps : (id j : ℤ) (w : W) → row j (images.get_by_id id w).1 ≡ row j w
  pub get_reads :
      (id : ℤ) (w : W) (img : Image)
      → (images.get_by_id id w).0 ≡ ok img
      → (img.id ≡ id) × ((r : Row) × (row id w ≡ some r) × (img.status ≡ r.status))
  pub update_status_writes :
      (id : ℤ) (s : Status) (e : Option Failure) (w : W)
      → Writes row id (with_status s e) w (images.update_status id s e w)
  pub complete_processing_writes :
      (id : ℤ) (p : ProcessingResult) (w : W)
      → Writes row id (with_result p) w (images.complete_processing id p w)
