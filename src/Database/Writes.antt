-- ===== src/Database/Writes.antt =====
-- internal/platform/database/image_repository.go: the statements that write to one row and count the
-- rows that they changed. ExecContext is outside; a statement is kept with its arguments, an error
-- without its text.
use golang_helloworld.Prelude.{Option, if◌then◌else◌, none, some, ℕ, ◌++◌, ◌==◌}
use golang_helloworld.Text.{Str, bytes}
use golang_helloworld.Text.Decimal.{itoa, ℤ}
use golang_helloworld.Queue.Failure.{Failure, external, fault}
use golang_helloworld.Worker.Images.{ProcessingResult, Status}

pub data Statement : Type 0 where
  -- UPDATE images SET thumbnail_path = $2, updated_at = NOW() WHERE id = $1
  set_thumbnail : ℤ → Str → Statement
  -- UPDATE images SET status = $2, processing_error = $3, updated_at = NOW() WHERE id = $1
  set_status : ℤ → Status → Option Failure → Statement
  -- UPDATE images SET status = 'ready', thumbnail_path = $2, width = $3, height = $4, metadata = …,
  -- processing_error = NULL, processed_at = NOW(), updated_at = NOW() WHERE id = $1
  set_result : ℤ → ProcessingResult → Statement
  -- DELETE FROM images WHERE id = $1
  delete_row : ℤ → Statement
  -- DELETE FROM images WHERE storage_path = $1
  delete_path : Str → Statement

-- What ExecContext answers, and then RowsAffected.
pub data Executed : Type 0 where
  broken : Failure → Executed
  uncounted : Failure → Executed
  affected : ℕ → Executed

abbrev pub id_not_found : ℤ → Failure
id_not_found id = fault (external (bytes "image with ID " ++ (itoa id ++ bytes " not found")))

abbrev pub path_not_found : Str → Failure
path_not_found path =
    fault (external (bytes "image with storage path " ++ (path ++ bytes " not found")))

abbrev pub executed {ℓ} : {W : Type ℓ} → Failure → Executed × W → Option Failure × W
executed missing (broken e, w) = (some e, w)
executed missing (uncounted e, w) = (some e, w)
executed missing (affected n, w) = (if n == 0 then some missing else none, w)

module _ {W : Type 0} (exec : Statement → W → Executed × W) where
  unfoldable pub update_thumbnail : ℤ → Str → W → Option Failure × W
  update_thumbnail id path w = executed (id_not_found id) (exec (set_thumbnail id path) w)

  unfoldable pub update_status : ℤ → Status → Option Failure → W → Option Failure × W
  update_status id s e w = executed (id_not_found id) (exec (set_status id s e) w)

  unfoldable pub complete_processing : ℤ → ProcessingResult → W → Option Failure × W
  complete_processing id p w = executed (id_not_found id) (exec (set_result id p) w)

  unfoldable pub delete_by_id : ℤ → W → Option Failure × W
  delete_by_id id w = executed (id_not_found id) (exec (delete_row id) w)

  unfoldable pub delete_by_storage_path : Str → W → Option Failure × W
  delete_by_storage_path path w = executed (path_not_found path) (exec (delete_path path) w)
