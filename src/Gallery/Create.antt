-- ===== src/Gallery/Create.antt =====
-- What an upload through internal/services/implementations/image_service.go leaves behind.
use golang_helloworld.Prelude.{List, Option, [], none, some, ◌∷◌, ◌≡◌, ◌⊎◌}
use golang_helloworld.Text.{Str}
use golang_helloworld.Text.Decimal.{ℤ}
use golang_helloworld.Queue.Failure.{Failure, Result, err, ok}
use golang_helloworld.Domain.{DomainError}
use golang_helloworld.Domain.Request.{CreateImageRequest}
use golang_helloworld.Worker.Images.{failed, pending}
use golang_helloworld.Gallery.{
  Call, Course, GalleryImage, Service, build_image, deleted, inserted, mark_failed_refused,
  marked_failed, process_tags, queued, stored, validate_image,
}

module _ {W : Type 0} (sv : Service W) (req : CreateImageRequest) where
  -- The store took the file under the path.
  abbrev pub IsStored : Str → Type 0
  IsStored path =
      (name : Str) × (w : W) × ((sv.store name req.content_type req.file_size w).0 ≡ ok path)

  -- The row of an image with this path was inserted under the id.
  abbrev pub IsInserted : ℤ → Str → Type 0
  IsInserted id path =
      (img : GalleryImage) × (w : W) × (img.storage_path ≡ path) × ((sv.create img w).0 ≡ ok id)

  -- There is no queue, or it refused the job.
  abbrev pub IsUnqueued : ℤ → Str → Type 0
  IsUnqueued id path =
      (sv.publish_job ≡ none)
      ⊎ ((publish : ℤ → Str → W → Option Failure × W) × (w : W) × (e : Failure) × (sv.publish_job
            ≡ some publish)
          × ((publish id path w).0 ≡ some e))

  -- How an upload may end, with the calls it made and the state that they leave, and why: each end
  -- carries the answer that led to it.
  pub data Created (validated_as : Option Failure)
      : Result GalleryImage → List Call → W → Type 0 where
    refused_first :
        {e e' : Failure} {w' : W} → validated_as ≡ some e' → Created validated_as (err e) [] w'
    not_stored :
        {e e' : Failure} {w' : W} (name : Str) (w : W)
        → (sv.store name req.content_type req.file_size w).0 ≡ err e'
        → Created validated_as (err e) [] w'
    orphaned_by_tags :
        {e e' : Failure} {w' : W} (path : Str) (w : W)
        → IsStored path
        → (process_tags sv req.tags w).0 ≡ err e'
        → Created validated_as (err e) (stored path ∷ []) w'
    orphaned_by_check :
        {e : Failure} {e' : DomainError} {w' : W} (path name : Str) (tags : List Str)
        → IsStored path
        → validate_image (build_image sv req name path tags) ≡ some e'
        → Created validated_as (err e) (stored path ∷ []) w'
    undone :
        {e e' : Failure} (path : Str) (img : GalleryImage) (w w1 : W)
        → IsStored path
        → img.storage_path ≡ path
        → sv.create img w ≡ (err e', w1)
        → Created validated_as
            (err e)
            (stored path ∷ deleted path ∷ [])
            (sv.delete_object path w1).1
    handed_over :
        {img : GalleryImage} {w' : W} (publish : ℤ → Str → W → Option Failure × W) (w : W)
        → IsStored img.storage_path
        → IsInserted img.id img.storage_path
        → img.status ≡ pending
        → sv.publish_job ≡ some publish
        → publish img.id img.storage_path w ≡ (none, w')
        → Created validated_as
            (ok img)
            (stored img.storage_path ∷ inserted img.id ∷ queued img.id ∷ [])
            w'
    failed_now :
        {img : GalleryImage} (c : Failure) (w : W)
        → IsStored img.storage_path
        → IsInserted img.id img.storage_path
        → IsUnqueued img.id img.storage_path
        → img.status ≡ failed
        → (sv.update_status img.id failed (some c) w).0 ≡ none
        → Created validated_as
            (ok img)
            (stored img.storage_path ∷ inserted img.id ∷ marked_failed img.id ∷ [])
            (sv.update_status img.id failed (some c) w).1
    left_pending :
        {img : GalleryImage} {e : Failure} (c : Failure) (w : W)
        → IsStored img.storage_path
        → IsInserted img.id img.storage_path
        → IsUnqueued img.id img.storage_path
        → img.status ≡ pending
        → (sv.update_status img.id failed (some c) w).0 ≡ some e
        → Created validated_as
            (ok img)
            (stored img.storage_path ∷ inserted img.id ∷ mark_failed_refused img.id ∷ [])
            (sv.update_status img.id failed (some c) w).1

module _ {W : Type 0} (sv : Service W) (req : CreateImageRequest) (v : Option Failure) where
  abbrev Way : Result GalleryImage × Course W → Type 0
  Way (answer, s) = Created sv req v answer s.calls s.world
