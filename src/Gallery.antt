-- ===== src/Gallery.antt =====
-- internal/services/implementations/image_service.go: an upload, from its checks to the queue, and
-- a deletion. `W` is the state outside; the calls that change it are also kept in a list, oldest
-- first. Spans, counters and times are left out.
pub mod Create
pub mod Delete
pub mod Cached
pub mod Update
pub mod Validation
use golang_helloworld.Prelude.{
  Bool, List, Option, [], length, ltb, none, not, some, ◌++◌, ◌||◌, ◌∷◌,
}
use golang_helloworld.Text.{Str, bytes, str_eq}
use golang_helloworld.Text.Utf8.{valid_string}
use golang_helloworld.Text.Decimal.{pos, ℤ}
use golang_helloworld.Queue.Failure.{
  Failure, Result, domain_refusal, enqueueing, err, fault, no_job_queue, ok, other, wrap,
}
use golang_helloworld.Domain.{
  DomainError, check_content_type, check_file_size, check_side, first_refusal, invalid_filename,
  max_filename_len, refuse_if,
}
use golang_helloworld.Domain.Request.{CreateImageRequest, validate_request, validate_tags}
use golang_helloworld.Worker.Images.{Status, failed, pending}

-- The fields of an image that the service fills; of its tags, their names.
pub record GalleryImage : Type 0 where
  pub id : ℤ
  pub filename : Str
  pub original_filename : Str
  pub content_type : Str
  pub file_size : ℤ
  pub storage_path : Str
  pub status : Status
  pub processing_error : Option Failure
  pub width : Option ℤ
  pub height : Option ℤ
  pub metadata : Str
  pub tags : List Str

-- validateFilename checks both names for each fault before the next.
abbrev pub image_checks : GalleryImage → List (Option DomainError)
image_checks i =
    refuse_if (str_eq i.filename [] || str_eq i.original_filename []) invalid_filename
    ∷ refuse_if
        (ltb max_filename_len (length i.filename)
          || ltb max_filename_len (length i.original_filename))
        invalid_filename
    ∷ refuse_if (not (valid_string i.filename) || not (valid_string i.original_filename))
        invalid_filename
    ∷ check_content_type i.content_type
    ∷ check_file_size i.file_size
    ∷ check_side i.width
    ∷ check_side i.height
    ∷ validate_tags i.tags
    ∷ []

unfoldable pub validate_image : GalleryImage → Option DomainError
validate_image i = first_refusal (image_checks i)

pub data Call : Type 0 where
  stored : Str → Call
  deleted : Str → Call
  inserted : ℤ → Call
  removed_row : ℤ → Call
  queued : ℤ → Call
  marked_failed : ℤ → Call
  mark_failed_refused : ℤ → Call

-- image.CacheService and image.EventPublisher, as far as an upload and a deletion call them; their
-- errors are ignored.
pub record Caching (W : Type 0) : Type 0 where
  pub delete_cached : ℤ → W → W
  pub invalidate_lists : W → W

pub record Events (W : Type 0) : Type 0 where
  pub publish_created : GalleryImage → W → W
  pub publish_updated : GalleryImage → W → W
  pub publish_deleted : ℤ → W → W

pub record Service (W : Type 0) : Type 0 where
  pub validate_upload : CreateImageRequest → Option Failure
  pub validate_data : Str → W → Option Failure × W
  pub unique_filename : Str → W → Str × W
  pub store : Str → Str → ℤ → W → Result Str × W
  pub delete_object : Str → W → Option Failure × W
  pub get_or_create : Str → W → Result Str × W
  pub create : GalleryImage → W → Result ℤ × W
  pub find : ℤ → W → Result GalleryImage × W
  pub update_row : GalleryImage → W → Option Failure × W
  pub delete : ℤ → W → Option Failure × W
  pub update_status : ℤ → Status → Option Failure → W → Option Failure × W
  pub publish_job : Option (ℤ → Str → W → Option Failure × W)
  pub validate_deletion : ℤ → Option Failure
  pub validate_update : ℤ → List Str → Option Failure
  pub caching : Option (Caching W)
  pub events : Option (Events W)

pub record Course (W : Type 0) : Type 0 where
  pub world : W
  pub calls : List Call

module _ {W : Type 0} (sv : Service W) where
  abbrev pub note : Call → W → Course W → Course W
  note c w s = record { world = w; calls = s.calls ++ c ∷ [] }

  -- Of the enqueue failure, what is stored is its text.
  abbrev pub mark_failed : GalleryImage → Failure → Course W → GalleryImage × Course W
  mark_failed img e s =
      let message = wrap enqueueing e in
      let (refused, w) = sv.update_status img.id failed (some message) s.world in
      elim refused [
        | some _ ↦ (img, note (mark_failed_refused img.id) w s)
        | none ↦ (
          record img { status = failed; processing_error = some message },
          note (marked_failed img.id) w s,
        )
      ]

  abbrev pub published : GalleryImage → Option Failure × W → Course W → GalleryImage × Course W
  published img (none, w) s = (img, note (queued img.id) w s)
  published img (some e, w) s = mark_failed img e (record s { world = w })

  abbrev pub publish_with :
      Option (ℤ → Str → W → Option Failure × W) → GalleryImage → Course W → GalleryImage × Course W
  publish_with none img s = mark_failed img (fault no_job_queue) s
  publish_with (some publish) img s = published img (publish img.id img.storage_path s.world) s

  unfoldable pub enqueue_processing : GalleryImage → Course W → GalleryImage × Course W
  enqueue_processing img s = publish_with sv.publish_job img s

  -- processTags: the first name that fails ends the loop.
  unfoldable pub process_tags : List Str → W → Result (List Str) × W
  process_tags [] w = (ok [], w)
  process_tags (name ∷ names) w =
      let (found, w1) = sv.get_or_create name w in
      let (rest, w2) = process_tags names w1 in
      elim found [
        | err e ↦ (err (wrap (other name) e), w1)
        | ok tag ↦ elim rest [ err e ↦ (err e, w2) | ok tags ↦ (ok (tag ∷ tags), w2) ]
      ]

  abbrev pub build_image : CreateImageRequest → Str → Str → List Str → GalleryImage
  build_image req name path tags = record {
    id = pos 0;
    filename = name;
    original_filename = req.original_filename;
    content_type = req.content_type;
    file_size = req.file_size;
    storage_path = path;
    status = pending;
    processing_error = none;
    width = req.width;
    height = req.height;
    metadata = req.metadata;
    tags = tags;
  }

  abbrev pub lists_invalidated : Option (Caching W) → W → W
  lists_invalidated none w = w
  lists_invalidated (some cache) w = cache.invalidate_lists w

  abbrev pub creation_published : Option (Events W) → GalleryImage → W → W
  creation_published none img w = w
  creation_published (some es) img w = es.publish_created img w

  -- handlePostCreation
  abbrev pub after_creation : GalleryImage → W → W
  after_creation img w = creation_published sv.events img (lists_invalidated sv.caching w)

  abbrev pub finish : GalleryImage → Course W → Result GalleryImage × Course W
  finish img s =
      let (queued_, s1) =
        enqueue_processing img (record s { world = after_creation img s.world }) in
      (ok queued_, s1)

  -- A row that is not inserted takes its object with it, as far as the store lets it.
  abbrev pub saved_row : GalleryImage → Result ℤ × W → Course W → Result GalleryImage × Course W
  saved_row img (ok id, w) s = finish (record img { id = id }) (note (inserted id) w s)
  saved_row img (err e, w) s = (
    err (wrap (other (bytes "save")) e),
    note (deleted img.storage_path) (sv.delete_object img.storage_path w).1 s,
  )

  unfoldable pub save_image : GalleryImage → Course W → Result GalleryImage × Course W
  save_image img s = saved_row img (sv.create img s.world) s

  abbrev pub checked_image :
      GalleryImage → Option DomainError → Course W → Result GalleryImage × Course W
  checked_image img none s = save_image img s
  checked_image img (some e) s = (err (wrap (other (bytes "final")) (fault (domain_refusal e))), s)

  abbrev pub tagged :
      CreateImageRequest → Str → Result (List Str) × W → Course W → Result GalleryImage × Course W
  tagged req path (err e, w) s = (err e, record s { world = w })
  tagged req path (ok tags, w) s =
      let (name, w1) = sv.unique_filename req.original_filename w in
      let img = build_image req name path tags in
      checked_image img (validate_image img) (record s { world = w1 })

  abbrev pub stored_object :
      CreateImageRequest → Result Str × W → Course W → Result GalleryImage × Course W
  stored_object req (err e, w) s = (err (wrap (other (bytes "store")) e), record s { world = w })
  stored_object req (ok path, w) s =
      let s1 = note (stored path) w s in tagged req path (process_tags req.tags w) s1

  unfoldable pub store_image : CreateImageRequest → Course W → Result GalleryImage × Course W
  store_image req s =
      let (name, w) = sv.unique_filename req.original_filename s.world in
      stored_object req (sv.store name req.content_type req.file_size w) s

  module _ (to_lower trim_space : Str → Str) (is_json : Str → Bool) where
    unfoldable pub validate_create : CreateImageRequest → W → Option Failure × W
    validate_create req w = elim (sv.validate_upload req) [
      | some e ↦ (some (wrap (other (bytes "validation")) e), w)
      | none ↦ elim (validate_request to_lower trim_space is_json req) [
        | some e ↦ (some (wrap (other (bytes "domain")) (fault (domain_refusal e))), w)
        | none ↦ sv.validate_data req.content_type w
      ]
    ]

    abbrev pub validated :
        CreateImageRequest → Option Failure × W → Course W → Result GalleryImage × Course W
    validated req (some e, w) s = (err e, record s { world = w })
    validated req (none, w) s = store_image req (record s { world = w })

    -- CreateImage, on a request that is not nil.
    unfoldable pub create_image : CreateImageRequest → Course W → Result GalleryImage × Course W
    create_image req s = validated req (validate_create req s.world) s

  abbrev pub cleanup_storage : Str → Course W → Course W
  cleanup_storage [] s = s
  cleanup_storage (b ∷ path) s = note (deleted (b ∷ path)) (sv.delete_object (b ∷ path) s.world).1 s

  abbrev pub image_forgotten : Option (Caching W) → ℤ → W → W
  image_forgotten none id w = w
  image_forgotten (some cache) id w = cache.invalidate_lists (cache.delete_cached id w)

  abbrev pub deletion_published : Option (Events W) → ℤ → W → W
  deletion_published none id w = w
  deletion_published (some es) id w = es.publish_deleted id w

  -- handlePostDeletion
  abbrev pub after_deletion : ℤ → W → W
  after_deletion id w = deletion_published sv.events id (image_forgotten sv.caching id w)

  abbrev pub deleted_row : ℤ → Str → Option Failure × W → Course W → Option Failure × Course W
  deleted_row id path (some e, w) s =
      (some (wrap (other (bytes "delete")) e), record s { world = w })
  deleted_row id path (none, w) s =
      let s1 = cleanup_storage path (note (removed_row id) w s) in
      (none, record s1 { world = after_deletion id s1.world })

  abbrev pub found_image : ℤ → Result GalleryImage × W → Course W → Option Failure × Course W
  found_image id (err e, w) s = (some (wrap (other (bytes "find")) e), record s { world = w })
  found_image id (ok img, w) s = deleted_row id img.storage_path (sv.delete id w) s

  unfoldable pub delete_image : ℤ → Course W → Option Failure × Course W
  delete_image id s = elim (sv.validate_deletion id) [
    | some e ↦ (some (wrap (other (bytes "deletion")) e), s)
    | none ↦ found_image id (sv.find id s.world) s
  ]
