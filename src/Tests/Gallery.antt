-- ===== src/Tests/Gallery.antt =====
-- internal/services/implementations: instances of the theorems.
use golang_helloworld.Prelude.{
  List, Option, [], false, none, refl, some, suc, true, zero, ℕ, ◌∷◌, ◌≡◌,
}
use golang_helloworld.Gallery.Cached.{Entry, ListRequest, generate_list_cache_key}
use golang_helloworld.Gallery.Update.{AreGot, update_image, update_image-AreTags}
use golang_helloworld.Text.{Str, bytes, str_eq}
use golang_helloworld.Text.Utf8.{
  continued, decode_rune, runes, runes_after, starts, valid_after, valid_string,
}
use golang_helloworld.Domain.Tag.{validate_tag}
use golang_helloworld.Text.Decimal.{pos, ℤ}
use golang_helloworld.Queue.Failure.{Result, ok}
use golang_helloworld.Domain.{supported}
use golang_helloworld.Domain.Request.{
  AreTags, CreateImageRequest, validate_request, validate_request_tags, validate_tags,
}
use golang_helloworld.Gallery.{
  GalleryImage, Service, create_image, process_tags, store_image, stored, validate_create,
  validate_image,
}
use golang_helloworld.Domain.Extension.{expected_types, validate_content_type_from_extension}
use golang_helloworld.Worker.Images.{ready}
use golang_helloworld.Gallery.Validation.{validate_image_upload}

abbrev upload_one : CreateImageRequest
upload_one = record {
  original_filename = bytes "a.png";
  content_type = bytes "image/png";
  file_size = pos 10;
  width = none;
  height = none;
  metadata = [];
  tags = bytes "Sea" ∷ [];
}

abbrev found_one : GalleryImage
found_one = record {
  id = pos 7;
  filename = bytes "a.png";
  original_filename = bytes "a.png";
  content_type = bytes "image/png";
  file_size = pos 10;
  storage_path = bytes "images/a.png";
  status = ready;
  processing_error = none;
  width = none;
  height = none;
  metadata = [];
  tags = [];
}

-- A service whose calls all work, without a queue.
abbrev works : {W : Type 0} → (GalleryImage → W → Result ℤ × W) → Service W
works insert = record {
  validate_upload = λ r. none;
  validate_data = λ c w. (none, w);
  unique_filename = λ name w. (name, w);
  store = λ name c size w. (ok (bytes "images/a.png"), w);
  delete_object = λ path w. (none, w);
  get_or_create = λ name w. (ok name, w);
  create = insert;
  find = λ id w. (ok found_one, w);
  update_row = λ img w. (none, w);
  delete = λ id w. (none, w);
  update_status = λ id s e w. (none, w);
  publish_job = none;
  validate_deletion = λ id. none;
  validate_update = λ id tags. none;
  caching = none;
  events = none;
}

-- The number counts the rows.
abbrev plain_service : Service ℕ
plain_service = works (λ img w. (ok (pos w), suc w))

-- A tag with a capital letter that comes back as it went in passes the validation of the request,
-- and not that of the image: the object has been stored by then, and stays.
stays_behind :
    (create_image plain_service
      (λ s. s)
      (λ s. s)
      (λ s. true)
      upload_one
      (record { world = 3; calls = [] })).1.calls
    ≡ stored (bytes "images/a.png") ∷ []
unfolding create_image validate_create validate_request supported store_image process_tags
    validate_image validate_tags str_eq valid_string valid_after starts validate_request_tags
    validate_tag runes runes_after decode_rune continued
stays_behind = refl

upload_one_passes : validate_image_upload (λ s. s) upload_one ≡ none
unfolding validate_image_upload str_eq
upload_one_passes = refl

-- A state that holds the cached entry of image 1, where no other image is ever cached.
abbrev Shelf : Type 0
Shelf = Option GalleryImage

abbrev at_one : ℤ → Shelf → Option GalleryImage
at_one (pos (suc zero)) w = w
at_one _ w = none

abbrev keep_one : ℤ → GalleryImage → Shelf → Shelf
keep_one (pos (suc zero)) a w = some a
keep_one _ a w = w

abbrev shelf_service : Service Shelf
shelf_service = works (λ img w. (ok (pos 7), w))

abbrev shelf : ℤ → Entry Shelf GalleryImage
shelf id = record { lookup = λ w. (at_one id w, w); keep = keep_one id }

abbrev same_row : ℤ → Shelf → Option GalleryImage
same_row id w = some found_one

-- Two filters that share a cache key.
abbrev filter_for : List Str → ListRequest
filter_for tags = record {
  page = pos 1;
  page_size = pos 20;
  tag = [];
  tags = tags;
  match_all = false;
}

shared_key :
    generate_list_cache_key (some (filter_for (bytes "a,b" ∷ [])))
    ≡ generate_list_cache_key (some (filter_for (bytes "a" ∷ bytes "b" ∷ [])))
unfolding generate_list_cache_key
shared_key = refl

updated_one :
    (update_image plain_service (pos 7) (bytes "sea" ∷ []) 3).0
    ≡ ok (record found_one { tags = bytes "sea" ∷ [] })
unfolding update_image process_tags validate_image supported str_eq valid_string valid_after starts
    validate_tags validate_tag runes runes_after decode_rune continued
updated_one = refl

update_image-AreTags_example :
    (old : GalleryImage) × ((plain_service.find (pos 7) 3).0 ≡ ok old)
    × (record found_one { tags = bytes "sea" ∷ [] } ≡ record old { tags = bytes "sea" ∷ [] })
    × AreGot plain_service (bytes "sea" ∷ []) (bytes "sea" ∷ [])
    × AreTags (bytes "sea" ∷ [])
    × ((w' : ℕ) × ((plain_service.update_row (record found_one { tags = bytes "sea" ∷ [] }) w').0
          ≡ none))
    × (plain_service.validate_update (pos 7) (bytes "sea" ∷ []) ≡ none)
update_image-AreTags_example =
    update_image-AreTags plain_service (pos 7) (bytes "sea" ∷ []) 3
      (record found_one { tags = bytes "sea" ∷ [] }) updated_one

png_matches :
    validate_content_type_from_extension (λ s. s) (bytes "image/png") (bytes "dir.d/a.png") ≡ none
unfolding validate_content_type_from_extension expected_types str_eq
png_matches = refl
