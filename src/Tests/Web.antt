-- ===== src/Tests/Web.antt =====
-- internal/web/handlers: an instance of each theorem.
use golang_helloworld.Prelude.{
  List, Option, [], arith, false, length, none, refl, some, suc, true, ℕ, ◌+◌, ◌<◌, ◌^◌, ◌↔◌, ◌∷◌,
  ◌≡◌, ◌≤◌, ◌⊎◌,
}
use golang_helloworld.Web.Upload.Accounted.{AreAnswers, upload_images_handler-AreAnswers}
use golang_helloworld.Web.Upload.{
  FileHeader, FileResult, errors_of, file_too_large, images_of, parse_tags, process_files,
  process_uploaded_file, replies, type_unsupported, upload_images_handler,
}
use golang_helloworld.Text.{Str, bytes, str_eq}
use golang_helloworld.Text.Decimal.{atoi, pos, ℤ}
use golang_helloworld.Domain.Request.{CreateImageRequest}
use golang_helloworld.Gallery.{GalleryImage}
use golang_helloworld.Web.Serve.{StoredImage, served, thumbnail_image_handler}
use golang_helloworld.Web.Format.{
  IsScaled, format_file_size, format_file_size-IsScaled, index_panics,
}
use golang_helloworld.Web.Listing.{
  ObjectInfo, as_json, filter_image_objects, list_images_handler, response_of_object,
}

abbrev form_file : ℤ → Str → FileHeader
form_file size content_type = record {
  upload_name = bytes "a.png";
  upload_size = size;
  declared_type = content_type;
  opens = true;
  sniffed = none;
}

abbrev small_png : FileHeader
small_png = form_file (pos 5) (bytes "image/png")

abbrev large_png : FileHeader
large_png = form_file (pos 20000000) (bytes "image/png")

abbrev plain_text : FileHeader
plain_text = form_file (pos 5) (bytes "text/plain")

-- A service that refuses each request, and counts them.
abbrev refuse_all : FileHeader → CreateImageRequest → ℕ → Option GalleryImage × ℕ
refuse_all f r n = (none, suc n)

abbrev two_files : Option (List FileHeader × Str)
two_files = some (large_png ∷ plain_text ∷ [], bytes "sea,sea")

two_refused :
    upload_images_handler refuse_all (λ s. s) (λ s. s) two_files 0
    ≡ (replies 400 [] ((bytes "a.png", file_too_large) ∷ (bytes "a.png", type_unsupported) ∷ []), 0)
unfolding upload_images_handler process_files process_uploaded_file str_eq
two_refused = refl

upload_images_handler-AreAnswers_example :
    (results : List FileResult) × (code : ℕ) × ((upload_images_handler refuse_all
        (λ s. s)
        (λ s. s)
        (some (small_png ∷ plain_text ∷ [], bytes "sea,sea"))
        0).0
      ≡ replies code (images_of results) (errors_of results))
    × AreAnswers refuse_all
        (parse_tags (λ s. s) (λ s. s) (bytes "sea,sea"))
        (small_png ∷ plain_text ∷ [])
        results
    × (length (images_of results) + length (errors_of results) ≡ 2)
    × ((code ≡ 201) ↔ (errors_of results ≡ []))
    × ((code ≡ 400) ↔ (images_of results ≡ []))
upload_images_handler-AreAnswers_example =
    upload_images_handler-AreAnswers refuse_all (λ s. s) (λ s. s) small_png (plain_text ∷ [])
      (bytes "sea,sea") 0

abbrev one_image : ℤ → ℕ → Option StoredImage × ℕ
one_image id w = (
  some (record {
    storage_path = bytes "a";
    content_type = bytes "image/webp";
    thumbnail_path = some [];
  }),
  w,
)

abbrev any_object : Str → ℕ → Option Str × ℕ
any_object path w = (some path, suc w)

-- An empty path of a thumbnail counts as none.
original_served :
    thumbnail_image_handler one_image (λ s. s) any_object (bytes "7") 0
    ≡ (served (bytes "image/webp") (bytes "a"), 1)
unfolding thumbnail_image_handler atoi str_eq
original_served = refl

-- A kilobyte and a half.
format_file_size-IsScaled_example :
    ((1536 < 2 ^ 50) × IsScaled 1536 (format_file_size (pos 1536)))
    ⊎ ((2 ^ 50 ≤ 1536) × (format_file_size (pos 1536) ≡ index_panics))
format_file_size-IsScaled_example = format_file_size-IsScaled 1536 (omega arith) (omega arith)

abbrev stored_object : Str → ObjectInfo
stored_object key = record {
  key = key;
  object_size = pos 5;
  object_type = [];
  last_modified = pos 1;
  user_metadata = [];
}

-- Without a service the list comes from the store, and only objects with the extension of an image
-- are in it.
only_images :
    list_images_handler
      (λ s. s)
      (λ s. s)
      (λ t. [])
      (record {
        list_service = none;
        list_objects = some (λ p n w.
            (some (stored_object (bytes ".png") ∷ stored_object (bytes ".txt") ∷ []), suc w));
      })
      false
      false
      []
      false
      0
    ≡ (
      as_json
          (response_of_object (λ s. s) (λ s. s) (λ t. []) (stored_object (bytes ".png")) ∷ [])
          []
          false,
      1,
    )
unfolding list_images_handler filter_image_objects str_eq
only_images = refl
