-- ===== src/Web/Upload.antt =====
-- internal/web/handlers/upload.go: the handler of an upload. The files, the sniffing of a content type
-- and strings.TrimSpace and ToLower are parameters, and so is CreateImage, on a file, a request and a world;
-- an error is kept as the step that it came from.
pub mod Accounted
use golang_helloworld.Prelude.{
  Bool, Bool-cases, List, Option, [], false, if◌then◌else◌, inl, inr, none, not, some, ℕ, ◌*◌, ◌++◌,
  ◌||◌, ◌∷◌, ◌≡◌, ◌≢◌,
}
use golang_helloworld.Text.{Str, bytes, str_eq, str_eq-false}
use golang_helloworld.Text.Search.{split}
use golang_helloworld.Text.Decimal.{itoa, ℤ}
use golang_helloworld.Domain.{above}
use golang_helloworld.Domain.Request.{CreateImageRequest, seen_in}
use golang_helloworld.Gallery.{GalleryImage}

-- maxFileSize
abbrev pub max_upload_file_size : ℕ
max_upload_file_size = 10 * 1024 * 1024

-- A file of the form: `opens` and `sniffed` are what Open and the detection of the type give.
pub record FileHeader : Type 0 where
  pub upload_name : Str
  pub upload_size : ℤ
  pub declared_type : Str
  pub opens : Bool
  pub sniffed : Option Str

pub data UploadFault : Type 0 where
  file_too_large file_not_opened type_not_detected type_unsupported creation_failed : UploadFault

-- UploadedImageInfo
pub record UploadedImageInfo : Type 0 where
  pub id : ℤ
  pub filename : Str
  pub original_filename : Str
  pub size : ℤ
  pub content_type : Str
  pub width : Option ℤ
  pub height : Option ℤ
  pub tags : List Str
  pub url : Str

abbrev pub uploaded_of : GalleryImage → UploadedImageInfo
uploaded_of img = record {
  id = img.id;
  filename = img.filename;
  original_filename = img.original_filename;
  size = img.file_size;
  content_type = img.content_type;
  width = img.width;
  height = img.height;
  tags = img.tags;
  url = bytes "/api/images/" ++ itoa img.id ++ bytes "/view";
}

-- processedFileResult: the image, or the name and the fault.
pub data FileResult : Type 0 where
  uploaded_image : UploadedImageInfo → FileResult
  upload_error : Str → UploadFault → FileResult

module _ (trim_space to_lower : Str → Str) where
  -- The loop over the parts; `known` are the names that were seen.
  unfoldable pub tags_from : List Str → List Str → List Str
  tags_from known [] = []
  tags_from known (part ∷ parts) =
      let tag = trim_space part in
      let skipped = tags_from known parts in
      let rest = tags_from (to_lower tag ∷ known) parts in
      if str_eq tag []
      then skipped
      else if not (seen_in (to_lower tag) known)
      then tag ∷ rest
      else skipped

  unfoldable pub parse_tags : Str → List Str
  unfolding tags_from
  parse_tags tags_str = if str_eq tags_str [] then [] else tags_from [] (split b',' tags_str)

  -- No name twice, and none that was known.
  abbrev pub AreNew : List Str → List Str → Type 0
  AreNew known [] = Unit
  AreNew known (tag ∷ tags) =
      (tag ≢ []) × (seen_in (to_lower tag) known ≡ false) × AreNew (to_lower tag ∷ known) tags

  tags_from-AreNew : (known parts : List Str) → AreNew known (tags_from known parts)
  unfolding tags_from
  tags_from-AreNew known [] = tt
  tags_from-AreNew known (part ∷ parts) = elim (Bool-cases (str_eq (trim_space part) [])) [
    | inl empty ↦ rw empty (tags_from-AreNew known parts)
    | inr given ↦ elim (Bool-cases (seen_in (to_lower (trim_space part)) known)) [
      | inl old ↦ rw (given, old) (tags_from-AreNew known parts)
      | inr new ↦
          rw (given, new)
            (
              (str_eq-false (trim_space part) []).0 given,
              new,
              tags_from-AreNew (to_lower (trim_space part) ∷ known) parts,
            )
    ]
  ]

  -- The tags that an upload passes on are not empty, and no two of them are one name in lower case.
  pub parse_tags-AreNew : (tags_str : Str) → AreNew [] (parse_tags tags_str)
  unfolding parse_tags
  parse_tags-AreNew tags_str = elim (Bool-cases (str_eq tags_str [])) [
    | inl empty ↦ rw empty tt
    | inr given ↦ rw given (tags_from-AreNew [] (split b',' tags_str))
  ]

-- detectContentType
abbrev pub detect_content_type : FileHeader → Option Str
detect_content_type f = if not (str_eq f.declared_type []) then some f.declared_type else f.sniffed

-- isSupportedImageType knows the types that the domain knows.
abbrev pub is_supported_image_type : Str → Bool
is_supported_image_type content_type =
    str_eq content_type (bytes "image/jpeg")
    || str_eq content_type (bytes "image/jpg")
    || str_eq content_type (bytes "image/png")
    || str_eq content_type (bytes "image/gif")
    || str_eq content_type (bytes "image/webp")

abbrev pub upload_request_of : FileHeader → Str → List Str → CreateImageRequest
upload_request_of f content_type tags = record {
  original_filename = f.upload_name;
  content_type = content_type;
  file_size = f.upload_size;
  width = none;
  height = none;
  metadata = [];
  tags = tags;
}

pub data Response : Type 0 where
  form_refused no_files : Response
  replies : ℕ → List UploadedImageInfo → List (Str × UploadFault) → Response

abbrev pub images_of : List FileResult → List UploadedImageInfo
images_of [] = []
images_of (uploaded_image img ∷ results) = img ∷ images_of results
images_of (upload_error name fault ∷ results) = images_of results

abbrev pub errors_of : List FileResult → List (Str × UploadFault)
errors_of [] = []
errors_of (uploaded_image img ∷ results) = errors_of results
errors_of (upload_error name fault ∷ results) = (name, fault) ∷ errors_of results

-- The status of the response, from the images and the errors.
abbrev pub status_code : List UploadedImageInfo → List (Str × UploadFault) → ℕ
status_code [] errors = 400
status_code (img ∷ images) (e ∷ errors) = 207
status_code (img ∷ images) [] = 201

module _ {W : Type 0} (create : FileHeader → CreateImageRequest → W → Option GalleryImage × W) where
  abbrev pub after_create : FileHeader → Option GalleryImage × W → FileResult × W
  after_create f (none, w) = (upload_error f.upload_name creation_failed, w)
  after_create f (some img, w) = (uploaded_image (uploaded_of img), w)

  abbrev pub create_if_supported : FileHeader → List Str → Option Str → W → FileResult × W
  create_if_supported f tags none w = (upload_error f.upload_name type_not_detected, w)
  create_if_supported f tags (some content_type) w =
      if not (is_supported_image_type content_type)
      then (upload_error f.upload_name type_unsupported, w)
      else after_create f (create f (upload_request_of f content_type tags) w)

  unfoldable pub process_uploaded_file : FileHeader → List Str → W → FileResult × W
  process_uploaded_file f tags w =
      if above f.upload_size max_upload_file_size
      then (upload_error f.upload_name file_too_large, w)
      else if not f.opens
      then (upload_error f.upload_name file_not_opened, w)
      else create_if_supported f tags (detect_content_type f) w

  -- One file after the other, in their order.
  unfoldable pub process_files : List FileHeader → List Str → W → List FileResult × W
  unfolding process_uploaded_file
  process_files [] tags w = ([], w)
  process_files (f ∷ files) tags w =
      let (result, w1) = process_uploaded_file f tags w in
      let (results, w2) = process_files files tags w1 in (result ∷ results, w2)

  abbrev pub respond : List FileResult × W → Response × W
  respond (results, w) = (
    replies (status_code (images_of results) (errors_of results)) (images_of results)
        (errors_of results),
    w,
  )

  -- uploadImagesHandler, on the files and the tags of the form, where `none` is a form that could
  -- not be parsed.
  unfoldable pub upload_images_handler :
      (Str → Str) → (Str → Str) → Option (List FileHeader × Str) → W → Response × W
  unfolding process_files parse_tags
  upload_images_handler trim_space to_lower none w = (form_refused, w)
  upload_images_handler trim_space to_lower (some ([], tags_str)) w = (no_files, w)
  upload_images_handler trim_space to_lower (some (f ∷ files, tags_str)) w =
      respond (process_files (f ∷ files) (parse_tags trim_space to_lower tags_str) w)
