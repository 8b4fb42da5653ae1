-- ===== src/Gallery/Validation.antt =====
-- internal/services/implementations/validation_service.go: ValidateImageUpload, on a request that is
-- not nil. strings.TrimSpace is a parameter.
use golang_helloworld.Prelude.{
  All, Bool, List, Option, [], arith, false, length, ltb, none, not, refl, some, true, ℕ, ◌||◌, ◌∷◌,
  ◌≡◌, ◌≤◌,
}
use golang_helloworld.Text.{Str, bytes, str_eq}
use golang_helloworld.Text.Decimal.{negsuc, pos, ℤ}
use golang_helloworld.Domain.{
  IsFileSize, above, below, first_refusal, first_refusal-none, max_file_size, max_tags_per_image,
  refuse_if, refuse_if-none, supported,
}
use golang_helloworld.Domain.Request.{CreateImageRequest, seen_in}

pub data UploadError : Type 0 where
  no_filename no_content_type unsupported_type bad_file_size bad_side : UploadError
  too_many_tags empty_tag tag_too_long : UploadError

abbrev pub upload_types : List Str
upload_types =
    bytes "image/jpeg"
    ∷ bytes "image/jpg"
    ∷ bytes "image/png"
    ∷ bytes "image/gif"
    ∷ bytes "image/webp"
    ∷ bytes "image/bmp"
    ∷ bytes "image/tiff"
    ∷ []

abbrev pub check_upload_size : ℤ → Option UploadError
check_upload_size size = first_refusal (
    refuse_if (below size 1) bad_file_size
    ∷ refuse_if (above size max_file_size) bad_file_size
    ∷ [])

abbrev pub check_upload_side : Option ℤ → Option UploadError
check_upload_side none = none
check_upload_side (some n) = refuse_if (below n 1) bad_side

module _ (trim_space : Str → Str) where
  abbrev pub check_upload_tags : List Str → Option UploadError
  check_upload_tags [] = none
  check_upload_tags (tag ∷ tags) =
      let rest = check_upload_tags tags in
      first_refusal (
        refuse_if (str_eq (trim_space tag) []) empty_tag
        ∷ refuse_if (ltb 50 (length tag)) tag_too_long
        ∷ rest
        ∷ [])

  abbrev pub upload_checks : CreateImageRequest → List (Option UploadError)
  upload_checks r =
      refuse_if (str_eq (trim_space r.original_filename) []) no_filename
      ∷ refuse_if (str_eq (trim_space r.content_type) []) no_content_type
      ∷ refuse_if (not (seen_in r.content_type upload_types)) unsupported_type
      ∷ check_upload_size r.file_size
      ∷ check_upload_side r.width
      ∷ check_upload_side r.height
      ∷ refuse_if (ltb 20 (length r.tags)) too_many_tags
      ∷ check_upload_tags r.tags
      ∷ []

  unfoldable pub validate_image_upload : CreateImageRequest → Option UploadError
  validate_image_upload r = first_refusal (upload_checks r)

  -- A tag that the upload takes.
  abbrev pub IsUploadTag : Str → Type 0
  IsUploadTag tag = (str_eq (trim_space tag) [] ≡ false) × (length tag ≤ 50)

  check_upload_tags-IsUploadTag :
      (tags : List Str) → check_upload_tags tags ≡ none → All IsUploadTag tags
  check_upload_tags-IsUploadTag [] h = tt
  check_upload_tags-IsUploadTag (tag ∷ tags) h =
      let later = check_upload_tags-IsUploadTag tags in
      let refusals =
        refuse_if (str_eq (trim_space tag) []) empty_tag
        ∷ refuse_if (ltb 50 (length tag)) tag_too_long
        ∷ check_upload_tags tags
        ∷ [] in
      let (filled, (short, (rest, _))) = (first_refusal-none refusals).0 h in
      (((refuse_if-none _ _).0 filled, fits (length tag) short), later rest)
    where
      fits : (n : ℕ) → refuse_if (ltb 50 n) tag_too_long ≡ none → n ≤ 50
      fits n k = ground arith

  check_upload_size-IsFileSize : (n : ℤ) → check_upload_size n ≡ none → IsFileSize n
  check_upload_size-IsFileSize (pos n) h = ground arith
  check_upload_size-IsFileSize (negsuc n) h = ground arith

  seen_supported :
      (c : Str)
      → seen_in c upload_types ≡ true
      → str_eq c (bytes "image/bmp") ≡ false
      → str_eq c (bytes "image/tiff") ≡ false
      → supported c ≡ true
  unfolding supported
  seen_supported c h bmp tiff =
      five_of_seven (str_eq c (bytes "image/jpeg")) (str_eq c (bytes "image/jpg"))
        (str_eq c (bytes "image/png")) (str_eq c (bytes "image/gif"))
        (str_eq c (bytes "image/webp")) (str_eq c (bytes "image/bmp"))
        (str_eq c (bytes "image/tiff")) h bmp tiff
    where
      five_of_seven :
          (a b c d e f g : Bool)
          → (a || (b || (c || (d || (e || (f || (g || false))))))) ≡ true
          → f ≡ false
          → g ≡ false
          → (a || b || c || d || e) ≡ true
      five_of_seven a b c d e f g all no_f no_g = ground arith

  -- An upload that the service lets pass has a size that the domain takes, 20 tags at most, each of
  -- 50 bytes at most and not blank, and a content type that the domain takes unless it is
  -- image/bmp or image/tiff.
  validate_image_upload-none :
      (r : CreateImageRequest)
      → validate_image_upload r ≡ none
      → IsFileSize r.file_size
        × ((length r.tags ≤ max_tags_per_image) × All IsUploadTag r.tags)
        × (str_eq r.content_type (bytes "image/bmp") ≡ false
            → str_eq r.content_type (bytes "image/tiff") ≡ false
            → supported r.content_type ≡ true)
  unfolding validate_image_upload
  validate_image_upload-none r h =
      let (_, (_, (kind, (size, (_, (_, (few, (tags, _)))))))) =
        (first_refusal-none (upload_checks r)).0 h in
      (
        check_upload_size-IsFileSize r.file_size size,
        (few_tags (length r.tags) few, check_upload_tags-IsUploadTag r.tags tags),
        seen_supported r.content_type (listed (seen_in r.content_type upload_types) kind),
      )
    where
      few_tags : (n : ℕ) → refuse_if (ltb 20 n) too_many_tags ≡ none → n ≤ max_tags_per_image
      few_tags n k = ground arith

      listed : (b : Bool) → refuse_if (not b) unsupported_type ≡ none → b ≡ true
      listed true k = refl
      listed false k = absurd (cc k)
