-- ===== src/Storage/Processor.antt =====
-- internal/platform/storage/processor.go: the checks and the sizes of the image processor. The codecs
-- and the scaling are outside, and so are float64 numbers; an error is kept as the step that it comes
-- from.
pub mod Checked
use golang_helloworld.Prelude.{
  Bool, List, Option, [], if◌then◌else◌, inl, inr, none, not, some, ◌||◌, ◌∷◌, ◌⊎◌,
}
use golang_helloworld.Text.{Str, bytes, str_eq}
use golang_helloworld.Text.Decimal.{pos, ℤ}
use golang_helloworld.Domain.{above, below, first_refusal, refuse_if}
use golang_helloworld.Domain.Paging.{less}

pub record ImageProcessor : Type 0 where
  pub max_width : ℤ
  pub max_height : ℤ
  pub quality : ℤ

abbrev pub or_side : ℤ → ℤ
or_side n = if below n 1 then pos 2000 else n

abbrev pub valid_quality : ℤ → ℤ → ℤ
valid_quality q other = if below q 1 || above q 100 then other else q

abbrev pub new_image_processor : ℤ → ℤ → ℤ → ImageProcessor
new_image_processor max_width max_height quality = record {
  max_width = or_side max_width;
  max_height = or_side max_height;
  quality = valid_quality quality (pos 85);
}

pub data ProcessorError : Type 0 where
  data_nil content_type_empty sides_not_positive sides_too_large not_decoded : ProcessorError
  not_encoded content_type_unsupported dimensions_invalid format_mismatch : ProcessorError

-- image.Config, with the name of the format.
pub record Decoded : Type 0 where
  pub width : ℤ
  pub height : ℤ
  pub format : Str

-- The content types, with the format that each expects.
abbrev pub expected_formats : List (Str × Str)
expected_formats =
    (bytes "image/jpeg", bytes "jpeg")
    ∷ (bytes "image/jpg", bytes "jpeg")
    ∷ (bytes "image/png", bytes "png")
    ∷ (bytes "image/gif", bytes "gif")
    ∷ (bytes "image/webp", bytes "webp")
    ∷ []

abbrev pub format_of : Str → List (Str × Str) → Option Str
format_of content_type [] = none
format_of content_type ((t, f) ∷ rest) =
    if str_eq content_type t then some f else format_of content_type rest

abbrev pub is_supported_type : Str → Bool
is_supported_type content_type =
    str_eq content_type (bytes "image/jpeg")
    || str_eq content_type (bytes "image/jpg")
    || str_eq content_type (bytes "image/png")
    || str_eq content_type (bytes "image/gif")
    || str_eq content_type (bytes "image/webp")

abbrev pub validate_supported_content_type : Str → Option ProcessorError
validate_supported_content_type content_type =
    refuse_if (not (is_supported_type content_type)) content_type_unsupported

abbrev pub check_format : Str → Option Str → Option ProcessorError
check_format format none = none
check_format format (some f) = if str_eq format f then none else some format_mismatch

abbrev pub validate_format_matches_content_type : Str → Str → Option ProcessorError
validate_format_matches_content_type format content_type =
    check_format format (format_of content_type expected_formats)

abbrev pub exceed : ImageProcessor → ℤ → ℤ → Bool
exceed p width height = less p.max_width width || less p.max_height height

abbrev pub validate_image_dimensions : ImageProcessor → ℤ → ℤ → Option ProcessorError
validate_image_dimensions p width height = first_refusal (
    refuse_if (below width 1 || below height 1) dimensions_invalid
    ∷ refuse_if (exceed p width height) sides_too_large
    ∷ [])

module _ {D : Type 0} (decode_config : D → Option Decoded) where
  abbrev pub validate_decoded : ImageProcessor → Str → Option Decoded → Option ProcessorError
  validate_decoded p content_type none = some not_decoded
  validate_decoded p content_type (some c) = first_refusal (
      validate_image_dimensions p c.width c.height
      ∷ validate_format_matches_content_type c.format content_type
      ∷ [])

  unfoldable pub validate_image_data : ImageProcessor → Option D → Str → Option ProcessorError
  validate_image_data p none content_type = some data_nil
  validate_image_data p (some d) content_type = first_refusal (
      refuse_if (str_eq content_type []) content_type_empty
      ∷ validate_supported_content_type content_type
      ∷ validate_decoded p content_type (decode_config d)
      ∷ [])

-- What the code does with float64: of_int is the conversion and to_int the truncation.
pub record Floats : Type 1 where
  pub Number : Type 0
  pub of_int : ℤ → Number
  pub to_int : Number → ℤ
  pub quotient_of : Number → Number → Number
  pub product_of : Number → Number → Number
  pub is_less : Number → Number → Bool

module _ (fl : Floats) where
  abbrev pub smaller_scale : fl.Number → fl.Number → fl.Number
  smaller_scale x y = if fl.is_less y x then y else x

  -- No image is scaled up.
  abbrev pub scale_of : ℤ → ℤ → ℤ → ℤ → fl.Number
  scale_of src_width src_height max_width max_height =
      smaller_scale
        (smaller_scale (fl.quotient_of (fl.of_int max_width) (fl.of_int src_width))
          (fl.quotient_of (fl.of_int max_height) (fl.of_int src_height)))
        (fl.of_int (pos 1))

  abbrev pub scaled_size : ℤ → ℤ → fl.Number → ℤ × ℤ
  scaled_size src_width src_height scale = (
    fl.to_int (fl.product_of (fl.of_int src_width) scale),
    fl.to_int (fl.product_of (fl.of_int src_height) scale),
  )

  abbrev pub calculate_optimal_thumbnail_size : ℤ → ℤ → ℤ → ℤ → ℤ × ℤ
  calculate_optimal_thumbnail_size src_width src_height max_width max_height =
      if below src_width 1 || below src_height 1
      then (max_width, max_height)
      else scaled_size src_width src_height (scale_of src_width src_height max_width max_height)

-- image.Decode, the scaling to a size, and the encoders: png and gif, and jpeg of a quality.
pub record Codecs (D P : Type 0) : Type 0 where
  pub decode : D → Option (P × Str)
  pub size_of : P → ℤ × ℤ
  pub scale_to : P → ℤ → ℤ → P
  pub encode_png : P → Option D
  pub encode_gif : P → Option D
  pub encode_jpeg : P → ℤ → Option D

module _ {D P : Type 0} (codecs : Codecs D P) (to_lower : Str → Str) where
  abbrev pub or_not_encoded : Option D → ProcessorError ⊎ D
  or_not_encoded none = inl not_encoded
  or_not_encoded (some d) = inr d

  abbrev pub encode_as : Str → ℤ → P → ProcessorError ⊎ D
  encode_as format quality p = or_not_encoded (
      if str_eq (to_lower format) (bytes "png")
      then codecs.encode_png p
      else if str_eq (to_lower format) (bytes "gif")
      then codecs.encode_gif p
      else codecs.encode_jpeg p quality)

  abbrev pub scale_decoded :
      ImageProcessor → (ℤ × ℤ → ℤ × ℤ) → Option (P × Str) → ProcessorError ⊎ D
  scale_decoded p size none = inl not_decoded
  scale_decoded p size (some (pixels, format)) =
      let (width, height) = size (codecs.size_of pixels) in
      encode_as format p.quality (codecs.scale_to pixels width height)

  unfoldable pub generate_thumbnail :
      Floats → ImageProcessor → Option D → ℤ → ℤ → ProcessorError ⊎ D
  generate_thumbnail fl p none max_width max_height = inl data_nil
  generate_thumbnail fl p (some d) max_width max_height =
      if below max_width 1 || below max_height 1
      then inl sides_not_positive
      else scale_decoded p (λ (w, h). scaled_size fl w h (scale_of fl w h max_width max_height))
          (codecs.decode d)

  unfoldable pub resize : ImageProcessor → Option D → ℤ → ℤ → ProcessorError ⊎ D
  resize p none width height = inl data_nil
  resize p (some d) width height =
      if below width 1 || below height 1
      then inl sides_not_positive
      else if exceed p width height
      then inl sides_too_large
      else scale_decoded p (λ size. (width, height)) (codecs.decode d)

  abbrev pub optimize_decoded : ℤ → Option (P × Str) → ProcessorError ⊎ D
  optimize_decoded quality none = inl not_decoded
  optimize_decoded quality (some (pixels, format)) = encode_as format quality pixels

  unfoldable pub optimize_image : ImageProcessor → Option D → ℤ → ProcessorError ⊎ D
  optimize_image p none quality = inl data_nil
  optimize_image p (some d) quality =
      optimize_decoded (valid_quality quality p.quality) (codecs.decode d)
