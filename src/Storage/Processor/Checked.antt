-- ===== src/Storage/Processor/Checked.antt =====
-- internal/platform/storage/processor.go: the images that ValidateImage lets pass.
use golang_helloworld.Prelude.{
  Bool-cases, Option, [], ap, arith, false, inl, inr, none, or_false_iff, refl, some, subst, sym,
  true, ◌||◌, ◌↔◌, ◌∙◌, ◌∷◌, ◌≡◌, ◌≤◌,
}
use golang_helloworld.Text.{Str, bytes, str_eq, str_eq→≡}
use golang_helloworld.Text.Decimal.{negsuc, pos, ℤ}
use golang_helloworld.Domain.{below, first_refusal-none, refuse_if, refuse_if-none}
use golang_helloworld.Domain.Paging.{less}
use golang_helloworld.Storage.Processor.{
  Decoded, ImageProcessor, check_format, content_type_empty, dimensions_invalid, exceed,
  sides_too_large, validate_decoded, validate_format_matches_content_type, validate_image_data,
  validate_image_dimensions, validate_supported_content_type,
}

-- A side from 1 to a maximum.
abbrev pub IsSide : ℤ → ℤ → Type 0
IsSide (pos m) (pos n) = (1 ≤ n) × (n ≤ m)
IsSide (pos m) (negsuc n) = ⊥
IsSide (negsuc m) n = ⊥

-- The format is the one that the content type stands for.
pub data IsOfType : Str → Str → Type 0 where
  jpeg : IsOfType (bytes "jpeg") (bytes "image/jpeg")
  jpg : IsOfType (bytes "jpeg") (bytes "image/jpg")
  png : IsOfType (bytes "png") (bytes "image/png")
  gif : IsOfType (bytes "gif") (bytes "image/gif")
  webp : IsOfType (bytes "webp") (bytes "image/webp")

from_type :
    {f t : Str} (format content_type : Str)
    → IsOfType f t
    → str_eq content_type t ≡ true
    → check_format format (some f) ≡ none
    → IsOfType format content_type
from_type {f} {t} format content_type typed same checked = elim (Bool-cases (str_eq format f)) [
  | inl fits ↦
      subst (λ g. IsOfType g content_type) (sym (str_eq→≡ format f fits))
        (subst (IsOfType f) (sym (str_eq→≡ content_type t same)) typed)
  | inr differs ↦ absurd (refused differs checked)
]
  where
    refused : str_eq format f ≡ false → check_format format (some f) ≡ none → ⊥
    refused differs checked = ground (arith, differs, checked)

typed :
    (format content_type : Str)
    → validate_supported_content_type content_type ≡ none
    → validate_format_matches_content_type format content_type ≡ none
    → IsOfType format content_type
typed format t known matched = elim (Bool-cases (str_eq t (bytes "image/jpeg"))) [
  | inl y1 ↦ from_type format t jpeg y1 (rw y1 at matched)
  | inr n1 ↦ elim (Bool-cases (str_eq t (bytes "image/jpg"))) [
    | inl y2 ↦ from_type format t jpg y2 (rw (n1, y2) at matched)
    | inr n2 ↦ elim (Bool-cases (str_eq t (bytes "image/png"))) [
      | inl y3 ↦ from_type format t png y3 (rw (n1, n2, y3) at matched)
      | inr n3 ↦ elim (Bool-cases (str_eq t (bytes "image/gif"))) [
        | inl y4 ↦ from_type format t gif y4 (rw (n1, n2, n3, y4) at matched)
        | inr n4 ↦ elim (Bool-cases (str_eq t (bytes "image/webp"))) [
          | inl y5 ↦ from_type format t webp y5 (rw (n1, n2, n3, n4, y5) at matched)
          | inr n5 ↦ absurd (cc (rw (n1, n2, n3, n4, n5) at known))
        ]
      ]
    ]
  ]
]

untyped :
    (format content_type : Str)
    → IsOfType format content_type
    → (str_eq content_type [] ≡ false)
      × (validate_supported_content_type content_type ≡ none)
      × (validate_format_matches_content_type format content_type ≡ none)
unfolding str_eq
untyped _ _ jpeg = (refl, refl, refl)
untyped _ _ jpg = (refl, refl, refl)
untyped _ _ png = (refl, refl, refl)
untyped _ _ gif = (refl, refl, refl)
untyped _ _ webp = (refl, refl, refl)

side : (m n : ℤ) → ((below n 1 ≡ false) × (less m n ≡ false)) ↔ IsSide m n
side (pos m) (pos n) = (λ h. ground (arith, h.0, h.1), λ h. ground (arith, h.0, h.1))
side (pos m) (negsuc n) = (λ h. absurd (cc (h.0)), λ h. absurd h)
side (negsuc m) (pos n) = (λ h. absurd (cc (h.1)), λ h. absurd h)
side (negsuc m) (negsuc n) = (λ h. absurd (cc (h.0)), λ h. absurd h)

sides :
    (p : ImageProcessor) (width height : ℤ)
    → (validate_image_dimensions p width height ≡ none)
      ↔ (IsSide p.max_width width × IsSide p.max_height height)
sides p width height =
    let checks =
      refuse_if (below width 1 || below height 1) dimensions_invalid
      ∷ refuse_if (exceed p width height) sides_too_large
      ∷ [] in
    (
      λ h.
          let (low, (high, _)) = (first_refusal-none checks).0 h in
          let (w_low, h_low) =
            (or_false_iff (below width 1) (below height 1)).0 ((refuse_if-none _ _).0 low) in
          let (w_high, h_high) =
            (or_false_iff (less p.max_width width) (less p.max_height height)).0
              ((refuse_if-none _ _).0 high) in
          (
            (side p.max_width width).0 (w_low, w_high),
            (side p.max_height height).0 (h_low, h_high),
          ),
      λ h.
          let (w_low, w_high) = (side p.max_width width).1 h.0 in
          let (h_low, h_high) = (side p.max_height height).1 h.1 in
          (first_refusal-none checks).1 (
            (refuse_if-none _ _).1
                ((or_false_iff (below width 1) (below height 1)).1 (w_low, h_low)),
            (
              (refuse_if-none _ _).1 (
                  (or_false_iff (less p.max_width width) (less p.max_height height)).1
                    (w_high, h_high)),
              tt,
            ),
          ),
    )

module _ {D : Type 0} (decode_config : D → Option Decoded) (p : ImageProcessor) where
  -- The data decodes to sides within the maxima, in the format of the content type.
  abbrev pub IsImage : D → Str → Type 0
  IsImage d content_type =
      (c : Decoded) × (decode_config d ≡ some c)
      × IsSide p.max_width c.width
      × IsSide p.max_height c.height
      × IsOfType c.format content_type

  decoded-IsImage :
      (d : D) (content_type : Str) (o : Option Decoded)
      → decode_config d ≡ o
      → validate_supported_content_type content_type ≡ none
      → validate_decoded decode_config p content_type o ≡ none
      → IsImage d content_type
  decoded-IsImage d t none e known h = absurd (cc h)
  decoded-IsImage d t (some c) e known h =
      let (sized, (matched, _)) =
        (first_refusal-none (
            validate_image_dimensions p c.width c.height
            ∷ validate_format_matches_content_type c.format t
            ∷ [])).0
          h in
      let (wide, high) = (sides p c.width c.height).0 sized in
      (c, e, wide, high, typed c.format t known matched)

  -- ValidateImage lets data pass just when it decodes to an image whose sides are from 1 to the
  -- processor's maxima, in the format that its content type stands for, which is one of jpeg, png,
  -- gif and webp.
  pub validate_image_data-IsImage :
      (d : D) (content_type : Str)
      → (validate_image_data decode_config p (some d) content_type ≡ none) ↔ IsImage d content_type
  unfolding validate_image_data
  validate_image_data-IsImage d t =
      let checks =
        refuse_if (str_eq t []) content_type_empty
        ∷ validate_supported_content_type t
        ∷ validate_decoded decode_config p t (decode_config d)
        ∷ [] in
      (
        λ h.
            let (_, (known, (fine, _))) = (first_refusal-none checks).0 h in
            decoded-IsImage d t (decode_config d) refl known fine,
        λ (c, e, wide, high, of_type).
            let (given, known, matched) = untyped c.format t of_type in
            (first_refusal-none checks).1 (
              (refuse_if-none _ _).1 given,
              (
                known,
                (
                  ap (validate_decoded decode_config p t) e
                      ∙ (first_refusal-none (
                            validate_image_dimensions p c.width c.height
                            ∷ validate_format_matches_content_type c.format t
                            ∷ [])).1
                          ((sides p c.width c.height).1 (wide, high), (matched, tt)),
                  tt,
                ),
              ),
            ),
      )
