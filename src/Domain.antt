-- ===== src/Domain.antt =====
-- internal/domain/image/models.go: the rules that an image, a tag and a request are checked by. A
-- refusal is kept as the domain error that it wraps, without its text.
pub mod Tag
pub mod Request
pub mod Paging
pub mod Extension
pub mod Events
use golang_helloworld.Prelude.{
  All, Bool, List, Option, [], arith, false, length, ltb, none, not, refl, some, true, ℕ, ◌*◌, ◌||◌,
  ◌↔◌, ◌∷◌, ◌≡◌, ◌≤◌,
}
use golang_helloworld.Text.{Str, bytes, str_eq}
use golang_helloworld.Text.Utf8.{valid_string}
use golang_helloworld.Text.Decimal.{negsuc, pos, ℤ}

pub data DomainError : Type 0 where
  invalid_image_data invalid_content_type invalid_file_size invalid_filename : DomainError
  invalid_dimensions invalid_tag_name invalid_pagination duplicate_tag : DomainError

-- if bad { return err }
abbrev pub refuse_if {ℓ} : {E : Type ℓ} → Bool → E → Option E
refuse_if true e = some e
refuse_if false e = none

-- One check after the other, up to the first that refuses.
abbrev pub first_refusal {ℓ} : {E : Type ℓ} → List (Option E) → Option E
first_refusal [] = none
first_refusal (none ∷ rest) = first_refusal rest
first_refusal (some e ∷ rest) = some e

-- Comparisons of a Go int with a constant.
abbrev pub below : ℤ → ℕ → Bool
below (pos n) bound = ltb n bound
below (negsuc n) bound = true

abbrev pub above : ℤ → ℕ → Bool
above (pos n) bound = ltb bound n
above (negsuc n) bound = false

abbrev pub max_filename_len : ℕ
max_filename_len = 255

abbrev pub max_tag_name_len : ℕ
max_tag_name_len = 100

abbrev pub max_tags_per_image : ℕ
max_tags_per_image = 20

abbrev pub max_file_size : ℕ
max_file_size = 50 * 1024 * 1024

abbrev pub max_side : ℕ
max_side = 50_000

unfoldable pub supported : Str → Bool
supported content_type =
    str_eq content_type (bytes "image/jpeg")
    || str_eq content_type (bytes "image/jpg")
    || str_eq content_type (bytes "image/png")
    || str_eq content_type (bytes "image/gif")
    || str_eq content_type (bytes "image/webp")

abbrev pub check_filename : Str → Option DomainError
check_filename name = first_refusal (
    refuse_if (str_eq name []) invalid_filename
    ∷ refuse_if (ltb max_filename_len (length name)) invalid_filename
    ∷ refuse_if (not (valid_string name)) invalid_filename
    ∷ [])

abbrev pub check_content_type : Str → Option DomainError
check_content_type content_type = first_refusal (
    refuse_if (str_eq content_type []) invalid_content_type
    ∷ refuse_if (not (supported content_type)) invalid_content_type
    ∷ [])

abbrev pub check_file_size : ℤ → Option DomainError
check_file_size size = first_refusal (
    refuse_if (below size 1) invalid_file_size
    ∷ refuse_if (above size max_file_size) invalid_file_size
    ∷ [])

abbrev pub check_side : Option ℤ → Option DomainError
check_side none = none
check_side (some n) = refuse_if (below n 1 || above n max_side) invalid_dimensions

-- What the checks accept.
abbrev pub IsFilename : Str → Type 0
IsFilename name = (1 ≤ length name) × (length name ≤ max_filename_len) × (valid_string name ≡ true)

abbrev pub IsFileSize : ℤ → Type 0
IsFileSize (pos n) = (1 ≤ n) × (n ≤ max_file_size)
IsFileSize (negsuc n) = ⊥

abbrev pub IsSide : Option ℤ → Type 0
IsSide none = Unit
IsSide (some (pos n)) = (1 ≤ n) × (n ≤ max_side)
IsSide (some (negsuc n)) = ⊥

pub refuse_if-none {ℓ} : {E : Type ℓ} (b : Bool) (e : E) → (refuse_if b e ≡ none) ↔ (b ≡ false)
refuse_if-none true e = (λ h. cc, λ h. cc)
refuse_if-none false e = (λ h. refl, λ h. refl)

pub first_refusal-none {ℓ} :
    {E : Type ℓ} (cs : List (Option E)) → (first_refusal cs ≡ none) ↔ All (λ c. c ≡ none) cs
first_refusal-none [] = (λ h. tt, λ h. refl)
first_refusal-none (none ∷ cs) =
    (λ h. (refl, (first_refusal-none cs).0 h), λ h. (first_refusal-none cs).1 h.1)
first_refusal-none (some e ∷ cs) = (λ h. cc, λ h. cc (h.0))

pub check_filename-IsFilename : (name : Str) → (check_filename name ≡ none) ↔ IsFilename name
unfolding str_eq
check_filename-IsFilename [] = (λ h. ground arith, λ h. ground arith)
check_filename-IsFilename (b ∷ s) = (λ h. ground arith, λ h. ground arith)

pub check_file_size-IsFileSize : (n : ℤ) → (check_file_size n ≡ none) ↔ IsFileSize n
check_file_size-IsFileSize (pos n) = (λ h. ground arith, λ h. ground arith)
check_file_size-IsFileSize (negsuc n) = (λ h. ground arith, λ h. ground arith)

pub check_side-IsSide : (o : Option ℤ) → (check_side o ≡ none) ↔ IsSide o
check_side-IsSide none = (λ h. tt, λ h. refl)
check_side-IsSide (some (pos n)) = (λ h. ground arith, λ h. ground arith)
check_side-IsSide (some (negsuc n)) = (λ h. ground arith, λ h. ground arith)

supported_empty : supported [] ≡ false
unfolding supported str_eq
supported_empty = refl

pub check_content_type-supported : (c : Str) → (check_content_type c ≡ none) ↔ (supported c ≡ true)
unfolding str_eq
check_content_type-supported [] = (λ h. ground arith, λ h. absurd (cc (supported_empty, h)))
check_content_type-supported (b ∷ s) = (λ h. ground arith, λ h. ground arith)
