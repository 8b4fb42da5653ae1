-- ===== src/Domain/Extension.antt =====
-- internal/domain/image/models.go: ValidateContentTypeFromExtension and the small methods beside it.
-- strings.ToLower is a parameter.
use golang_helloworld.Prelude.{
  List, Option, [], arith, if◌then◌else◌, none, not, some, true, ◌*◌, ◌==◌, ◌||◌, ◌∷◌, ◌≡◌,
}
use golang_helloworld.Text.{Str, bytes, str_eq}
use golang_helloworld.Text.Decimal.{ℤ}
use golang_helloworld.Domain.{DomainError, below, invalid_content_type, refuse_if, supported}
use golang_helloworld.Domain.Request.{seen_in}

-- filepath.Ext: from the last dot of the last element on; `found` is what was found so far.
abbrev pub extension_from : Str → Str → Str
extension_from found [] = found
extension_from found (b ∷ s) =
    let after_slash = extension_from [] s in
    let after_dot = extension_from (b ∷ s) s in
    let after_other = extension_from found s in
    if b == b'/' then after_slash else if b == b'.' then after_dot else after_other

abbrev pub extension : Str → Str
extension path = extension_from [] path

-- expectedTypes, none for an extension that is not there.
unfoldable pub expected_types : Str → Option (List Str)
expected_types ext =
    if str_eq ext (bytes ".jpg") || str_eq ext (bytes ".jpeg")
    then some (bytes "image/jpeg" ∷ bytes "image/jpg" ∷ [])
    else if str_eq ext (bytes ".png")
    then some (bytes "image/png" ∷ [])
    else if str_eq ext (bytes ".gif")
    then some (bytes "image/gif" ∷ [])
    else if str_eq ext (bytes ".webp")
    then some (bytes "image/webp" ∷ [])
    else none

abbrev pub check_expected : Str → Option (List Str) → Option DomainError
check_expected content_type none = some invalid_content_type
check_expected content_type (some expected) =
    refuse_if (not (seen_in content_type expected)) invalid_content_type

module _ (to_lower : Str → Str) where
  unfoldable pub validate_content_type_from_extension : Str → Str → Option DomainError
  validate_content_type_from_extension content_type filename =
      check_expected content_type (expected_types (to_lower (extension filename)))

  -- A content type that fits the extension of a file is one that the domain takes.
  pub content_type_from_extension-supported :
      (content_type filename : Str)
      → validate_content_type_from_extension content_type filename ≡ none
      → supported content_type ≡ true
  unfolding validate_content_type_from_extension expected_types supported
  content_type_from_extension-supported c filename h = ground arith

pub data SizeCategory : Type 0 where
  small_size medium_size large_size xlarge_size : SizeCategory

-- GetSizeCategory
unfoldable pub size_category : ℤ → SizeCategory
size_category size =
    if below size (100 * 1024)
    then small_size
    else if below size (1024 * 1024)
    then medium_size
    else if below size (10 * 1024 * 1024)
    then large_size
    else xlarge_size
