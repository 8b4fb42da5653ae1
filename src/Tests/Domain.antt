-- ===== src/Tests/Domain.antt =====
-- internal/domain/image: runs at concrete inputs, and instances of the theorems.
use golang_helloworld.Prelude.{[], false, none, refl, some, true, ◌↔◌, ◌∷◌, ◌≡◌}
use golang_helloworld.Text.{bytes}
use golang_helloworld.Text.Utf8.{
  continued, decode_rune, runes, runes_after, starts, valid_after, valid_string,
}
use golang_helloworld.Text.Decimal.{pos}
use golang_helloworld.Domain.Request.{
  CreateImageRequest, IsAcceptable, validate_request, validate_request-IsAcceptable,
}

-- "é" is one rune, and a lone tail byte is not UTF-8.
two_bytes : runes (195 ∷ 169 ∷ []) ≡ 233 ∷ []
unfolding runes runes_after decode_rune starts continued
two_bytes = refl

lone_tail : valid_string (169 ∷ []) ≡ false
unfolding valid_string valid_after starts
lone_tail = refl

abbrev small_request : CreateImageRequest
small_request = record {
  original_filename = bytes "a.png";
  content_type = bytes "image/png";
  file_size = pos 10;
  width = none;
  height = some (pos 5);
  metadata = [];
  tags = bytes "a" ∷ [];
}

validate_request-IsAcceptable_example :
    (validate_request (λ s. s) (λ s. s) (λ s. true) small_request ≡ none)
    ↔ IsAcceptable (λ s. s) (λ s. s) (λ s. true) small_request
validate_request-IsAcceptable_example =
    validate_request-IsAcceptable (λ s. s) (λ s. s) (λ s. true) small_request
