-- ===== src/Tests/Storage.antt =====
-- internal/platform/storage: runs at concrete inputs, and instances of the theorems.
use golang_helloworld.Prelude.{
  Bool, Option, [], arith, false, if◌then◌else◌, inl, inr, length, none, refl, some, true, ℕ, ◌||◌,
  ◌↔◌, ◌∷◌, ◌≡◌,
}
use golang_helloworld.Text.{Str, bytes, str_eq, str_eq_refl}
use golang_helloworld.Text.Search.{contains, split, without_suffix}
use golang_helloworld.Text.Decimal.{itoa, itoa_nat, pos}
use golang_helloworld.Domain.Extension.{expected_types}
use golang_helloworld.Storage.{content_mismatch}
use golang_helloworld.Storage.Magic.{
  check_magic_number_patterns, get_magic_number_patterns, matches_pattern, passes_special_cases,
  png_pattern, validate_magic_number,
}
use golang_helloworld.Storage.Naming.{
  generate_storage_path, replace_dots, sanitize_filename, take, validate_extension_content_type,
  validate_filename,
}
use golang_helloworld.Storage.Service.{
  Found, ObjectInfo, ObjectStore, Reader, Stores, found, missing, store, store-Stores,
}
use golang_helloworld.Storage.Processor.{
  Decoded, new_image_processor, sides_too_large, validate_image_data,
}
use golang_helloworld.Storage.Processor.Checked.{IsImage, validate_image_data-IsImage}
use golang_helloworld.Storage.Safe.{IsComponent, generate_storage_path-IsComponent}
use golang_helloworld.Storage.Access.{KeepsObjects}

-- Spaces, slashes and dots are replaced.
sanitized : sanitize_filename (bytes "a b/../c") ≡ bytes "a_b___c"
unfolding sanitize_filename replace_dots
sanitized = refl

-- A PNG file that says it is a GIF is refused.
png_as_gif : validate_magic_number png_pattern (bytes "image/gif") ≡ some content_mismatch
unfolding validate_magic_number check_magic_number_patterns matches_pattern
    get_magic_number_patterns str_eq passes_special_cases
png_as_gif = refl

abbrev digest_of : Str → Str
digest_of name = bytes "0a1b2c"

generate_storage_path-IsComponent_example :
    (name : Str) × (split b'/'
        (generate_storage_path (λ s. s) (λ s. s) digest_of (pos 7) (bytes "my cat.png"))
      ≡ bytes "0a" ∷ bytes "1b" ∷ name ∷ [])
    × IsComponent name
unfolding take
generate_storage_path-IsComponent_example =
    generate_storage_path-IsComponent (λ s. s) (λ s. s) digest_of (pos 7) (bytes "my cat.png")
      (
        inl (omega arith, omega arith),
        (
          inr (omega arith, omega arith),
          (
            inl (omega arith, omega arith),
            (
              inr (omega arith, omega arith),
              (inl (omega arith, omega arith), (inr (omega arith, omega arith), tt)),
            ),
          ),
        ),
      )

abbrev info_of : Str → ObjectInfo
info_of k = record {
  key = k;
  object_size = pos 1;
  object_type = [];
  last_modified = pos 0;
  etag = [];
}

abbrev answer_for : Str → Bool → Found ObjectInfo
answer_for k true = found (info_of k)
answer_for k false = missing

-- A store of keys, as the test for a key.
abbrev key_store : ObjectStore (Str → Bool)
key_store = record {
  put = λ key content_type r size limit w.
      (record { has_failed = false; read_bytes = length r.content }, λ j. str_eq j key || w j);
  put_unlimited = λ key content_type r w. (false, λ j. str_eq j key || w j);
  get = λ key w. (missing, w);
  stat = λ key w. (answer_for key (w key), w);
  delete = λ key w. (false, λ j. if str_eq j key then false else w j);
}

abbrev no_keys : Str → Bool
no_keys j = false

abbrev png_file : Reader
png_file = record { content = png_pattern; breaks = false }

store-Stores_example :
    Stores
      (λ s. s)
      (λ s. s)
      key_store
      digest_of
      (pos 7)
      (bytes "cat.png")
      (bytes "image/png")
      png_file
      (pos 8)
      no_keys
      (store
        (λ s. s)
        (λ s. s)
        key_store
        digest_of
        (pos 7)
        (bytes "cat.png")
        (bytes "image/png")
        png_file
        (pos 8)
        no_keys)
store-Stores_example =
    store-Stores (λ s. s) (λ s. s) key_store digest_of (pos 7) (bytes "cat.png") (bytes "image/png")
      png_file (pos 8) no_keys

-- Such a file is stored.
cat_stored :
    (store
      (λ s. s)
      (λ s. s)
      key_store
      digest_of
      (pos 7)
      (bytes "cat.png")
      (bytes "image/png")
      png_file
      (pos 8)
      no_keys).0
    ≡ inr (bytes "0a/1b/cat_7.png")
unfolding store validate_filename validate_extension_content_type validate_magic_number
    check_magic_number_patterns matches_pattern get_magic_number_patterns passes_special_cases
    str_eq contains generate_storage_path sanitize_filename replace_dots take without_suffix itoa
    expected_types itoa_nat
cat_stored = refl

keys_kept : KeepsObjects key_store (λ k w. w k)
keys_kept = record {
  stat_finds = λ k w i h. has_key k (w k) i h;
  stat_misses = λ k w h. has_none k (w k) h;
  stat_keeps = λ k j w. refl;
  delete_drops = λ k w h. rw (str_eq_refl k) refl;
  delete_keeps = λ k j w apart. rw apart refl;
}
  where
    has_key : (k : Str) (b : Bool) (i : ObjectInfo) → answer_for k b ≡ found i → b ≡ true
    has_key k true i h = refl
    has_key k false i h = absurd (cc h)

    has_none : (k : Str) (b : Bool) → answer_for k b ≡ missing → b ≡ false
    has_none k true h = absurd (cc h)
    has_none k false h = refl

abbrev one_key : Str → Bool
one_key j = str_eq j (bytes "a")

-- Data that is a picture of this width and height, as a PNG.
abbrev config_of : ℕ × ℕ → Option Decoded
config_of (w, h) = some (record { width = pos w; height = pos h; format = bytes "png" })

-- A picture that is too high is refused.
too_high :
    validate_image_data config_of
      (new_image_processor (pos 100) (pos 80) (pos 0))
      (some (100, 81))
      (bytes "image/png")
    ≡ some sides_too_large
unfolding validate_image_data str_eq
too_high = refl

validate_image_data-IsImage_example :
    (validate_image_data config_of
        (new_image_processor (pos 100) (pos 80) (pos 0))
        (some (100, 80))
        (bytes "image/png")
      ≡ none)
    ↔ IsImage config_of
        (new_image_processor (pos 100) (pos 80) (pos 0))
        (100, 80)
        (bytes "image/png")
validate_image_data-IsImage_example =
    validate_image_data-IsImage config_of (new_image_processor (pos 100) (pos 80) (pos 0)) (100, 80)
      (bytes "image/png")
