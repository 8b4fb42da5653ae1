-- ===== src/Storage/Service.antt =====
-- internal/platform/storage/service.go: the operations of Service. `W` is the state outside, with the
-- object store in it; the metadata and the hash of the bytes that are written are left out.
use golang_helloworld.Prelude.{
  All, Bool, List, Option, [], false, inl, inr, length, ltb, none, not, refl, some, suc, true, zero,
  ℕ, ◌&&◌, ◌*◌, ◌||◌, ◌∷◌, ◌≡◌, ◌⊎◌,
}
use golang_helloworld.Text.{Str, bytes, str_eq}
use golang_helloworld.Text.Decimal.{ℤ}
use golang_helloworld.Domain.{below, first_refusal, first_refusal-none, refuse_if}
use golang_helloworld.Storage.{
  StorageError, content_type_empty, content_type_unsupported, filename_empty, header_unreadable,
  put_failed, size_negative, zero_size,
}
use golang_helloworld.Storage.Magic.{
  HasMagic, validate_magic_number, validate_magic_number-HasMagic,
}
use golang_helloworld.Storage.Naming.{
  generate_storage_path, take, validate_extension_content_type, validate_filename,
}

-- What an io.Reader gives: its bytes, and then the end of the file or an error.
pub record Reader : Type 0 where
  pub content : Str
  pub breaks : Bool

-- What Put answers: whether it failed, and how many bytes it read.
pub record PutAnswer : Type 0 where
  pub has_failed : Bool
  pub read_bytes : ℕ

-- What Stat or Get answers.
pub data Found {ℓ} (A : Type ℓ) : Type ℓ where
  found : A → Found A
  missing : Found A
  unreachable : Found A

pub record ObjectInfo : Type 0 where
  pub key : Str
  pub object_size : ℤ
  pub object_type : Str
  pub last_modified : ℤ
  pub etag : Str

-- ObjectStore, as far as the service calls it. The reader that Put is given fails once it has read
-- more bytes than the number that comes with it.
pub record ObjectStore (W : Type 0) : Type 0 where
  pub put : Str → Str → Reader → ℤ → ℕ → W → PutAnswer × W
  pub put_unlimited : Str → Str → Reader → W → Bool × W
  pub get : Str → W → Found Str × W
  pub stat : Str → W → Found ObjectInfo × W
  pub delete : Str → W → Bool × W

abbrev pub header_size : ℕ
header_size = 512

abbrev pub get_max_file_size : ℕ
get_max_file_size = 10 * 1024 * 1024

-- isValidContentType knows the same types as the domain.
abbrev pub is_valid_content_type : Str → Bool
is_valid_content_type content_type =
    str_eq content_type (bytes "image/jpeg")
    || str_eq content_type (bytes "image/jpg")
    || str_eq content_type (bytes "image/png")
    || str_eq content_type (bytes "image/gif")
    || str_eq content_type (bytes "image/webp")

abbrev pub header_of : Reader → Str
unfolding take
header_of r = take header_size r.content

abbrev pub validate_file_content : Reader → Str → Option StorageError
unfolding header_of
validate_file_content r content_type = first_refusal (
    refuse_if (r.breaks && ltb (length r.content) header_size) header_unreadable
    ∷ validate_magic_number (header_of r) content_type
    ∷ [])

module _ (to_lower base : Str → Str) where
  -- Every check of Store, in its order.
  abbrev pub store_checks : Str → Str → Reader → ℤ → List (Option StorageError)
  unfolding validate_file_content
  store_checks filename content_type r size =
      refuse_if (str_eq filename []) filename_empty
      ∷ refuse_if (str_eq content_type []) content_type_empty
      ∷ refuse_if (below size 0) size_negative
      ∷ validate_filename to_lower base filename
      ∷ validate_extension_content_type to_lower base filename content_type
      ∷ refuse_if (not (is_valid_content_type content_type)) content_type_unsupported
      ∷ validate_file_content r content_type
      ∷ []

  module _ {W : Type 0} (objects : ObjectStore W) (digest : Str → Str) (stamp : ℤ) where
    -- A file of no bytes is taken out of the store again.
    abbrev pub uploaded : Str → PutAnswer × W → (StorageError ⊎ Str) × W
    uploaded path (answer, w) = settled answer.has_failed answer.read_bytes
      where
        settled : Bool → ℕ → (StorageError ⊎ Str) × W
        settled true n = (inl put_failed, w)
        settled false zero = (inl zero_size, (objects.delete path w).1)
        settled false (suc n) = (inr path, w)

    abbrev pub upload_checked :
        Str → Str → Reader → ℤ → Option StorageError → W → (StorageError ⊎ Str) × W
    upload_checked filename content_type r size (some e) w = (inl e, w)
    upload_checked filename content_type r size none w =
        let path = generate_storage_path to_lower base digest stamp filename in
        uploaded path (objects.put path content_type r size get_max_file_size w)

    unfoldable pub store : Str → Str → Reader → ℤ → W → (StorageError ⊎ Str) × W
    unfolding store_checks
    store filename content_type r size w =
        upload_checked filename content_type r size
          (first_refusal (store_checks filename content_type r size)) w

    -- What a call of Store comes to.
    pub data Stores (filename content_type : Str) (r : Reader) (size : ℤ) (w : W)
        : (StorageError ⊎ Str) × W → Type 0 where
      refuses :
          (e : StorageError)
          → first_refusal (store_checks filename content_type r size) ≡ some e
          → Stores filename content_type r size w (inl e, w)
      fails :
          (n : ℕ) (w1 : W)
          → objects.put
              (generate_storage_path to_lower base digest stamp filename)
              content_type
              r
              size
              get_max_file_size
              w
            ≡ (record { has_failed = true; read_bytes = n }, w1)
          → Stores filename content_type r size w (inl put_failed, w1)
      cleans_up :
          (w1 : W)
          → objects.put
              (generate_storage_path to_lower base digest stamp filename)
              content_type
              r
              size
              get_max_file_size
              w
            ≡ (record { has_failed = false; read_bytes = 0 }, w1)
          → Stores filename content_type r size w (
            inl zero_size,
            (objects.delete (generate_storage_path to_lower base digest stamp filename) w1).1,
          )
      keeps :
          (n : ℕ) (w1 : W)
          → All (λ c. c ≡ none) (store_checks filename content_type r size)
          → HasMagic (header_of r) content_type
          → objects.put
              (generate_storage_path to_lower base digest stamp filename)
              content_type
              r
              size
              get_max_file_size
              w
            ≡ (record { has_failed = false; read_bytes = suc n }, w1)
          → Stores filename content_type r size w
              (inr (generate_storage_path to_lower base digest stamp filename), w1)

    -- A call of Store ends in one of four ways: a check refuses the file, and nothing is called; the
    -- upload fails; the upload reads no byte, and the object is deleted again; or every check
    -- passed, the file begins the way its content type does, and the upload read some bytes under
    -- the key that is answered.
    pub store-Stores :
        (filename content_type : Str) (r : Reader) (size : ℤ) (w : W)
        → Stores filename content_type r size w (store filename content_type r size w)
    unfolding store
    store-Stores filename content_type r size w =
        checked (first_refusal (store_checks filename content_type r size)) refl
      where
        passes :
            first_refusal (store_checks filename content_type r size) ≡ none
            → (b : Bool) (n : ℕ) (w1 : W)
            → objects.put
                (generate_storage_path to_lower base digest stamp filename)
                content_type
                r
                size
                get_max_file_size
                w
              ≡ (record { has_failed = b; read_bytes = n }, w1)
            → Stores filename content_type r size w (
                uploaded
                  (generate_storage_path to_lower base digest stamp filename)
                  (record { has_failed = b; read_bytes = n }, w1))
        passes passed true n w1 e = fails n w1 e
        passes passed false zero w1 e = cleans_up w1 e
        passes passed false (suc n) w1 e =
            let all = (first_refusal-none (store_checks filename content_type r size)).0 passed in
            let (_, (_, (_, (_, (_, (_, (content, _))))))) = all in
            let (_, (magic, _)) =
              (first_refusal-none (
                  refuse_if (r.breaks && ltb (length r.content) header_size) header_unreadable
                  ∷ validate_magic_number (header_of r) content_type
                  ∷ [])).0
                content in
            keeps n w1 all (validate_magic_number-HasMagic (header_of r) content_type magic) e

        checked :
            (o : Option StorageError)
            → first_refusal (store_checks filename content_type r size) ≡ o
            → Stores filename content_type r size w
                (upload_checked filename content_type r size o w)
        checked (some e) refusal = refuses e refusal
        checked none passed =
            let (answer, w1) =
              objects.put (generate_storage_path to_lower base digest stamp filename) content_type r
                size get_max_file_size w in
            passes passed answer.has_failed answer.read_bytes w1 refl
