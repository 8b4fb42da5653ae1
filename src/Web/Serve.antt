-- ===== src/Web/Serve.antt =====
-- internal/web/handlers/handlers.go and api.go: the thumbnail of an image, and its deletion. GetImage,
-- DeleteImage and Retrieve are parameters, and so is the extension of a path in lower case; a
-- response is its status and what it carries.
use golang_helloworld.Prelude.{Bool, Option, [], if◌then◌else◌, none, not, some, ℕ}
use golang_helloworld.Text.{Str, bytes, str_eq}
use golang_helloworld.Text.Decimal.{atoi, ℤ}

-- What the handlers read of an image.
pub record StoredImage : Type 0 where
  pub storage_path : Str
  pub content_type : Str
  pub thumbnail_path : Option Str

pub data Response (B : Type 0) : Type 0 where
  refused : ℕ → Response B
  served : Str → B → Response B
  deleted : ℤ → Response B

abbrev pub thumbnail_content_type : (Str → Str) → Str → Str
thumbnail_content_type lower_ext path =
    if str_eq (lower_ext path) (bytes ".png")
    then bytes "image/png"
    else if str_eq (lower_ext path) (bytes ".gif")
    then bytes "image/gif"
    else bytes "image/jpeg"

-- The path and the content type that are served.
abbrev pub path_of : (Str → Str) → StoredImage → Option Str → Str × Str
path_of lower_ext img none = (img.storage_path, img.content_type)
path_of lower_ext img (some path) =
    if not (str_eq path [])
    then (path, thumbnail_content_type lower_ext path)
    else (img.storage_path, img.content_type)

module _ {W B : Type 0} (get : ℤ → W → Option StoredImage × W) where
  abbrev pub after_retrieve : Str → Option B × W → Response B × W
  after_retrieve content_type (none, w) = (refused 502, w)
  after_retrieve content_type (some body, w) = (served content_type body, w)

  abbrev pub serve_image :
      (Str → Str) → (Str → W → Option B × W) → Option StoredImage × W → Response B × W
  serve_image lower_ext retrieve (none, w) = (refused 404, w)
  serve_image lower_ext retrieve (some img, w) =
      let (path, content_type) = path_of lower_ext img img.thumbnail_path in
      after_retrieve content_type (retrieve path w)

  abbrev pub thumbnail_of : (Str → Str) → (Str → W → Option B × W) → Option ℤ → W → Response B × W
  thumbnail_of lower_ext retrieve none w = (refused 400, w)
  thumbnail_of lower_ext retrieve (some id) w = serve_image lower_ext retrieve (get id w)

  unfoldable pub thumbnail_image_handler :
      (Str → Str) → (Str → W → Option B × W) → Str → W → Response B × W
  thumbnail_image_handler lower_ext retrieve param w =
      thumbnail_of lower_ext retrieve (atoi param) w

  abbrev pub answer_deleted : ℤ → Bool × W → Response B × W
  answer_deleted id (gone, w) = (if gone then deleted id else refused 500, w)

  abbrev pub delete_found : (ℤ → W → Bool × W) → ℤ → Option StoredImage × W → Response B × W
  delete_found delete id (none, w) = (refused 404, w)
  delete_found delete id (some img, w) = answer_deleted id (delete id w)

  abbrev pub delete_of : (ℤ → W → Bool × W) → Option ℤ → W → Response B × W
  delete_of delete none w = (refused 400, w)
  delete_of delete (some id) w = delete_found delete id (get id w)

  unfoldable pub delete_image_handler : (ℤ → W → Bool × W) → Str → W → Response B × W
  delete_image_handler delete param w = delete_of delete (atoi param) w
