-- ===== src/Web/Listing.antt =====
-- internal/web/handlers/api.go: the list of the images. The service, the object store, the time format
-- and the extension and the base of a path are parameters.
use golang_helloworld.Prelude.{
  Bool, List, Option, [], if◌then◌else◌, map, none, not, some, true, ◌&&◌, ◌++◌, ◌||◌, ◌∷◌,
}
use golang_helloworld.Text.{Str, bytes, str_eq}
use golang_helloworld.Text.Decimal.{itoa, pos, ℤ}
use golang_helloworld.Gallery.Cached.{ListRequest}
use golang_helloworld.Adapter.Listing.{DomainImage, DomainTag}
use golang_helloworld.Web.Upload.{is_supported_image_type}

pub record ImageResponse : Type 0 where
  pub response_id : Str
  pub name : Str
  pub url : Str
  pub thumbnail_url : Str
  pub status : Str
  pub size : ℤ
  pub upload_time : Str
  pub content_type : Str
  pub width : Option ℤ
  pub height : Option ℤ
  pub tags : List Str

-- implementations.ObjectInfo
pub record ObjectInfo : Type 0 where
  pub key : Str
  pub object_size : ℤ
  pub object_type : Str
  pub last_modified : ℤ
  pub user_metadata : List (Str × Str)

abbrev pub tag_names : List DomainTag → List Str
tag_names [] = []
tag_names (t ∷ tags) = t.name ∷ tag_names tags

abbrev pub image_url : Str → Str → Str
image_url id part = bytes "/api/images/" ++ (id ++ part)

module _ (format_time : ℤ → Str) where
  abbrev pub response_of_image : DomainImage → ImageResponse
  response_of_image img = record {
    response_id = itoa img.id;
    name = img.original_filename;
    url = image_url (itoa img.id) (bytes "/view");
    thumbnail_url = image_url (itoa img.id) (bytes "/thumbnail");
    status = img.status;
    size = img.file_size;
    upload_time = format_time img.uploaded_at;
    content_type = img.content_type;
    width = img.width;
    height = img.height;
    tags = tag_names img.tags;
  }

  abbrev pub convert_domain_images_to_response : List DomainImage → List ImageResponse
  convert_domain_images_to_response images = map response_of_image images

-- isImageFile, whose table of extensions has five.
abbrev pub is_image_file : (Str → Str) → Str → Str → Bool
is_image_file lower_ext filename content_type =
    if not (str_eq content_type []) && is_supported_image_type content_type
    then true
    else str_eq (lower_ext filename) (bytes ".jpg")
      || str_eq (lower_ext filename) (bytes ".jpeg")
      || str_eq (lower_ext filename) (bytes ".png")
      || str_eq (lower_ext filename) (bytes ".gif")
      || str_eq (lower_ext filename) (bytes ".webp")

abbrev pub entry_of : Str → List (Str × Str) → Option Str
entry_of key [] = none
entry_of key ((k, v) ∷ entries) = if str_eq key k then some v else entry_of key entries

abbrev pub or_base : (Str → Str) → Str → Option Str → Str
or_base base key none = base key
or_base base key (some filename) = filename

abbrev pub extract_original_filename : (Str → Str) → List (Str × Str) → Str → Str
extract_original_filename base metadata key =
    or_base base key (entry_of (bytes "original-filename") metadata)

module _ (lower_ext base : Str → Str) (format_time : ℤ → Str) where
  abbrev pub response_of_object : ObjectInfo → ImageResponse
  response_of_object o = record {
    response_id = o.key;
    name = extract_original_filename base o.user_metadata o.key;
    url = image_url o.key (bytes "/view");
    thumbnail_url = [];
    status = [];
    size = o.object_size;
    upload_time = format_time o.last_modified;
    content_type = [];
    width = none;
    height = none;
    tags = [];
  }

  unfoldable pub filter_image_objects : List ObjectInfo → List ImageResponse
  filter_image_objects [] = []
  filter_image_objects (o ∷ objects) =
      let rest = filter_image_objects objects in
      if is_image_file lower_ext o.key o.object_type then response_of_object o ∷ rest else rest

-- What a list is read from: the service, or else the store, if it is one that lists.
pub record Sources (W : Type 0) : Type 0 where
  pub list_service : Option (ListRequest → W → Option (List DomainImage) × W)
  pub list_objects : Option (Str → ℤ → W → Option (List ObjectInfo) × W)

abbrev pub first_hundred : List Str → Bool → ListRequest
first_hundred tags match_all = record {
  page = pos 1;
  page_size = pos 100;
  tag = [];
  tags = tags;
  match_all = match_all;
}

module _ {W : Type 0} (lower_ext base : Str → Str) (format_time : ℤ → Str) where
  abbrev pub images_listed : Option (List DomainImage) × W → Option (List ImageResponse) × W
  images_listed (none, w) = (none, w)
  images_listed (some images, w) = (some (convert_domain_images_to_response format_time images), w)

  abbrev pub objects_listed : Option (List ObjectInfo) × W → Option (List ImageResponse) × W
  unfolding filter_image_objects
  objects_listed (none, w) = (none, w)
  objects_listed (some objects, w) =
      (some (filter_image_objects lower_ext base format_time objects), w)

  abbrev pub get_images_from_storage :
      Option (Str → ℤ → W → Option (List ObjectInfo) × W) → W → Option (List ImageResponse) × W
  unfolding filter_image_objects
  get_images_from_storage none w = (none, w)
  get_images_from_storage (some list) w = objects_listed (list [] (pos 100) w)

  abbrev pub get_storage_images : Sources W → List Str → Bool → W → Option (List ImageResponse) × W
  unfolding filter_image_objects
  get_storage_images src tags match_all w = from_service src.list_service
    where
      from_service :
          Option (ListRequest → W → Option (List DomainImage) × W) → Option (List ImageResponse) × W
      from_service none = get_images_from_storage src.list_objects w
      from_service (some list) = images_listed (list (first_hundred tags match_all) w)

-- How the list is shown: JSON, JSON with pieces of HTML, or HTML.
pub data Shown : Type 0 where
  list_failed : Shown
  as_json : List ImageResponse → List Str → Bool → Shown
  as_filtered_json : List ImageResponse → List Str → Bool → Shown
  as_html : List ImageResponse → Shown

abbrev pub show_images : Bool → Bool → List Str → Bool → Option (List ImageResponse) → Shown
show_images htmx filtered tags match_all none = list_failed
show_images htmx filtered tags match_all (some images) =
    if htmx
    then (if filtered then as_filtered_json images tags match_all else as_html images)
    else as_json images tags match_all

-- listImagesHandler, on the query and the header.
unfoldable pub list_images_handler :
    {W : Type 0}
    → (Str → Str)
    → (Str → Str)
    → (ℤ → Str)
    → Sources W
    → Bool
    → Bool
    → List Str
    → Bool
    → W
    → Shown × W
unfolding filter_image_objects
list_images_handler lower_ext base format_time src htmx filtered tags match_all w =
    let (images, w1) = get_storage_images lower_ext base format_time src tags match_all w in
    (show_images htmx filtered tags match_all images, w1)
