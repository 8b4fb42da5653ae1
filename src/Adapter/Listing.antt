-- ===== src/Adapter/Listing.antt =====
-- internal/services/implementations/image_repository_adapter.go: List and CountByTag, with the
-- conversion of a row. json.Marshal and the count of all rows are parameters.
use golang_helloworld.Prelude.{
  List, Option, [], false, if◌then◌else◌, length, map, none, some, ℕ, ◌∷◌,
}
use golang_helloworld.Text.{Str, bytes}
use golang_helloworld.Text.Decimal.{pos, ℤ}
use golang_helloworld.Domain.Paging.{ListImagesResponse, calculate_total_pages, get_offset, mul_int}
use golang_helloworld.Gallery.Cached.{ListRequest}
use golang_helloworld.Database.{DatabaseImage, DatabaseTag, Pagination, SortParams}
use golang_helloworld.Database.Reads.{Server, get_by_tags}
use golang_helloworld.Database.Tagged.{get_with_tags, int_eq}

-- image.Tag and image.Image
pub record DomainTag : Type 0 where
  pub tag_id : ℤ
  pub name : Str
  pub tag_created_at : ℤ

pub record DomainImage : Type 0 where
  pub id : ℤ
  pub filename : Str
  pub original_filename : Str
  pub content_type : Str
  pub file_size : ℤ
  pub storage_path : Str
  pub thumbnail_path : Option Str
  pub status : Str
  pub processing_error : Option Str
  pub processed_at : Option ℤ
  pub width : Option ℤ
  pub height : Option ℤ
  pub uploaded_at : ℤ
  pub created_at : ℤ
  pub updated_at : ℤ
  pub metadata : Option Str
  pub tags : List DomainTag

abbrev pub domain_tag : DatabaseTag → DomainTag
domain_tag t = record { tag_id = t.tag_id; name = t.name; tag_created_at = t.tag_created_at }

abbrev pub metadata_bytes : (List (Str × Str) → Option Str) → List (Str × Str) → Option Str
metadata_bytes marshal [] = none
metadata_bytes marshal (e ∷ entries) = marshal (e ∷ entries)

abbrev pub convert_to_base_image : (List (Str × Str) → Option Str) → DatabaseImage → DomainImage
convert_to_base_image marshal i = record {
  id = i.id;
  filename = i.filename;
  original_filename = i.original_filename;
  content_type = i.content_type;
  file_size = i.file_size;
  storage_path = i.storage_path;
  thumbnail_path = i.thumbnail_path;
  status = i.status;
  processing_error = i.processing_error;
  processed_at = i.processed_at;
  width = i.width;
  height = i.height;
  uploaded_at = i.uploaded_at;
  created_at = i.created_at;
  updated_at = i.updated_at;
  metadata = metadata_bytes marshal i.metadata;
  tags = map domain_tag i.tags;
}

-- The tags of the request come before its one tag.
abbrev pub single_tag : Str → List Str
single_tag [] = []
single_tag (b ∷ s) = (b ∷ s) ∷ []

abbrev pub tag_filters : ListRequest → List Str
tag_filters r = or_single r.tags r.tag
  where
    or_single : List Str → Str → List Str
    or_single [] tag = single_tag tag
    or_single (t ∷ ts) tag = t ∷ ts

abbrev pub pagination_of : ListRequest → Pagination
unfolding get_offset
pagination_of r = record {
  limit = r.page_size;
  offset = get_offset (record { page = r.page; page_size = r.page_size; tag = r.tag });
}

-- The count of a filtered listing, from one page of it.
abbrev pub approximate_count : ℕ → ListRequest → ℤ
approximate_count found r =
    if int_eq (pos found) r.page_size then mul_int r.page_size r.page else pos found

abbrev pub response_of : ListRequest → ℤ → ListImagesResponse
unfolding calculate_total_pages
response_of r count =
    calculate_total_pages
      (record { total_count = count; page = r.page; page_size = r.page_size; total_pages = pos 0 })

abbrev pub uploaded_at_desc : SortParams
uploaded_at_desc = record { field = bytes "uploaded_at"; order = bytes "DESC" }

module _ {W : Type 0} (db : Server W) (marshal : List (Str × Str) → Option Str)
    (count : W → Option ℤ × W) where
  abbrev pub Listed : Type 0
  Listed = Option (List DomainImage × ListImagesResponse)

  abbrev pub filtered_answer : ListRequest → Option (List DatabaseImage) × W → Listed × W
  unfolding calculate_total_pages
  filtered_answer r (none, w) = (none, w)
  filtered_answer r (some images, w) = (
    some (
      map (convert_to_base_image marshal) images,
      response_of r (approximate_count (length images) r),
    ),
    w,
  )

  abbrev pub counted_answer : ListRequest → List DatabaseImage → Option ℤ × W → Listed × W
  unfolding calculate_total_pages
  counted_answer r images (none, w) = (none, w)
  counted_answer r images (some total, w) =
      (some (map (convert_to_base_image marshal) images, response_of r total), w)

  abbrev pub plain_answer : ListRequest → Option (List DatabaseImage) × W → Listed × W
  unfolding calculate_total_pages
  plain_answer r (none, w) = (none, w)
  plain_answer r (some images, w) = counted_answer r images (count w)

  abbrev pub list_under : ListRequest → List Str → W → Listed × W
  unfolding calculate_total_pages get_offset get_with_tags
  list_under r [] w = plain_answer r (get_with_tags db (pagination_of r) uploaded_at_desc w)
  list_under r (t ∷ ts) w =
      filtered_answer r (get_by_tags db (t ∷ ts) r.match_all (pagination_of r) w)

  unfoldable pub list_images : ListRequest → W → Listed × W
  unfolding calculate_total_pages get_offset get_with_tags
  list_images r w = list_under r (tag_filters r) w

abbrev pub count_found : {W : Type 0} → Option (List DatabaseImage) × W → Option ℕ × W
count_found (none, w) = (none, w)
count_found (some images, w) = (some (length images), w)

abbrev pub count_by_tag : {W : Type 0} → Server W → Str → W → Option ℕ × W
count_by_tag db tag w =
    count_found (get_by_tags db (tag ∷ []) false (record { limit = pos 1000; offset = pos 0 }) w)
