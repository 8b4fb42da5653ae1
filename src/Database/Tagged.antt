-- ===== src/Database/Tagged.antt =====
-- internal/platform/database/image_repository.go: GetWithTags reads a page of images and the tags of
-- all of them, and joins the two in memory.
pub mod Own
use golang_helloworld.Prelude.{
  Bool, List, Option, [], false, if◌then◌else◌, none, some, ◌++◌, ◌==◌, ◌∷◌,
}
use golang_helloworld.Text.{Str, bytes}
use golang_helloworld.Text.Decimal.{negsuc, pos, ℤ}
use golang_helloworld.Database.{
  DatabaseImage, DatabaseTag, Pagination, SortParams, ids_arg, int_arg,
  select_get_images_only_query, validate_pagination,
}
use golang_helloworld.Database.Reads.{Server, scan_all, scan_images}

-- a == b
abbrev pub int_eq : ℤ → ℤ → Bool
int_eq (pos a) (pos b) = a == b
int_eq (pos a) (negsuc b) = false
int_eq (negsuc a) (pos b) = false
int_eq (negsuc a) (negsuc b) = a == b

-- imageTagsMap
abbrev pub TagMap : Type 0
TagMap = List (ℤ × List DatabaseTag)

-- imageTagsMap[imageID] = append(imageTagsMap[imageID], tag)
unfoldable pub append_tag : ℤ → DatabaseTag → TagMap → TagMap
append_tag id tag [] = (id, tag ∷ []) ∷ []
append_tag id tag ((k, tags) ∷ m) =
    let rest = append_tag id tag m in
    if int_eq k id then (k, tags ++ tag ∷ []) ∷ m else (k, tags) ∷ rest

-- The loop over the tag rows.
unfoldable pub tags_by_image : TagMap → List (ℤ × DatabaseTag) → TagMap
unfolding append_tag
tags_by_image m [] = m
tags_by_image m ((id, tag) ∷ rows) = tags_by_image (append_tag id tag m) rows

unfoldable pub tags_under : ℤ → TagMap → Option (List DatabaseTag)
tags_under id [] = none
tags_under id ((k, tags) ∷ m) = if int_eq k id then some tags else tags_under id m

abbrev pub with_tags_found : Option (List DatabaseTag) → DatabaseImage → DatabaseImage
with_tags_found none img = img
with_tags_found (some tags) img = record img { tags = tags }

-- The last loop.
abbrev pub assign_tags : TagMap → List DatabaseImage → List DatabaseImage
unfolding tags_under
assign_tags m [] = []
assign_tags m (img ∷ images) = with_tags_found (tags_under img.id m) img ∷ assign_tags m images

abbrev pub image_tags_query : Str
image_tags_query =
    bytes "SELECT it.image_id, t.id, t.name, t.description, t.color, t.created_at "
    ++ (bytes "FROM image_tags it INNER JOIN tags t ON it.tag_id = t.id "
        ++ bytes "WHERE it.image_id = ANY($1) ORDER BY it.image_id, t.name")

abbrev pub image_ids : List DatabaseImage → List ℤ
image_ids [] = []
image_ids (img ∷ images) = img.id ∷ image_ids images

abbrev pub joined :
    List DatabaseImage → Option (List (ℤ × DatabaseTag)) → Option (List DatabaseImage)
unfolding tags_by_image
joined images none = none
joined images (some rows) = some (assign_tags (tags_by_image [] rows) images)

module _ {W : Type 0} (db : Server W) where
  abbrev pub tag_images : Option (List DatabaseImage) × W → Option (List DatabaseImage) × W
  unfolding tags_by_image
  tag_images (none, w) = (none, w)
  tag_images (some [], w) = (some [], w)
  tag_images (some (img ∷ images), w) =
      let (rows, w1) =
        db.query_image_tags image_tags_query (ids_arg (image_ids (img ∷ images)) ∷ []) w in
      (joined (img ∷ images) (scan_all rows), w1)

  unfoldable pub get_with_tags : Pagination → SortParams → W → Option (List DatabaseImage) × W
  unfolding tags_by_image
  get_with_tags pagination sort w =
      let p = validate_pagination pagination in
      tag_images (
        scan_images db (select_get_images_only_query sort) (int_arg p.limit ∷ int_arg p.offset ∷ [])
          w)
