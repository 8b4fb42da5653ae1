-- ===== src/Database/Reads.antt =====
-- internal/platform/database/image_repository.go: the queries for images. The server is outside, in
-- `W`, and a statement is its text and its arguments.
use golang_helloworld.Prelude.{
  Bool, List, Option, [], false, if◌then◌else◌, length, none, some, true, ◌++◌, ◌||◌, ◌∷◌,
}
use golang_helloworld.Text.{Str, bytes}
use golang_helloworld.Text.Decimal.{itoa, pos, ℤ}
use golang_helloworld.Domain.{above, below}
use golang_helloworld.Database.{
  Arg, DatabaseImage, DatabaseTag, Pagination, SortParams, build_simple_order_by_clause, int_arg,
  select_distinct_images, select_from_images, text_arg, texts_arg, time_arg, validate_pagination,
}

-- What a query answers: its rows, where none is a row that does not scan, and whether the reading
-- ends without an error.
pub record Rows (R : Type 0) : Type 0 where
  pub found : List (Option R)
  pub ends_well : Bool

module _ {R : Type 0} where
  abbrev pub onto_scanned : R → Option (List R) → Option (List R)
  onto_scanned r none = none
  onto_scanned r (some rs) = some (r ∷ rs)

  -- The loop over rows.Next().
  unfoldable pub scan_rows : List (Option R) → Option (List R)
  scan_rows [] = some []
  scan_rows (none ∷ rows) = none
  scan_rows (some r ∷ rows) = onto_scanned r (scan_rows rows)

  -- The rows, and rows.Err().
  abbrev pub scan_all : Option (Rows R) → Option (List R)
  unfolding scan_rows
  scan_all none = none
  scan_all (some rows) = if rows.ends_well then scan_rows rows.found else none

-- What QueryRowContext and Scan answer.
pub data Single (R : Type 0) : Type 0 where
  row_found : R → Single R
  no_rows : Single R
  row_failed : Single R

-- A server: the queries for images and for tags under images, and the queries for one row.
pub record Server (W : Type 0) : Type 0 where
  pub query_images : Str → List Arg → W → Option (Rows DatabaseImage) × W
  pub query_image : Str → List Arg → W → Single DatabaseImage × W
  pub query_image_tags : Str → List Arg → W → Option (Rows (ℤ × DatabaseTag)) × W

-- The answer of a lookup: an image, the error that names what was not found, or another error.
pub data Lookup : Type 0 where
  image_found : DatabaseImage → Lookup
  image_not_found : Str → Lookup
  lookup_failed : Lookup

abbrev pub recent_limit : ℤ → ℤ
recent_limit limit = if below limit 1 || above limit 1000 then pos 50 else limit

-- The statement of GetByTags, for all of the tags or for any.
abbrev pub by_tags_query : Bool → Str
by_tags_query true =
    select_distinct_images
    ++ (bytes "WHERE EXISTS ( SELECT 1 FROM image_tags it INNER JOIN tags t ON it.tag_id = t.id "
        ++ (bytes "WHERE it.image_id = i.id AND t.name = ANY($1::text[]) GROUP BY it.image_id "
            ++ (bytes "HAVING COUNT(DISTINCT t.name) = $4 ) ORDER BY i.uploaded_at DESC "
                ++ bytes "LIMIT $2 OFFSET $3")))
by_tags_query false =
    select_distinct_images
    ++ (bytes
          "INNER JOIN image_tags it ON i.id = it.image_id INNER JOIN tags t ON it.tag_id = t.id "
        ++ (bytes "WHERE t.name = ANY($1::text[]) ORDER BY i.uploaded_at DESC "
            ++ bytes "LIMIT $2 OFFSET $3"))

abbrev pub by_tags_args : List Str → Bool → Pagination → List Arg
by_tags_args tags match_all p =
    texts_arg tags
    ∷ int_arg p.limit
    ∷ int_arg p.offset
    ∷ (if match_all then int_arg (pos (length tags)) ∷ [] else [])

module _ {W : Type 0} (db : Server W) where
  -- imageRepository.scanImages
  abbrev pub scan_images : Str → List Arg → W → Option (List DatabaseImage) × W
  scan_images query args w = let (rows, w1) = db.query_images query args w in (scan_all rows, w1)

  abbrev pub after_single : Str → Single DatabaseImage × W → Lookup × W
  after_single message (row_found img, w) = (image_found img, w)
  after_single message (no_rows, w) = (image_not_found message, w)
  after_single message (row_failed, w) = (lookup_failed, w)

  abbrev pub scan_single_image : Str → Str → List Arg → W → Lookup × W
  scan_single_image query message args w = after_single message (db.query_image query args w)

  abbrev pub get_by_id : ℤ → W → Lookup × W
  get_by_id id w =
      scan_single_image (select_from_images ++ bytes "WHERE id = $1")
        (bytes "image with ID " ++ (itoa id ++ bytes " not found")) (int_arg id ∷ []) w

  abbrev pub get_by_filename : Str → W → Lookup × W
  get_by_filename filename w =
      scan_single_image (select_from_images ++ bytes "WHERE filename = $1")
        (bytes "image with filename " ++ (filename ++ bytes " not found")) (text_arg filename ∷ [])
        w

  abbrev pub get_by_storage_path : Str → W → Lookup × W
  get_by_storage_path path w =
      scan_single_image (select_from_images ++ bytes "WHERE storage_path = $1")
        (bytes "image with storage path " ++ (path ++ bytes " not found")) (text_arg path ∷ []) w

  abbrev pub list : Pagination → SortParams → W → Option (List DatabaseImage) × W
  list pagination sort w =
      let p = validate_pagination pagination in
      scan_images
        (select_from_images
          ++ (bytes "ORDER BY "
              ++ (build_simple_order_by_clause sort ++ bytes " LIMIT $1 OFFSET $2")))
        (int_arg p.limit ∷ int_arg p.offset ∷ []) w

  abbrev pub list_by_content_type : Str → Pagination → W → Option (List DatabaseImage) × W
  list_by_content_type content_type pagination w =
      let p = validate_pagination pagination in
      scan_images
        (select_from_images
          ++ bytes "WHERE content_type = $1 ORDER BY uploaded_at DESC LIMIT $2 OFFSET $3")
        (text_arg content_type ∷ int_arg p.limit ∷ int_arg p.offset ∷ []) w

  abbrev pub get_by_date_range : ℤ → ℤ → Pagination → W → Option (List DatabaseImage) × W
  get_by_date_range start end_date pagination w =
      let p = validate_pagination pagination in
      scan_images
        (select_from_images
          ++ (bytes "WHERE uploaded_at >= $1 AND uploaded_at <= $2 "
              ++ bytes "ORDER BY uploaded_at DESC LIMIT $3 OFFSET $4"))
        (time_arg start ∷ time_arg end_date ∷ int_arg p.limit ∷ int_arg p.offset ∷ []) w

  abbrev pub get_recent : ℤ → ℤ → W → Option (List DatabaseImage) × W
  get_recent since limit w =
      scan_images
        (select_from_images ++ bytes "WHERE uploaded_at >= $1 ORDER BY uploaded_at DESC LIMIT $2")
        (time_arg since ∷ int_arg (recent_limit limit) ∷ []) w

  abbrev pub get_largest : Pagination → W → Option (List DatabaseImage) × W
  get_largest pagination w =
      let p = validate_pagination pagination in
      scan_images (select_from_images ++ bytes "ORDER BY file_size DESC LIMIT $1 OFFSET $2")
        (int_arg p.limit ∷ int_arg p.offset ∷ []) w

  abbrev pub get_by_tags : List Str → Bool → Pagination → W → Option (List DatabaseImage) × W
  get_by_tags [] match_all pagination w = (some [], w)
  get_by_tags (t ∷ ts) match_all pagination w =
      scan_images (by_tags_query match_all)
        (by_tags_args (t ∷ ts) match_all (validate_pagination pagination)) w
