-- ===== src/Database.antt =====
-- internal/platform/database: models.go (records, paging and sorting) and the statements of
-- image_repository.go that are built from a sorting. A time is a number, an entry of the
-- metadata a key with the text of its JSON value, and an error is kept without its text.
pub mod Reads
pub mod Ordering
pub mod Search
pub mod Tagged
pub mod Writes
pub mod Creation
use golang_helloworld.Prelude.{List, Option, [], if◌then◌else◌, ◌++◌, ◌||◌}
use golang_helloworld.Text.{Str, bytes, str_eq}
use golang_helloworld.Text.Decimal.{pos, ℤ}
use golang_helloworld.Domain.{above, below}

pub record DatabaseTag : Type 0 where
  pub tag_id : ℤ
  pub name : Str
  pub description : Option Str
  pub color : Option Str
  pub tag_created_at : ℤ

pub record DatabaseImage : Type 0 where
  pub id : ℤ
  pub filename : Str
  pub original_filename : Str
  pub content_type : Str
  pub file_size : ℤ
  pub storage_path : Str
  pub thumbnail_path : Option Str
  pub status : Str
  pub processing_error : Option Str
  pub processed_at : Option ℤ
  pub width : Option ℤ
  pub height : Option ℤ
  pub uploaded_at : ℤ
  pub metadata : List (Str × Str)
  pub created_at : ℤ
  pub updated_at : ℤ
  pub tags : List DatabaseTag

-- PaginationParams
pub record Pagination : Type 0 where
  pub offset : ℤ
  pub limit : ℤ

abbrev pub default_pagination : Pagination
default_pagination = record { offset = pos 0; limit = pos 50 }

-- PaginationParams.Validate
unfoldable pub validate_pagination : Pagination → Pagination
validate_pagination p = record {
  offset = if below p.offset 0 then pos 0 else p.offset;
  limit = if below p.limit 1 || above p.limit 50 then pos 50 else p.limit;
}

pub record SortParams : Type 0 where
  pub field : Str
  pub order : Str

abbrev pub default_sort : SortParams
default_sort = record { field = bytes "uploaded_at"; order = bytes "DESC" }

-- statusOrPending
abbrev pub status_or_pending : Str → Str
status_or_pending s = if str_eq s [] then bytes "pending" else s

-- The whitelists of buildSimpleOrderByClause.
abbrev pub sort_field : Str → Str
sort_field f =
    if str_eq f (bytes "uploaded_at")
    then bytes "uploaded_at"
    else if str_eq f (bytes "filename")
    then bytes "filename"
    else if str_eq f (bytes "file_size")
    then bytes "file_size"
    else if str_eq f (bytes "created_at")
    then bytes "created_at"
    else bytes "uploaded_at"

abbrev pub sort_order : Str → Str
sort_order o =
    if str_eq o (bytes "ASC")
    then bytes "ASC"
    else if str_eq o (bytes "DESC")
    then bytes "DESC"
    else bytes "DESC"

unfoldable pub build_simple_order_by_clause : SortParams → Str
build_simple_order_by_clause s = sort_field s.field ++ (bytes " " ++ sort_order s.order)

-- The statements, with each run of white space as one space.
abbrev pub select_from_images : Str
select_from_images =
    bytes "SELECT id, filename, original_filename, content_type, file_size, storage_path, "
    ++ (bytes "thumbnail_path, status, processing_error, processed_at, width, height, "
        ++ bytes "uploaded_at, metadata, created_at, updated_at FROM images ")

abbrev pub select_distinct_images : Str
select_distinct_images =
    bytes "SELECT DISTINCT i.id, i.filename, i.original_filename, i.content_type, i.file_size, "
    ++ (bytes "i.storage_path, i.thumbnail_path, i.status, i.processing_error, i.processed_at, "
        ++ (bytes "i.width, i.height, i.uploaded_at, i.metadata, i.created_at, i.updated_at "
            ++ bytes "FROM images i "))

-- getImagesOnlyQuery…, by what they order by.
abbrev pub images_only_query : Str → Str
images_only_query order =
    select_from_images ++ (bytes "ORDER BY " ++ (order ++ bytes " LIMIT $1 OFFSET $2"))

-- One case of the switch.
abbrev pub by_order : Str → Str → Str
by_order field order =
    if str_eq order (bytes "ASC")
    then images_only_query (field ++ bytes " ASC")
    else images_only_query (field ++ bytes " DESC")

unfoldable pub select_get_images_only_query : SortParams → Str
select_get_images_only_query s =
    if str_eq s.field (bytes "uploaded_at")
    then by_order (bytes "uploaded_at") s.order
    else if str_eq s.field (bytes "filename")
    then by_order (bytes "filename") s.order
    else if str_eq s.field (bytes "file_size")
    then by_order (bytes "file_size") s.order
    else if str_eq s.field (bytes "created_at")
    then by_order (bytes "created_at") s.order
    else images_only_query (bytes "uploaded_at DESC")

pub data Arg : Type 0 where
  text_arg : Str → Arg
  int_arg : ℤ → Arg
  time_arg : ℤ → Arg
  texts_arg : List Str → Arg
  ids_arg : List ℤ → Arg
  null_text_arg : Option Str → Arg
  null_int_arg : Option ℤ → Arg
  json_arg : List (Str × Str) → Arg
