-- ===== src/Tests/Database.antt =====
-- internal/platform/database: a server that answers with fixed rows, and instances of the theorems.
use golang_helloworld.Prelude.{List, [], length, map, none, refl, some, suc, true, ℕ, ◌∷◌, ◌≡◌}
use golang_helloworld.Text.{Str, bytes}
use golang_helloworld.Text.Decimal.{pos, ℤ}
use golang_helloworld.Database.{
  DatabaseImage, DatabaseTag, build_simple_order_by_clause, default_pagination, default_sort,
  int_arg, validate_pagination,
}
use golang_helloworld.Database.Reads.{Server, no_rows, scan_rows}
use golang_helloworld.Database.Search.{Condition, SearchFilters, build_conditions, search_statement}
use golang_helloworld.Database.Search.Places.{
  at, meant, resolve, search_statement-meant, statement_text,
}
use golang_helloworld.Database.Tagged.{get_with_tags}
use golang_helloworld.Database.Tagged.Own.{get_with_tags-own, with_own_tags}

abbrev cat_filters : SearchFilters
cat_filters = record {
  content_types = bytes "image/png" ∷ bytes "image/gif" ∷ [];
  min_size = some (pos 10);
  max_size = none;
  start_date = none;
  end_date = none;
  filename = bytes "cat";
}

-- Two types, a size and a name stand in the places 1 to 5.
cat_places : (build_conditions cat_filters).arg_index ≡ 6
unfolding build_conditions
cat_places = refl

search_statement-meant_example :
    let (query, args) = search_statement cat_filters default_pagination default_sort in
    (conditions : List (Condition ℕ)) × (limit : ℕ) × (offset : ℕ) × (query
      ≡ statement_text conditions (build_simple_order_by_clause default_sort) limit offset)
    × (map (resolve (at args)) conditions ≡ map some (meant cat_filters))
    × (at args limit ≡ some (int_arg (validate_pagination default_pagination).limit))
    × (at args offset ≡ some (int_arg (validate_pagination default_pagination).offset))
    × (length args ≡ offset)
search_statement-meant_example = search_statement-meant cat_filters default_pagination default_sort

abbrev image_row : ℤ → DatabaseImage
image_row id = record {
  id = id;
  filename = bytes "a.png";
  original_filename = bytes "a.png";
  content_type = bytes "image/png";
  file_size = pos 5;
  storage_path = bytes "images/a.png";
  thumbnail_path = none;
  status = bytes "ready";
  processing_error = none;
  processed_at = none;
  width = none;
  height = none;
  uploaded_at = pos 1;
  metadata = [];
  created_at = pos 1;
  updated_at = pos 1;
  tags = [];
}

abbrev tag_row : Str → DatabaseTag
tag_row name = record {
  tag_id = pos 1;
  name = name;
  description = none;
  color = none;
  tag_created_at = pos 1;
}

abbrev tag_rows : List (ℤ × DatabaseTag)
tag_rows =
    (pos 1, tag_row (bytes "sea"))
    ∷ (pos 2, tag_row (bytes "sky"))
    ∷ (pos 1, tag_row (bytes "sun"))
    ∷ []

-- Two images and three rows of tags; the world counts the queries.
abbrev two_images : Server ℕ
two_images = record {
  query_images = λ q args n. (
    some (record {
      found = some (image_row (pos 1)) ∷ some (image_row (pos 2)) ∷ [];
      ends_well = true;
    }),
    suc n,
  );
  query_image = λ q args n. (no_rows, suc n);
  query_image_tags =
      λ q args n. (some (record { found = map some tag_rows; ends_well = true }), suc n);
}

get_with_tags-own_example :
    get_with_tags two_images default_pagination default_sort 0
    ≡ (some (map (with_own_tags tag_rows) (image_row (pos 1) ∷ image_row (pos 2) ∷ [])), 2)
unfolding scan_rows
get_with_tags-own_example =
    get_with_tags-own two_images default_pagination default_sort 0 1 2 (image_row (pos 1))
      (image_row (pos 2) ∷ []) (some (record { found = map some tag_rows; ends_well = true }))
      tag_rows (refl, (refl, tt)) refl refl refl
