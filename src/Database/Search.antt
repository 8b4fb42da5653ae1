-- ===== src/Database/Search.antt =====
-- internal/platform/database/image_repository.go: Search builds a statement with numbered places for
-- its arguments. A condition is kept with the numbers of its places, and written out at the end. The
-- filters by tags and by albums are not fields here, since Search reads neither.
pub mod Places
use golang_helloworld.Prelude.{
  List, Option, [], length, map, none, some, suc, ℕ, ◌%◌, ◌++◌, ◌+◌, ◌∷◌,
}
use golang_helloworld.Text.{Str, bytes}
use golang_helloworld.Text.Decimal.{itoa_nat, ℤ}
use golang_helloworld.Text.Search.{join_with}
use golang_helloworld.Database.{
  Arg, DatabaseImage, Pagination, SortParams, build_simple_order_by_clause, int_arg,
  select_from_images, text_arg, time_arg, validate_pagination,
}
use golang_helloworld.Database.Reads.{Server, scan_images}

pub record SearchFilters : Type 0 where
  pub content_types : List Str
  pub min_size : Option ℤ
  pub max_size : Option ℤ
  pub start_date : Option ℤ
  pub end_date : Option ℤ
  pub filename : Str

-- A condition on what stands in its places.
pub data Condition (P : Type 0) : Type 0 where
  content_type_in : List P → Condition P
  size_at_least size_at_most date_at_least date_at_most : P → Condition P
  name_like : P → P → Condition P

abbrev pub placeholder : ℕ → Str
placeholder n = bytes "$" ++ itoa_nat n

abbrev pub condition_text : Condition ℕ → Str
condition_text (content_type_in places) =
    bytes "content_type IN (" ++ (join_with (bytes ",") (map placeholder places) ++ bytes ")")
condition_text (size_at_least n) = bytes "file_size >= " ++ placeholder n
condition_text (size_at_most n) = bytes "file_size <= " ++ placeholder n
condition_text (date_at_least n) = bytes "uploaded_at >= " ++ placeholder n
condition_text (date_at_most n) = bytes "uploaded_at <= " ++ placeholder n
condition_text (name_like n m) =
    bytes "(filename ILIKE "
    ++ (placeholder n ++ (bytes " OR original_filename ILIKE " ++ (placeholder m ++ bytes ")")))

-- "%" + filters.Filename + "%"
abbrev pub search_term : Str → Arg
search_term s = text_arg (bytes "%" ++ (s ++ bytes "%"))

-- conditions, args and argIndex
pub record Building : Type 0 where
  pub conditions : List (Condition ℕ)
  pub args : List Arg
  pub arg_index : ℕ

-- The places of the content types, from an index on.
abbrev pub places_from : ℕ → List Str → List ℕ
places_from n [] = []
places_from n (t ∷ ts) = n ∷ places_from (suc n) ts

abbrev pub add_content_types : List Str → Building → Building
add_content_types [] b = b
add_content_types (t ∷ ts) b = record {
  conditions = b.conditions ++ content_type_in (places_from b.arg_index (t ∷ ts)) ∷ [];
  args = b.args ++ map text_arg (t ∷ ts);
  arg_index = b.arg_index + length (t ∷ ts);
}

-- if filters.X != nil
abbrev pub add_bound : (ℕ → Condition ℕ) → (ℤ → Arg) → Option ℤ → Building → Building
add_bound condition arg none b = b
add_bound condition arg (some x) b = record {
  conditions = b.conditions ++ condition b.arg_index ∷ [];
  args = b.args ++ arg x ∷ [];
  arg_index = suc b.arg_index;
}

abbrev pub add_filename : Str → Building → Building
add_filename [] b = b
add_filename (c ∷ s) b = record {
  conditions = b.conditions ++ name_like b.arg_index (suc b.arg_index) ∷ [];
  args = b.args ++ search_term (c ∷ s) ∷ search_term (c ∷ s) ∷ [];
  arg_index = suc (suc b.arg_index);
}

unfoldable pub build_conditions : SearchFilters → Building
build_conditions f = add_filename f.filename (
    add_bound date_at_most time_arg f.end_date (
      add_bound date_at_least time_arg f.start_date (
        add_bound size_at_most int_arg f.max_size (
          add_bound size_at_least int_arg f.min_size (
            add_content_types f.content_types
              (record { conditions = []; args = []; arg_index = 1 }))))))

abbrev pub where_clause : List (Condition ℕ) → Str
where_clause [] = []
where_clause (c ∷ cs) = bytes "WHERE " ++ join_with (bytes " AND ") (map condition_text (c ∷ cs))

-- The statement and its arguments.
unfoldable pub search_statement : SearchFilters → Pagination → SortParams → Str × List Arg
search_statement f pagination sort =
    let p = validate_pagination pagination in
    let b = build_conditions f in
    (
      select_from_images
          ++ (where_clause b.conditions
              ++ (bytes " ORDER BY "
                  ++ (build_simple_order_by_clause sort
                      ++ (bytes " LIMIT "
                          ++ (placeholder b.arg_index
                              ++ (bytes " OFFSET " ++ placeholder (suc b.arg_index))))))),
      b.args ++ int_arg p.limit ∷ int_arg p.offset ∷ [],
    )

abbrev pub search_images :
    {W : Type 0}
    → Server W
    → SearchFilters
    → Pagination
    → SortParams
    → W
    → Option (List DatabaseImage) × W
search_images db f pagination sort w =
    let (query, args) = search_statement f pagination sort in scan_images db query args w
