-- ===== src/Database/Creation.antt =====
-- internal/platform/database/image_repository.go: Create and Update, which send a whole row and scan
-- what the server makes of it. The columns that a statement does not name are not sent.
use golang_helloworld.Prelude.{List, Option, [], none, some, ◌++◌, ◌∷◌}
use golang_helloworld.Text.{Str, bytes}
use golang_helloworld.Text.Decimal.{ℤ}
use golang_helloworld.Database.{
  Arg, DatabaseImage, int_arg, json_arg, null_int_arg, null_text_arg, status_or_pending, text_arg,
}

-- RETURNING id, uploaded_at, created_at, updated_at
pub record Generated : Type 0 where
  pub generated_id : ℤ
  pub generated_uploaded_at : ℤ
  pub generated_created_at : ℤ
  pub generated_updated_at : ℤ

-- QueryRowContext and Scan of the two statements, where none is an error.
pub record RowServer (W : Type 0) : Type 0 where
  pub insert_row : Str → List Arg → W → Option Generated × W
  pub update_row : Str → List Arg → W → Option ℤ × W

abbrev pub insert_query : Str
insert_query =
    bytes
      "INSERT INTO images ( filename, original_filename, content_type, file_size, storage_path, "
    ++ (bytes "thumbnail_path, width, height, metadata, status ) "
        ++ (bytes "VALUES ($1, $2, $3, $4, $5, $6, $7, $8, $9, $10) "
            ++ bytes "RETURNING id, uploaded_at, created_at, updated_at"))

abbrev pub update_query : Str
update_query =
    bytes "UPDATE images SET filename = $2, original_filename = $3, content_type = $4, "
    ++ (bytes "file_size = $5, storage_path = $6, thumbnail_path = $7, width = $8, height = $9, "
        ++ bytes "metadata = $10, updated_at = NOW() WHERE id = $1 RETURNING updated_at")

-- The arguments that both statements send.
abbrev pub column_args : DatabaseImage → List Arg
column_args img =
    text_arg img.filename
    ∷ text_arg img.original_filename
    ∷ text_arg img.content_type
    ∷ int_arg img.file_size
    ∷ text_arg img.storage_path
    ∷ null_text_arg img.thumbnail_path
    ∷ null_int_arg img.width
    ∷ null_int_arg img.height
    ∷ json_arg img.metadata
    ∷ []

abbrev pub insert_args : DatabaseImage → List Arg
insert_args img = column_args img ++ text_arg (status_or_pending img.status) ∷ []

abbrev pub with_generated : DatabaseImage → Generated → DatabaseImage
with_generated img g = record img {
  id = g.generated_id;
  uploaded_at = g.generated_uploaded_at;
  created_at = g.generated_created_at;
  updated_at = g.generated_updated_at;
}

module _ {W : Type 0} (db : RowServer W) where
  abbrev pub after_insert_row : DatabaseImage → Option Generated × W → Option DatabaseImage × W
  after_insert_row img (none, w) = (none, w)
  after_insert_row img (some g, w) = (some (with_generated img g), w)

  abbrev pub create_row : DatabaseImage → W → Option DatabaseImage × W
  create_row img w = after_insert_row img (db.insert_row insert_query (insert_args img) w)

  abbrev pub after_update_row : DatabaseImage → Option ℤ × W → Option DatabaseImage × W
  after_update_row img (none, w) = (none, w)
  after_update_row img (some t, w) = (some (record img { updated_at = t }), w)

  abbrev pub update_whole_row : DatabaseImage → W → Option DatabaseImage × W
  update_whole_row img w =
      after_update_row img (db.update_row update_query (int_arg img.id ∷ column_args img) w)
