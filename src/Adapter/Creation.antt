-- ===== src/Adapter/Creation.antt =====
-- internal/services/implementations/image_repository_adapter.go: Create and Update. json.Unmarshal is
-- outside, and so is the statement that attaches a tag; an error is kept as the step that it comes from.
pub mod Stored
use golang_helloworld.Prelude.{Bool, List, Option, [], if◌then◌else◌, none, some, ◌∷◌}
use golang_helloworld.Text.{Str}
use golang_helloworld.Text.Decimal.{pos, ℤ}
use golang_helloworld.Database.{DatabaseImage}
use golang_helloworld.Database.Creation.{RowServer, create_row, update_whole_row}
use golang_helloworld.Adapter.Listing.{DomainImage, DomainTag}

-- What Create answers; an image whose tags are not all attached has its new id already.
pub data Creation : Type 0 where
  created : DomainImage → Creation
  metadata_malformed row_refused : Creation
  not_attached : DomainImage → DomainTag → Creation

-- The metadata is read into an empty map.
abbrev pub metadata_of : (Str → Option (List (Str × Str))) → Option Str → Option (List (Str × Str))
metadata_of unmarshal none = some []
metadata_of unmarshal (some s) = unmarshal s

abbrev pub row_of_image : DomainImage → List (Str × Str) → DatabaseImage
row_of_image img metadata = record {
  id = pos 0;
  filename = img.filename;
  original_filename = img.original_filename;
  content_type = img.content_type;
  file_size = img.file_size;
  storage_path = img.storage_path;
  thumbnail_path = img.thumbnail_path;
  status = img.status;
  processing_error = img.processing_error;
  processed_at = img.processed_at;
  width = img.width;
  height = img.height;
  uploaded_at = img.uploaded_at;
  metadata = metadata;
  created_at = pos 0;
  updated_at = pos 0;
  tags = [];
}

abbrev pub take_generated : DomainImage → DatabaseImage → DomainImage
take_generated img row = record img {
  id = row.id;
  created_at = row.created_at;
  updated_at = row.updated_at;
  uploaded_at = row.uploaded_at;
}

module _ {W : Type 0} where
  -- The loop over the tags of the image.
  unfoldable pub attach_tags :
      (ℤ → ℤ → W → Bool × W) → DomainImage → List DomainTag → W → Creation × W
  attach_tags attach img [] w = (created img, w)
  attach_tags attach img (t ∷ tags) w =
      let answer = attach img.id t.tag_id w in
      let rest = attach_tags attach img tags answer.1 in
      if answer.0 then rest else (not_attached img t, answer.1)

  abbrev pub attach_if : Option (ℤ → ℤ → W → Bool × W) → DomainImage → W → Creation × W
  unfolding attach_tags
  attach_if none img w = (created img, w)
  attach_if (some attach) img w = attach_tags attach img img.tags w

  abbrev pub after_row :
      Option (ℤ → ℤ → W → Bool × W) → DomainImage → Option DatabaseImage × W → Creation × W
  unfolding attach_tags
  after_row attach img (none, w) = (row_refused, w)
  after_row attach img (some row, w) = attach_if attach (take_generated img row) w

  module _ (db : RowServer W) (unmarshal : Str → Option (List (Str × Str))) where
    abbrev pub create_with :
        Option (ℤ → ℤ → W → Bool × W) → DomainImage → Option (List (Str × Str)) → W → Creation × W
    unfolding attach_tags
    create_with attach img none w = (metadata_malformed, w)
    create_with attach img (some metadata) w =
        after_row attach img (create_row db (row_of_image img metadata) w)

    -- Create, with the tag repository if one was set.
    unfoldable pub create_stored_image :
        Option (ℤ → ℤ → W → Bool × W) → DomainImage → W → Creation × W
    unfolding attach_tags
    create_stored_image attach img w = create_with attach img (metadata_of unmarshal img.metadata) w

    abbrev pub take_update : DomainImage → Option DatabaseImage × W → Option DomainImage × W
    take_update img (none, w) = (none, w)
    take_update img (some row, w) = (some (record img { updated_at = row.updated_at }), w)

    abbrev pub update_with : DomainImage → Option (List (Str × Str)) → W → Option DomainImage × W
    update_with img none w = (none, w)
    update_with img (some metadata) w = take_update img (
        update_whole_row db
          (record (row_of_image img metadata) { id = img.id; uploaded_at = pos 0 }) w)

    -- Update, where none is an error.
    unfoldable pub update_stored_image : DomainImage → W → Option DomainImage × W
    update_stored_image img w = update_with img (metadata_of unmarshal img.metadata) w
