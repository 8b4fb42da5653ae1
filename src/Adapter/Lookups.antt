-- ===== src/Adapter/Lookups.antt =====
-- internal/services/implementations/image_repository_adapter.go: GetByFilename, ExistsByFilename and
-- Delete. An error that is not the missing row is kept as the answer of the lookup.
use golang_helloworld.Prelude.{
  Bool, List, Option, false, if◌then◌else◌, inl, inr, none, some, true, ◌++◌, ◌⊎◌,
}
use golang_helloworld.Text.{Str, bytes, str_eq}
use golang_helloworld.Text.Decimal.{ℤ}
use golang_helloworld.Queue.Failure.{Failure}
use golang_helloworld.Database.Reads.{
  Lookup, Server, get_by_filename, image_found, image_not_found, lookup_failed,
}
use golang_helloworld.Database.Writes.{Executed, Statement, delete_by_id}
use golang_helloworld.Adapter.Listing.{DomainImage, convert_to_base_image}

module _ {W : Type 0} (db : Server W) where
  abbrev pub found_image : (List (Str × Str) → Option Str) → Lookup × W → (Lookup ⊎ DomainImage) × W
  found_image marshal (image_found img, w) = (inr (convert_to_base_image marshal img), w)
  found_image marshal (image_not_found message, w) = (inl (image_not_found message), w)
  found_image marshal (lookup_failed, w) = (inl lookup_failed, w)

  abbrev pub get_image_by_filename :
      (List (Str × Str) → Option Str) → Str → W → (Lookup ⊎ DomainImage) × W
  get_image_by_filename marshal filename w = found_image marshal (get_by_filename db filename w)

  -- The missing row is told by the text of the error.
  abbrev pub exists_of : Str → Lookup × W → Option Bool × W
  exists_of filename (image_found img, w) = (some true, w)
  exists_of filename (image_not_found message, w) = (
    if str_eq message (bytes "image with filename " ++ (filename ++ bytes " not found"))
        then some false
        else none,
    w,
  )
  exists_of filename (lookup_failed, w) = (none, w)

  abbrev pub exists_by_filename : Str → W → Option Bool × W
  exists_by_filename filename w = exists_of filename (get_by_filename db filename w)

abbrev pub delete_image_row :
    {W : Type 0} → (Statement → W → Executed × W) → ℤ → W → Option Failure × W
unfolding delete_by_id
delete_image_row exec id w = delete_by_id exec id w
