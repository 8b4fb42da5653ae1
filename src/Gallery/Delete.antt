-- ===== src/Gallery/Delete.antt =====
-- What a deletion through internal/services/implementations/image_service.go does, in order.
use golang_helloworld.Prelude.{List, Option, [], none, some, ◌∷◌, ◌≡◌, ◌≢◌}
use golang_helloworld.Text.Decimal.{ℤ}
use golang_helloworld.Queue.Failure.{Failure, err, ok}
use golang_helloworld.Gallery.{Call, GalleryImage, Service, deleted, removed_row}

module _ {W : Type 0} (sv : Service W) where
  -- How a deletion may end, with the calls it made, and why. The object that goes is that of the
  -- image that was found under the id.
  pub data Deleted (id : ℤ) : Option Failure → List Call → Type 0 where
    not_allowed : {e e' : Failure} → sv.validate_deletion id ≡ some e' → Deleted id (some e) []
    not_found : {e e' : Failure} (w : W) → (sv.find id w).0 ≡ err e' → Deleted id (some e) []
    row_stays : {e e' : Failure} (w : W) → (sv.delete id w).0 ≡ some e' → Deleted id (some e) []
    gone :
        (img : GalleryImage) (w w' : W)
        → (sv.find id w).0 ≡ ok img
        → (sv.delete id w').0 ≡ none
        → img.storage_path ≢ []
        → Deleted id none (removed_row id ∷ deleted img.storage_path ∷ [])
    gone_without_object :
        (img : GalleryImage) (w w' : W)
        → (sv.find id w).0 ≡ ok img
        → (sv.delete id w').0 ≡ none
        → img.storage_path ≡ []
        → Deleted id none (removed_row id ∷ [])
