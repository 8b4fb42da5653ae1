-- ===== src/Adapter.antt =====
-- internal/services/implementations/image_repository_adapter.go: the repository of the domain over
-- the one of the database, as the worker uses it. The caches are outside, and their errors ignored.
pub mod Laws
pub mod Creation
pub mod Listing
pub mod Lookups
pub mod Pages
pub mod Tags
use golang_helloworld.Prelude.{Option, none, some}
use golang_helloworld.Text.{bytes}
use golang_helloworld.Text.Decimal.{ℤ}
use golang_helloworld.Queue.Failure.{Failure, Result, err, ok, other, wrap}
use golang_helloworld.Worker.Images.{Image, Repository, failed}
use golang_helloworld.Database.Writes.{Executed, Statement, complete_processing, update_status}

-- CacheInvalidator
pub record CacheInvalidator (W : Type 0) : Type 0 where
  pub invalidate_image_lists : W → W
  pub delete_image : ℤ → W → W

-- What the adapter stands on: the statements, the read of a row with the fields that the worker reads,
-- the read of the tags of an image, if a tag repository was set, and the invalidator, if one was.
pub record Parts (W : Type 0) : Type 0 where
  pub exec : Statement → W → Executed × W
  pub read : ℤ → W → Result Image × W
  pub get_image_tags : Option (ℤ → W → Option Failure × W)
  pub cache : Option (CacheInvalidator W)

module _ {W : Type 0} where
  abbrev pub invalidate_caches : Option (CacheInvalidator W) → ℤ → W → W
  invalidate_caches none id w = w
  invalidate_caches (some c) id w = c.delete_image id (c.invalidate_image_lists w)

  abbrev pub invalidate_after :
      Option (CacheInvalidator W) → ℤ → Option Failure × W → Option Failure × W
  invalidate_after cache id (some e, w) = (some e, w)
  invalidate_after cache id (none, w) = (none, invalidate_caches cache id w)

  abbrev pub after_tags : Image → Option Failure × W → Result Image × W
  after_tags img (some e, w) = (err (wrap (other (bytes "failed to load tags")) e), w)
  after_tags img (none, w) = (ok img, w)

  abbrev pub with_tags :
      Option (ℤ → W → Option Failure × W) → ℤ → Result Image × W → Result Image × W
  with_tags tags id (err e, w) = (err e, w)
  with_tags none id (ok img, w) = (ok img, w)
  with_tags (some get) id (ok img, w) = after_tags img (get id w)

  abbrev pub adapter : Parts W → Repository W
  unfolding update_status complete_processing
  adapter a = record {
    get_by_id = λ id w. with_tags a.get_image_tags id (a.read id w);
    update_status = λ id s e w. invalidate_after a.cache id (update_status a.exec id s e w);
    complete_processing = λ id r w. invalidate_after a.cache id (complete_processing a.exec id r w);
  }
