-- ===== src/Tests/Creation.antt =====
-- internal/services/implementations/image_repository_adapter.go: Create over a table with one place, and
-- an instance of its theorem.
use golang_helloworld.Prelude.{
  Bool, List, Option, [], ap, false, none, refl, some, subst, suc, true, zero, ◌∷◌, ◌≡◌,
}
use golang_helloworld.Text.{bytes}
use golang_helloworld.Text.Decimal.{negsuc, pos, ℤ}
use golang_helloworld.Database.{Arg}
use golang_helloworld.Database.Creation.{
  Generated, RowServer, insert_args, insert_query, with_generated,
}
use golang_helloworld.Adapter.Listing.{DomainImage}
use golang_helloworld.Adapter.Creation.{
  attach_tags, create_stored_image, not_attached, row_of_image, take_generated,
}
use golang_helloworld.Adapter.Creation.Stored.{CreationLaws, IsStored, create_stored_image-IsStored}

-- The row of image 1, and whether its tag is attached.
abbrev Place : Type 0
Place = Option (List Arg) × Bool

abbrev place_rows : Place → ℤ → Option (List Arg)
place_rows w (pos (suc zero)) = w.0
place_rows w _ = none

abbrev place_linked : Place → ℤ → ℤ → Bool
place_linked w i t = w.1

abbrev first_generated : Generated
first_generated = record {
  generated_id = pos 1;
  generated_uploaded_at = pos 7;
  generated_created_at = pos 7;
  generated_updated_at = pos 7;
}

abbrev place_server : RowServer Place
place_server = record {
  insert_row = λ q args w. (some first_generated, (some args, w.1));
  update_row = λ q args w. (some (pos 8), w);
}

abbrev attach_place : ℤ → ℤ → Place → Bool × Place
attach_place i t w = (true, (w.0, true))

place-CreationLaws : CreationLaws place_server attach_place place_rows place_linked
place-CreationLaws = record {
  insert_writes = written;
  attach_keeps = kept;
  attach_links = λ i t w e. refl;
  attach_adds = λ i t j u w e. refl;
}
  where
    kept : (i t j : ℤ) (w : Place) → place_rows (attach_place i t w).1 j ≡ place_rows w j
    kept i t (pos zero) w = refl
    kept i t (pos (suc zero)) w = refl
    kept i t (pos (suc (suc n))) w = refl
    kept i t (negsuc n) w = refl

    written :
        (args : List Arg) (w w' : Place) (g : Generated)
        → place_server.insert_row insert_query args w ≡ (some g, w')
        → place_rows w' g.generated_id ≡ some args
    written args w w' g e =
        let same : first_generated ≡ g = cc (ap (λ a. a.0) e) in
        let here : place_rows (some args, w.1) (pos 1) ≡ some args = refl in
        let moved : place_rows w' (pos 1) ≡ some args =
          subst (λ v. place_rows v (pos 1) ≡ some args) (ap (λ a. a.1) e) here in
        subst (λ (h : Generated). place_rows w' h.generated_id ≡ some args) same moved

abbrev new_image : DomainImage
new_image = record {
  id = pos 0;
  filename = bytes "a.png";
  original_filename = bytes "a.png";
  content_type = bytes "image/png";
  file_size = pos 5;
  storage_path = bytes "images/a.png";
  thumbnail_path = none;
  status = [];
  processing_error = none;
  processed_at = none;
  width = none;
  height = none;
  uploaded_at = pos 1;
  created_at = pos 1;
  updated_at = pos 1;
  metadata = none;
  tags = record { tag_id = pos 5; name = bytes "sea"; tag_created_at = pos 1 } ∷ [];
}

create_stored_image-IsStored_example :
    IsStored place_server attach_place
      (λ s. none)
      place_rows
      place_linked
      new_image
      (none, false)
      (create_stored_image place_server (λ s. none) (some attach_place) new_image (none, false))
create_stored_image-IsStored_example =
    create_stored_image-IsStored place_server attach_place (λ s. none) place_rows place_linked
      place-CreationLaws new_image (none, false)

-- A tag that is not attached leaves the row of the image.
row_stays :
    create_stored_image place_server
      (λ s. none)
      (some (λ i t w. (false, w)))
      new_image
      (none, false)
    ≡ (
      not_attached
          (take_generated new_image (with_generated (row_of_image new_image []) first_generated))
          (record { tag_id = pos 5; name = bytes "sea"; tag_created_at = pos 1 }),
      (some (insert_args (row_of_image new_image [])), false),
    )
unfolding create_stored_image attach_tags
row_stays = refl
