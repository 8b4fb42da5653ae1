-- ===== src/Adapter/Creation/Stored.antt =====
-- internal/services/implementations/image_repository_adapter.go: what Create leaves in the database, on
-- success and on each error.
use golang_helloworld.Prelude.{
  All, Bool, Bool-cases, List, Option, [], false, inl, inr, none, refl, some, subst, sym, true, ◌∙◌,
  ◌∷◌, ◌≡◌,
}
use golang_helloworld.Text.{Str}
use golang_helloworld.Text.Decimal.{ℤ}
use golang_helloworld.Database.{Arg}
use golang_helloworld.Database.Creation.{
  Generated, RowServer, after_insert_row, insert_args, insert_query, with_generated,
}
use golang_helloworld.Adapter.Listing.{DomainImage, DomainTag}
use golang_helloworld.Adapter.Creation.{
  Creation, after_row, attach_tags, create_stored_image, create_with, created, metadata_malformed,
  metadata_of, not_attached, row_of_image, row_refused, take_generated,
}

-- The rows with what they were inserted with, the pairs of image and tag, and what the statements
-- do to them.
pub record CreationLaws {W : Type 0} (db : RowServer W) (attach : ℤ → ℤ → W → Bool × W)
    (rows : W → ℤ → Option (List Arg)) (linked : W → ℤ → ℤ → Bool) : Type 0 where
  pub insert_writes :
      (args : List Arg) (w w' : W) (g : Generated)
      → db.insert_row insert_query args w ≡ (some g, w')
      → rows w' g.generated_id ≡ some args
  pub attach_keeps : (i t j : ℤ) (w : W) → rows (attach i t w).1 j ≡ rows w j
  pub attach_links :
      (i t : ℤ) (w : W) → (attach i t w).0 ≡ true → linked (attach i t w).1 i t ≡ true
  pub attach_adds : (i t j u : ℤ) (w : W) → linked w j u ≡ true → linked (attach i t w).1 j u ≡ true

module _ {W : Type 0} (db : RowServer W) (attach : ℤ → ℤ → W → Bool × W)
    (unmarshal : Str → Option (List (Str × Str))) (rows : W → ℤ → Option (List Arg))
    (linked : W → ℤ → ℤ → Bool) where
  -- A success has the row with the columns of the image, under the id that the image got, and all of
  -- its tags attached to it; an error with a tag comes from that tag, and has the row too; after an
  -- error with the row nothing followed the INSERT, and after one with the metadata nothing was sent.
  abbrev pub IsStored : DomainImage → W → Creation × W → Type 0
  IsStored img w (created got, w') =
      (metadata : List (Str × Str)) × (metadata_of unmarshal img.metadata ≡ some metadata)
      × (rows w' got.id ≡ some (insert_args (row_of_image img metadata)))
      × All (λ t. linked w' got.id t.tag_id ≡ true) img.tags
  IsStored img w (not_attached got t, w') =
      (metadata : List (Str × Str)) × (w1 : W) × (metadata_of unmarshal img.metadata
        ≡ some metadata)
      × (rows w' got.id ≡ some (insert_args (row_of_image img metadata)))
      × (attach got.id t.tag_id w1 ≡ (false, w'))
  IsStored img w (row_refused, w') =
      (metadata : List (Str × Str)) × (metadata_of unmarshal img.metadata ≡ some metadata)
      × (db.insert_row insert_query (insert_args (row_of_image img metadata)) w ≡ (none, w'))
  IsStored img w (metadata_malformed, w') = (metadata_of unmarshal img.metadata ≡ none) × (w' ≡ w)

  -- What the loop over the tags answers for the image `img`.
  abbrev IsAttached : DomainImage → List DomainTag → Creation × W → Type 0
  IsAttached img tags (created i, w') = (i ≡ img) × All (λ t. linked w' img.id t.tag_id ≡ true) tags
  IsAttached img tags (not_attached i t, w') =
      (i ≡ img) × (w1 : W) × (attach img.id t.tag_id w1 ≡ (false, w'))
  IsAttached img tags (metadata_malformed, w') = ⊥
  IsAttached img tags (row_refused, w') = ⊥

  IsAttached-more :
      (img : DomainImage) (t : DomainTag) (tags : List DomainTag) (answer : Creation × W)
      → linked answer.1 img.id t.tag_id ≡ true
      → IsAttached img tags answer
      → IsAttached img (t ∷ tags) answer
  IsAttached-more img t tags (created i, w') here (same, all) = (same, (here, all))
  IsAttached-more img t tags (not_attached i u, w') here h = h
  IsAttached-more img t tags (metadata_malformed, w') here h = h
  IsAttached-more img t tags (row_refused, w') here h = h

  -- From the loop, which runs with the id that was given, to Create.
  IsStored-attached :
      (img img1 : DomainImage) (metadata : List (Str × Str)) (w : W) (answer : Creation × W)
      → metadata_of unmarshal img.metadata ≡ some metadata
      → rows answer.1 img1.id ≡ some (insert_args (row_of_image img metadata))
      → IsAttached img1 img.tags answer
      → IsStored img w answer
  IsStored-attached img img1 metadata w (created i, w') reads row (same, all) =
      subst (λ (j : DomainImage). IsStored img w (created j, w')) (sym same)
        (metadata, reads, row, all)
  IsStored-attached img img1 metadata w (not_attached i t, w') reads row (same, w1, refused) =
      subst (λ (j : DomainImage). IsStored img w (not_attached j t, w')) (sym same)
        (metadata, w1, reads, row, refused)
  IsStored-attached img img1 metadata w (metadata_malformed, w') reads row h = absurd h
  IsStored-attached img img1 metadata w (row_refused, w') reads row h = absurd h

module _ {W : Type 0} (db : RowServer W) (attach : ℤ → ℤ → W → Bool × W)
    (unmarshal : Str → Option (List (Str × Str))) (rows : W → ℤ → Option (List Arg))
    (linked : W → ℤ → ℤ → Bool) (laws : CreationLaws db attach rows linked) where
  attach_tags-rows :
      (img : DomainImage) (tags : List DomainTag) (j : ℤ) (w : W)
      → rows (attach_tags attach img tags w).1 j ≡ rows w j
  unfolding attach_tags
  attach_tags-rows img [] j w = refl
  attach_tags-rows img (t ∷ tags) j w =
      let one = laws.attach_keeps img.id t.tag_id j w in
      elim (Bool-cases (attach img.id t.tag_id w).0) [
        | inl done ↦ rw done (attach_tags-rows img tags j (attach img.id t.tag_id w).1 ∙ one)
        | inr failed ↦ rw failed one
      ]

  attach_tags-adds :
      (img : DomainImage) (tags : List DomainTag) (j u : ℤ) (w : W)
      → linked w j u ≡ true
      → linked (attach_tags attach img tags w).1 j u ≡ true
  unfolding attach_tags
  attach_tags-adds img [] j u w h = h
  attach_tags-adds img (t ∷ tags) j u w h =
      let one = laws.attach_adds img.id t.tag_id j u w h in
      elim (Bool-cases (attach img.id t.tag_id w).0) [
        | inl done ↦ rw done (attach_tags-adds img tags j u (attach img.id t.tag_id w).1 one)
        | inr failed ↦ rw failed one
      ]

  attach_tags-IsAttached :
      (img : DomainImage) (tags : List DomainTag) (w : W)
      → IsAttached db attach unmarshal rows linked img tags (attach_tags attach img tags w)
  unfolding attach_tags
  attach_tags-IsAttached img [] w = (refl, tt)
  attach_tags-IsAttached img (t ∷ tags) w =
      let w1 = (attach img.id t.tag_id w).1 in
      elim (Bool-cases (attach img.id t.tag_id w).0) [
        | inl done ↦ rw done (
            IsAttached-more db attach unmarshal rows linked img t tags
              (attach_tags attach img tags w1)
              (attach_tags-adds img tags img.id t.tag_id w1
                (laws.attach_links img.id t.tag_id w done))
              (attach_tags-IsAttached img tags w1))
        | inr failed ↦ rw failed (refl, w, λ i. (failed i, (attach img.id t.tag_id w).1))
      ]

  after_row-IsStored :
      (img : DomainImage) (metadata : List (Str × Str)) (w : W) (answer : Option Generated × W)
      → metadata_of unmarshal img.metadata ≡ some metadata
      → db.insert_row insert_query (insert_args (row_of_image img metadata)) w ≡ answer
      → IsStored db attach unmarshal rows linked img w
          (after_row (some attach) img (after_insert_row db (row_of_image img metadata) answer))
  unfolding attach_tags
  after_row-IsStored img metadata w (none, w1) reads e = (metadata, reads, e)
  after_row-IsStored img metadata w (some g, w1) reads e =
      let row = row_of_image img metadata in
      let img1 = take_generated img (with_generated row g) in
      IsStored-attached db attach unmarshal rows linked img img1 metadata w
        (attach_tags attach img1 img.tags w1) reads
        (attach_tags-rows img1 img.tags g.generated_id w1
          ∙ laws.insert_writes (insert_args row) w w1 g e)
        (attach_tags-IsAttached img1 img.tags w1)

  -- Create with a tag repository: a success has left the row with the columns of the image, under the
  -- id that the image got, and has attached every tag to it; an error with a tag is that of the
  -- last thing that was asked, and has left the row there too, so that Create is not all or nothing;
  -- an error with the row is the answer of the INSERT, after which nothing was asked; and with
  -- metadata that does not read nothing was asked at all. It takes that an INSERT that is answered with
  -- an id has written its row, that attaching a tag adds the pair and touches no row, and
  -- nothing of a statement that is answered with an error.
  pub create_stored_image-IsStored :
      (img : DomainImage) (w : W)
      → IsStored db attach unmarshal rows linked img w
          (create_stored_image db unmarshal (some attach) img w)
  unfolding create_stored_image
  create_stored_image-IsStored img w = go (metadata_of unmarshal img.metadata) refl
    where
      go :
          (o : Option (List (Str × Str)))
          → metadata_of unmarshal img.metadata ≡ o
          → IsStored db attach unmarshal rows linked img w
              (create_with db unmarshal (some attach) img o w)
      go none reads = (reads, refl)
      go (some metadata) reads =
          after_row-IsStored img metadata w
            (db.insert_row insert_query (insert_args (row_of_image img metadata)) w) reads refl
