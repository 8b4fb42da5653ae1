-- ===== src/Gallery/Update.antt =====
-- internal/services/implementations/image_service.go: UpdateImage, on a request that is not nil.
use golang_helloworld.Prelude.{List, Option, [], none, refl, some, subst, ◌∷◌, ◌≡◌}
use golang_helloworld.Text.{Str, bytes}
use golang_helloworld.Text.Decimal.{ℤ}
use golang_helloworld.Queue.Failure.{Failure, Result, domain_refusal, err, fault, ok, other, wrap}
use golang_helloworld.Domain.{DomainError, first_refusal-none}
use golang_helloworld.Domain.Request.{AreTags, validate_tags-AreTags}
use golang_helloworld.Gallery.{
  Events, GalleryImage, Service, image_checks, image_forgotten, process_tags, validate_image,
}

validate_image-AreTags : (i : GalleryImage) → validate_image i ≡ none → AreTags i.tags
unfolding validate_image
validate_image-AreTags i valid =
    let (_, (_, (_, (_, (_, (_, (_, (tags, _)))))))) =
      (first_refusal-none (image_checks i)).0 valid in
    (validate_tags-AreTags i.tags).0 tags

module _ {W : Type 0} (sv : Service W) where
  abbrev pub update_published : Option (Events W) → GalleryImage → W → W
  update_published none img w = w
  update_published (some es) img w = es.publish_updated img w

  -- handlePostUpdate
  abbrev pub after_update : ℤ → GalleryImage → W → W
  after_update id img w = update_published sv.events img (image_forgotten sv sv.caching id w)

  abbrev pub updated_row : ℤ → GalleryImage → Option Failure × W → Result GalleryImage × W
  updated_row id img (some e, w) = (err (wrap (other (bytes "update")) e), w)
  updated_row id img (none, w) = (ok img, after_update id img w)

  abbrev pub checked_update : ℤ → GalleryImage → Option DomainError → W → Result GalleryImage × W
  checked_update id img (some e) w =
      (err (wrap (other (bytes "updated image")) (fault (domain_refusal e))), w)
  checked_update id img none w = updated_row id img (sv.update_row img w)

  abbrev pub retagged : ℤ → GalleryImage → Result (List Str) × W → Result GalleryImage × W
  retagged id old (err e, w) = (err e, w)
  retagged id old (ok tags, w) =
      let img = record old { tags = tags } in checked_update id img (validate_image img) w

  abbrev pub found_for_update : ℤ → List Str → Result GalleryImage × W → Result GalleryImage × W
  found_for_update id names (err e, w) = (err (wrap (other (bytes "existing")) e), w)
  found_for_update id names (ok old, w) = retagged id old (process_tags sv names w)

  unfoldable pub update_image : ℤ → List Str → W → Result GalleryImage × W
  update_image id names w = elim (sv.validate_update id names) [
    | some e ↦ (err (wrap (other (bytes "validation")) e), w)
    | none ↦ found_for_update id names (sv.find id w)
  ]

  -- The tags are those that GetOrCreate gave for the names, in their order.
  abbrev pub AreGot : List Str → List Str → Type 0
  AreGot [] [] = Unit
  AreGot [] (tag ∷ tags) = ⊥
  AreGot (name ∷ names) [] = ⊥
  AreGot (name ∷ names) (tag ∷ tags) =
      ((w : W) × ((sv.get_or_create name w).0 ≡ ok tag)) × AreGot names tags

  process_tags-AreGot :
      (names tags : List Str) (w : W) → (process_tags sv names w).0 ≡ ok tags → AreGot names tags
  unfolding process_tags
  process_tags-AreGot [] tags w e = subst (AreGot []) (ok-inj e) tt
    where
      ok-inj : {a b : List Str} → ok a ≡ ok b → a ≡ b
      ok-inj h = cc
  process_tags-AreGot (name ∷ names) tags w e =
      go (λ ts. process_tags-AreGot names ts (sv.get_or_create name w).1)
        (sv.get_or_create name w).0 refl (process_tags sv names (sv.get_or_create name w).1).0
        (process_tags sv names (sv.get_or_create name w).1).1 refl e
    where
      ok-inj : {a b : List Str} → ok a ≡ ok b → a ≡ b
      ok-inj h = cc

      go :
          ((ts : List Str)
            → (process_tags sv names (sv.get_or_create name w).1).0 ≡ ok ts
            → AreGot names ts)
          → (found : Result Str) → (sv.get_or_create name w).0 ≡ found
          → (rest : Result (List Str)) (w2 : W)
          → (process_tags sv names (sv.get_or_create name w).1).0 ≡ rest
          → (elim found as (λ x. Result (List Str) × W) [
            | err c ↦ (err (wrap (other name) c), (sv.get_or_create name w).1)
            | ok tag ↦ elim rest as (λ x. Result (List Str) × W) [
              | err c ↦ (err c, w2)
              | ok ts ↦ (ok (tag ∷ ts), w2)
            ]
          ]).0
            ≡ ok tags
          → AreGot (name ∷ names) tags
      go all (err c) got rest w2 more h = absurd (cc h)
      go all (ok tag) got (err c) w2 more h = absurd (cc h)
      go all (ok tag) got (ok ts) w2 more h =
          subst (AreGot (name ∷ names)) (ok-inj h) ((w, got), all ts more)

  -- An update that is answered with an image was allowed; it found the image of the id and put in
  -- place of its tags those that GetOrCreate gave for the names, one for each in their order; these
  -- are good tags, and the repository was asked to write just this image and agreed.
  pub update_image-AreTags :
      (id : ℤ) (names : List Str) (w : W) (img : GalleryImage)
      → (update_image id names w).0 ≡ ok img
      → (old : GalleryImage) × ((sv.find id w).0 ≡ ok old)
        × (img ≡ record old { tags = img.tags })
        × AreGot names img.tags
        × AreTags img.tags
        × ((w' : W) × ((sv.update_row img w').0 ≡ none))
        × (sv.validate_update id names ≡ none)
  unfolding update_image
  update_image-AreTags id names w img = validated (sv.validate_update id names) refl
    where
      Good : Result GalleryImage → GalleryImage → Type 0
      Good found i =
          (old : GalleryImage) × (found ≡ ok old)
          × (i ≡ record old { tags = i.tags })
          × AreGot names i.tags
          × AreTags i.tags
          × ((w' : W) × ((sv.update_row i w').0 ≡ none))
          × (sv.validate_update id names ≡ none)

      ok-inj : {a b : GalleryImage} → ok a ≡ ok b → a ≡ b
      ok-inj e = cc

      written :
          (old : GalleryImage) (tags : List Str)
          → sv.validate_update id names ≡ none
          → AreGot names tags
          → AreTags tags
          → (w2 : W) (answer : Option Failure × W)
          → (sv.update_row (record old { tags = tags }) w2).0 ≡ answer.0
          → (updated_row id (record old { tags = tags }) answer).0 ≡ ok img
          → Good (ok old) img
      written old tags fine got good w2 (some e, w3) wrote h = absurd (cc h)
      written old tags fine got good w2 (none, w3) wrote h =
          subst (Good (ok old)) (ok-inj h) (old, refl, refl, got, good, (w2, wrote), fine)

      checked :
          (old : GalleryImage) (tags : List Str) (w2 : W) (refusal : Option DomainError)
          → sv.validate_update id names ≡ none
          → AreGot names tags
          → (refusal ≡ none → AreTags tags)
          → (checked_update id (record old { tags = tags }) refusal w2).0 ≡ ok img
          → Good (ok old) img
      checked old tags w2 (some e) fine got good h = absurd (cc h)
      checked old tags w2 none fine got good h =
          written old tags fine got (good refl) w2 (sv.update_row (record old { tags = tags }) w2)
            refl h

      tagged_ :
          (old : GalleryImage) (answer : Result (List Str) × W)
          → sv.validate_update id names ≡ none
          → ((tags : List Str) → answer.0 ≡ ok tags → AreGot names tags)
          → (retagged id old answer).0 ≡ ok img
          → Good (ok old) img
      tagged_ old (err e, w2) fine got h = absurd (cc h)
      tagged_ old (ok tags, w2) fine got h =
          checked old tags w2 (validate_image (record old { tags = tags })) fine (got tags refl)
            (validate_image-AreTags (record old { tags = tags })) h

      found :
          (answer : Result GalleryImage × W)
          → sv.validate_update id names ≡ none
          → (found_for_update id names answer).0 ≡ ok img
          → Good answer.0 img
      found (err e, w1) fine h = absurd (cc h)
      found (ok old, w1) fine h =
          tagged_ old (process_tags sv names w1) fine (λ tags. process_tags-AreGot names tags w1) h

      validated :
          (refusal : Option Failure)
          → sv.validate_update id names ≡ refusal
          → (elim refusal as (λ x. Result GalleryImage × W) [
            | some e ↦ (err (wrap (other (bytes "validation")) e), w)
            | none ↦ found_for_update id names (sv.find id w)
          ]).0
            ≡ ok img
          → Good (sv.find id w).0 img
      validated (some e) fine h = absurd (cc h)
      validated none fine h = found (sv.find id w) fine h
