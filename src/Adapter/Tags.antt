-- ===== src/Adapter/Tags.antt =====
-- internal/services/implementations: tag_repository.go and tag_service.go. The two statements of the
-- repository are outside, and so is the clock; an error is kept as the step that it comes from. The
-- methods that hold a TODO answer what they answer in the source.
pub mod Again
use golang_helloworld.Prelude.{
  Bool, List, Option, [], false, inl, inr, map, none, some, ◌∷◌, ◌≡◌, ◌⊎◌,
}
use golang_helloworld.Text.{Str}
use golang_helloworld.Text.Decimal.{pos, ℤ}
use golang_helloworld.Domain.{DomainError}
use golang_helloworld.Domain.Tag.{validate_tag}
use golang_helloworld.Database.{DatabaseTag}
use golang_helloworld.Database.Reads.{Single, no_rows, row_failed, row_found}
use golang_helloworld.Adapter.Listing.{DomainTag, domain_tag}

pub data TagError : Type 0 where
  name_empty tag_nil query_failed insert_failed : TagError
  tag_refused : DomainError → TagError

-- INSERT INTO tags (name, created_at) VALUES ($1, $2) RETURNING id, where none is an error, and
-- SELECT id, name, created_at FROM tags WHERE name = $1.
pub record TagServer (W : Type 0) : Type 0 where
  pub insert_tag : Str → ℤ → W → Option ℤ × W
  pub select_tag : Str → W → Single DomainTag × W
  pub now : W → ℤ

module _ {W : Type 0} (db : TagServer W) where
  abbrev pub after_insert : DomainTag → Option ℤ × W → (TagError ⊎ DomainTag) × W
  after_insert tag (none, w) = (inl insert_failed, w)
  after_insert tag (some id, w) = (inr (record tag { tag_id = id }), w)

  abbrev pub create_tag : Option DomainTag → W → (TagError ⊎ DomainTag) × W
  create_tag none w = (inl tag_nil, w)
  create_tag (some tag) w = after_insert tag (db.insert_tag tag.name tag.tag_created_at w)

  -- A tag that is not there is no error.
  abbrev pub found_or_nil : Single DomainTag × W → (TagError ⊎ Option DomainTag) × W
  found_or_nil (row_found tag, w) = (inr (some tag), w)
  found_or_nil (no_rows, w) = (inr none, w)
  found_or_nil (row_failed, w) = (inl query_failed, w)

  abbrev pub get_by_name : Str → W → (TagError ⊎ Option DomainTag) × W
  get_by_name [] w = (inl name_empty, w)
  get_by_name (b ∷ s) w = found_or_nil (db.select_tag (b ∷ s) w)

  abbrev pub new_tag : Str → W → DomainTag
  new_tag name w = record { tag_id = pos 0; name = name; tag_created_at = db.now w }

  abbrev pub create_valid : Str → Option DomainError → W → (TagError ⊎ DomainTag) × W
  create_valid name (some e) w = (inl (tag_refused e), w)
  create_valid name none w = create_tag (some (new_tag name w)) w

  abbrev pub or_create : Str → (TagError ⊎ Option DomainTag) × W → (TagError ⊎ DomainTag) × W
  unfolding validate_tag
  or_create name (inl e, w) = (inl e, w)
  or_create name (inr (some tag), w) = (inr tag, w)
  or_create name (inr none, w) = create_valid name (validate_tag name) w

  unfoldable pub get_or_create : Str → W → (TagError ⊎ DomainTag) × W
  unfolding validate_tag
  get_or_create [] w = (inl name_empty, w)
  get_or_create (b ∷ s) w = or_create (b ∷ s) (get_by_name (b ∷ s) w)

-- GetPredefinedTags, over the rows of the database.
abbrev pub predefined_tags : Option (List DatabaseTag) → Option (List DomainTag)
predefined_tags none = none
predefined_tags (some tags) = some (map domain_tag tags)

-- The methods of the repository and of the service that are not written yet.
abbrev pub repository_get_by_id : ℤ → Option DomainTag
repository_get_by_id id = none

abbrev pub repository_list : ℤ → ℤ → List DomainTag
repository_list limit offset = []

abbrev pub repository_get_popular_tags : ℤ → List DomainTag
repository_get_popular_tags limit = []

abbrev pub exists_by_name : Str → Bool
exists_by_name name = false

abbrev pub service_create_tag : Str → Option DomainTag
service_create_tag name = none

abbrev pub service_get_tag : ℤ → Option DomainTag
service_get_tag id = repository_get_by_id id

abbrev pub service_list_tags : ℤ → ℤ → List DomainTag
service_list_tags limit offset = repository_list limit offset

-- The rows of the tags under their names, and what the statements do to them. The server keeps a
-- time less exactly than the clock gives it.
pub record TagLaws {W : Type 0} (db : TagServer W) (rows : W → Str → Option DomainTag)
    : Type 0 where
  pub select_reads :
      (name : Str) (tag : DomainTag) (w : W)
      → rows w name ≡ some tag
      → (db.select_tag name w ≡ (row_found tag, w))
  pub select_found :
      (name : Str) (tag : DomainTag) (w w' : W)
      → db.select_tag name w ≡ (row_found tag, w')
      → rows w' name ≡ some tag
  pub insert_writes :
      (name : Str) (now id : ℤ) (w w' : W)
      → db.insert_tag name now w ≡ (some id, w')
      → (tag : DomainTag) × (rows w' name ≡ some tag) × (tag.tag_id ≡ id)
