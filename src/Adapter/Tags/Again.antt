-- ===== src/Adapter/Tags/Again.antt =====
-- internal/services/implementations/tag_repository.go: a tag that was got or created is there.
use golang_helloworld.Prelude.{Option, ap, inr, none, refl, some, sym, ℕ, ◌∙◌, ◌∷◌, ◌≡◌, ◌⊎◌}
use golang_helloworld.Text.{Str}
use golang_helloworld.Text.Decimal.{ℤ}
use golang_helloworld.Domain.{DomainError}
use golang_helloworld.Domain.Tag.{validate_tag}
use golang_helloworld.Database.Reads.{Single, no_rows, row_failed, row_found}
use golang_helloworld.Adapter.Listing.{DomainTag}
use golang_helloworld.Adapter.Tags.{
  TagError, TagLaws, TagServer, after_insert, create_valid, found_or_nil, get_or_create, new_tag,
  or_create,
}

module _ {W : Type 0} (db : TagServer W) (rows : W → Str → Option DomainTag)
    (laws : TagLaws db rows) where
  HasRow : Str → (TagError ⊎ DomainTag) × W → Type 0
  HasRow name answer =
      (tag : DomainTag)
      → answer.0 ≡ inr tag
      → (row : DomainTag) × (rows answer.1 name ≡ some row) × (row.tag_id ≡ tag.tag_id)

  after_insert-HasRow :
      (name : Str) (tag : DomainTag) (now : ℤ) (w : W) (answer : Option ℤ × W)
      → db.insert_tag name now w ≡ answer
      → HasRow name (after_insert db tag answer)
  unfolding HasRow
  after_insert-HasRow name tag now w (none, w') e got h = absurd (cc h)
  after_insert-HasRow name tag now w (some id, w') e got h =
      let (row, here, same) = laws.insert_writes name now id w w' e in
      let made : record tag { tag_id = id } ≡ got = cc h in
      (row, here, same ∙ ap (λ (t : DomainTag). t.tag_id) made)

  create_valid-HasRow :
      (name : Str) (refusal : Option DomainError) (w : W)
      → HasRow name (create_valid db name refusal w)
  unfolding HasRow
  create_valid-HasRow name (some e) w got h = absurd (cc h)
  create_valid-HasRow name none w got h =
      after_insert-HasRow name (new_tag db name w) (db.now w) w (db.insert_tag name (db.now w) w)
        refl got h

  or_create-HasRow :
      (name : Str) (w : W) (answer : Single DomainTag × W)
      → db.select_tag name w ≡ answer
      → HasRow name (or_create db name (found_or_nil db answer))
  unfolding HasRow validate_tag
  or_create-HasRow name w (row_failed, w') e got h = absurd (cc h)
  or_create-HasRow name w (row_found tag, w') e got h =
      let same : tag ≡ got = cc h in
      (tag, laws.select_found name tag w w' e, ap (λ (t : DomainTag). t.tag_id) same)
  or_create-HasRow name w (no_rows, w') e got h =
      create_valid-HasRow name (validate_tag name) w' got h

  -- Once a name was got or created, to ask for it again changes nothing and gives the tag of the same
  -- id. It takes that the statements read and write the rows under their names.
  pub get_or_create-again :
      (b : ℕ) (s : Str) (w w' : W) (tag : DomainTag)
      → get_or_create db (b ∷ s) w ≡ (inr tag, w')
      → (row : DomainTag) × (get_or_create db (b ∷ s) w' ≡ (inr row, w'))
        × (row.tag_id ≡ tag.tag_id)
  unfolding get_or_create validate_tag HasRow
  get_or_create-again b s w w' tag got =
      let (row, here, same) =
        or_create-HasRow (b ∷ s) w (db.select_tag (b ∷ s) w) refl tag (ap (λ a. a.0) got) in
      let there = ap (λ a. rows a.1 (b ∷ s)) (sym got) ∙ here in
      (
        row,
        ap (λ a. or_create db (b ∷ s) (found_or_nil db a)) (laws.select_reads (b ∷ s) row w' there),
        same,
      )
