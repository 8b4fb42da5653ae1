-- ===== src/Database/Tagged/Own.antt =====
-- internal/platform/database/image_repository.go: GetWithTags gives each image its own tags.
use golang_helloworld.Prelude.{
  All, Bool-cases, List, Option, [], ap, append-nil, append_assoc, arith, false, if◌then◌else◌, inl,
  inr, map, none, refl, some, subst, sym, true, ◌++◌, ◌∙◌, ◌∷◌, ◌≡◌,
}
use golang_helloworld.Text.Decimal.{negsuc, pos, ℤ}
use golang_helloworld.Database.{
  DatabaseImage, DatabaseTag, Pagination, SortParams, ids_arg, int_arg,
  select_get_images_only_query, validate_pagination,
}
use golang_helloworld.Database.Reads.{Rows, Server, scan_all, scan_images}
use golang_helloworld.Database.Tagged.{
  TagMap, append_tag, assign_tags, get_with_tags, image_ids, image_tags_query, int_eq, joined,
  tag_images, tags_by_image, tags_under, with_tags_found,
}

int_eq-true : (a b : ℤ) → int_eq a b ≡ true → a ≡ b
int_eq-true (pos a) (pos b) h = ground arith
int_eq-true (pos a) (negsuc b) h = cc
int_eq-true (negsuc a) (pos b) h = cc
int_eq-true (negsuc a) (negsuc b) h = ground arith

int_eq_refl : (a : ℤ) → int_eq a a ≡ true
int_eq_refl (pos a) = ground arith
int_eq_refl (negsuc a) = ground arith

int_eq_apart : (j k id : ℤ) → int_eq j k ≡ false → int_eq j id ≡ true → int_eq k id ≡ false
int_eq_apart j k id apart same = elim (Bool-cases (int_eq k id)) [
  | inl both ↦
      let e = int_eq-true j id same ∙ sym (int_eq-true k id both) in
      absurd (cc (apart, subst (λ l. int_eq j l ≡ true) e (int_eq_refl j)))
  | inr other ↦ other
]

-- The tags that the rows hold for an image, in their order.
abbrev pub own_tags : ℤ → List (ℤ × DatabaseTag) → List DatabaseTag
own_tags id [] = []
own_tags id ((k, tag) ∷ rows) =
    let rest = own_tags id rows in if int_eq k id then tag ∷ rest else rest

abbrev tags_or_none : Option (List DatabaseTag) → List DatabaseTag
tags_or_none none = []
tags_or_none (some tags) = tags

abbrev held : ℤ → TagMap → List DatabaseTag
unfolding tags_under
held id m = tags_or_none (tags_under id m)

abbrev if_own : ℤ → ℤ → DatabaseTag → List DatabaseTag
if_own id k tag = if int_eq k id then tag ∷ [] else []

held-append_tag :
    (id k : ℤ) (tag : DatabaseTag) (m : TagMap)
    → held id (append_tag k tag m) ≡ held id m ++ if_own id k tag
unfolding append_tag tags_under
held-append_tag id k tag [] = elim (Bool-cases (int_eq k id)) [
  | inl mine ↦ rw mine refl
  | inr other ↦ rw other refl
]
held-append_tag id k tag ((j, tags) ∷ m) = elim (Bool-cases (int_eq j k)) [
  | inl here ↦ rw here (at_key (int_eq-true j k here))
  | inr further ↦ rw further (elim (Bool-cases (int_eq j id)) [
    | inl own ↦ rw own (own_apart further own)
    | inr other ↦ rw other (held-append_tag id k tag m)
  ])
]
  where
    at_key :
        j ≡ k
        → tags_or_none (if int_eq j id then some (tags ++ tag ∷ []) else tags_under id m)
          ≡ tags_or_none (if int_eq j id then some tags else tags_under id m) ++ if_own id k tag
    at_key e = rw (← e) (elim (Bool-cases (int_eq j id)) [
      | inl mine ↦ rw mine refl
      | inr other ↦ rw other (sym (append-nil (held id m)))
    ])

    own_apart : int_eq j k ≡ false → int_eq j id ≡ true → tags ≡ tags ++ if_own id k tag
    own_apart further own = rw (int_eq_apart j k id further own) (sym (append-nil tags))

held-tags_by_image :
    (id : ℤ) (m : TagMap) (rows : List (ℤ × DatabaseTag))
    → held id (tags_by_image m rows) ≡ held id m ++ own_tags id rows
unfolding tags_by_image tags_under
held-tags_by_image id m [] = sym (append-nil (held id m))
held-tags_by_image id m ((k, tag) ∷ rows) =
    held-tags_by_image id (append_tag k tag m) rows
    ∙ ap (λ l. l ++ own_tags id rows) (held-append_tag id k tag m)
    ∙ append_assoc (held id m) (if_own id k tag) (own_tags id rows)
    ∙ ap (λ l. held id m ++ l) (one_row id k tag rows)
  where
    one_row :
        (id k : ℤ) (tag : DatabaseTag) (rows : List (ℤ × DatabaseTag))
        → if_own id k tag ++ own_tags id rows ≡ own_tags id ((k, tag) ∷ rows)
    one_row id k tag rows = elim (Bool-cases (int_eq k id)) [
      | inl mine ↦ rw mine refl
      | inr other ↦ rw other refl
    ]

abbrev pub with_own_tags : List (ℤ × DatabaseTag) → DatabaseImage → DatabaseImage
with_own_tags rows img = record img { tags = own_tags img.id rows }

with_tags_found_lem :
    (o : Option (List DatabaseTag)) (img : DatabaseImage)
    → img.tags ≡ []
    → with_tags_found o img ≡ record img { tags = tags_or_none o }
with_tags_found_lem none img fresh = λ i. record img { tags = fresh i }
with_tags_found_lem (some tags) img fresh = refl

assign_tags-own :
    (rows : List (ℤ × DatabaseTag)) (images : List DatabaseImage)
    → All (λ img. img.tags ≡ []) images
    → assign_tags (tags_by_image [] rows) images ≡ map (with_own_tags rows) images
unfolding tags_under
assign_tags-own rows [] fresh = refl
assign_tags-own rows (img ∷ images) fresh =
    let one =
      with_tags_found_lem (tags_under img.id (tags_by_image [] rows)) img fresh.0
      ∙ ap (λ l. record img { tags = l }) (held-tags_by_image img.id [] rows) in
    λ i. one i ∷ assign_tags-own rows images fresh.1 i

module _ {W : Type 0} (db : Server W) where
  -- GetWithTags gives just the images of the page, in their order, each with the tags of the rows that
  -- bear its id, in the order of these rows. It takes that the page has an image, that an image
  -- comes without tags from its row, and that both queries answer.
  pub get_with_tags-own :
      (pagination : Pagination) (sort : SortParams) (w w1 w2 : W) (img : DatabaseImage)
      (images : List DatabaseImage) (answer : Option (Rows (ℤ × DatabaseTag)))
      (rows : List (ℤ × DatabaseTag))
      → All (λ i. i.tags ≡ []) (img ∷ images)
      → scan_images db
          (select_get_images_only_query sort)
          (int_arg (validate_pagination pagination).limit
            ∷ int_arg (validate_pagination pagination).offset
            ∷ [])
          w
        ≡ (some (img ∷ images), w1)
      → db.query_image_tags image_tags_query (ids_arg (image_ids (img ∷ images)) ∷ []) w1
        ≡ (answer, w2)
      → scan_all answer ≡ some rows
      → get_with_tags db pagination sort w ≡ (some (map (with_own_tags rows) (img ∷ images)), w2)
  unfolding get_with_tags
  get_with_tags-own pagination sort w w1 w2 img images answer rows fresh page tagged scanned =
      ap (tag_images db) page
      ∙ ap (λ a. (joined (img ∷ images) (scan_all a.0), a.1)) tagged
      ∙ ap (λ r. (joined (img ∷ images) r, w2)) scanned
      ∙ ap (λ l. (some l, w2)) (assign_tags-own rows (img ∷ images) fresh)
