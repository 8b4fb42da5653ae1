-- ===== src/Domain/Request.antt =====
-- internal/domain/image/models.go: CreateImageRequest.Validate and Image.Validate. What depends on
-- the Unicode tables (strings.ToLower, strings.TrimSpace) and on encoding/json is a parameter.
use mathlib.Core.Bool.{false≢true}
use golang_helloworld.Prelude.{
  All, All-imp, Bool, Bool-cases, List, Option, [], arith, false, inl, inr, length, ltb, map, none,
  not, refl, sym, true, ◌||◌, ◌↔◌, ◌∙◌, ◌∷◌, ◌≡◌, ◌≢◌, ◌≤◌,
}
use golang_helloworld.Text.{Str, str_eq, str_eq_iff}
use golang_helloworld.Text.Decimal.{ℤ}
use golang_helloworld.Domain.{
  DomainError, IsFileSize, IsFilename, IsSide, check_content_type, check_content_type-supported,
  check_file_size, check_file_size-IsFileSize, check_filename, check_filename-IsFilename,
  check_side, check_side-IsSide, duplicate_tag, first_refusal, first_refusal-none,
  invalid_image_data, invalid_tag_name, max_tag_name_len, max_tags_per_image, refuse_if,
  refuse_if-none, supported,
}
use golang_helloworld.Domain.Tag.{IsTagName, validate_tag, validate_tag-IsTagName}

pub record CreateImageRequest : Type 0 where
  pub original_filename : Str
  pub content_type : Str
  pub file_size : ℤ
  pub width : Option ℤ
  pub height : Option ℤ
  pub metadata : Str
  pub tags : List Str

-- seen[name]
abbrev pub seen_in : Str → List Str → Bool
seen_in name [] = false
seen_in name (s ∷ seen) = str_eq name s || seen_in name seen

-- Each name is checked, and then has to be new.
abbrev pub check_distinct : (Str → Option DomainError) → List Str → List Str → Option DomainError
check_distinct check seen [] = none
check_distinct check seen (name ∷ names) =
    let rest = check_distinct check (name ∷ seen) names in
    first_refusal (check name ∷ refuse_if (seen_in name seen) duplicate_tag ∷ rest ∷ [])

abbrev pub check_length : Str → Option DomainError
check_length name =
    refuse_if (ltb (length name) 1 || ltb max_tag_name_len (length name)) invalid_tag_name

-- validateTags of an Image, on the names of its tags.
unfoldable pub validate_tags : List Str → Option DomainError
validate_tags names = first_refusal (
    refuse_if (ltb max_tags_per_image (length names)) invalid_tag_name
    ∷ check_distinct validate_tag [] names
    ∷ [])

module _ (to_lower trim_space : Str → Str) where
  abbrev pub normalized : Str → Str
  normalized name = trim_space (to_lower name)

module _ (to_lower trim_space : Str → Str) (is_json : Str → Bool) where
  unfoldable pub validate_request_tags : List Str → Option DomainError
  validate_request_tags names = first_refusal (
      refuse_if (ltb max_tags_per_image (length names)) invalid_tag_name
      ∷ check_distinct check_length [] (map (normalized to_lower trim_space) names)
      ∷ [])

  abbrev pub validate_metadata : Str → Option DomainError
  validate_metadata [] = none
  validate_metadata (b ∷ s) = refuse_if (not (is_json (b ∷ s))) invalid_image_data

  abbrev pub request_checks : CreateImageRequest → List (Option DomainError)
  request_checks r =
      check_filename r.original_filename
      ∷ check_content_type r.content_type
      ∷ check_file_size r.file_size
      ∷ check_side r.width
      ∷ check_side r.height
      ∷ validate_request_tags r.tags
      ∷ validate_metadata r.metadata
      ∷ []

  unfoldable pub validate_request : CreateImageRequest → Option DomainError
  validate_request r = first_refusal (request_checks r)

-- No two of the names are the same.
abbrev pub Distinct : List Str → Type 0
Distinct [] = Unit
Distinct (n ∷ ns) = All (λ m. m ≢ n) ns × Distinct ns

-- None of the names is among those seen.
abbrev New : List Str → List Str → Type 0
New seen names = All (λ m. seen_in m seen ≡ false) names

or_false : (a b : Bool) → ((a || b) ≡ false) ↔ ((a ≡ false) × (b ≡ false))
or_false true b = (λ h. absurd (cc h), λ h. absurd (cc (h.0)))
or_false false b = (λ h. (refl, h), λ h. h.1)

str_eq-false : (m n : Str) → (str_eq m n ≡ false) ↔ (m ≢ n)
str_eq-false m n = (
  λ h e. false≢true (sym h ∙ (str_eq_iff m n).1 e),
  λ h. elim (Bool-cases (str_eq m n)) [
    | inl same ↦ absurd (h ((str_eq_iff m n).0 same))
    | inr differ ↦ differ
  ],
)

New-cons : (n : Str) (seen ns : List Str) → New (n ∷ seen) ns ↔ (All (λ m. m ≢ n) ns × New seen ns)
New-cons n seen [] = (λ h. (tt, tt), λ h. tt)
New-cons n seen (m ∷ ns) =
    let (ahead, back) = New-cons n seen ns in
    let apart = str_eq-false m n in
    let split = or_false (str_eq m n) (seen_in m seen) in
    (
      λ h.
          let (others, fresh) = ahead h.1 in
          let (mine, unseen) = split.0 h.0 in ((apart.0 mine, others), (unseen, fresh)),
      λ h. (split.1 (apart.1 h.0.0, h.1.0), back (h.0.1, h.1.1)),
    )

check_distinct-Distinct :
    (check : Str → Option DomainError) (seen names : List Str)
    → (check_distinct check seen names ≡ none)
      ↔ (All (λ n. check n ≡ none) names × (New seen names × Distinct names))
check_distinct-Distinct check seen [] = (λ h. (tt, (tt, tt)), λ h. refl)
check_distinct-Distinct check seen (n ∷ ns) =
    let (ahead, back) = check_distinct-Distinct check (n ∷ seen) ns in
    let (parted, joined) = New-cons n seen ns in
    let refusals =
      check n
      ∷ refuse_if (seen_in n seen) duplicate_tag
      ∷ check_distinct check (n ∷ seen) ns
      ∷ [] in
    (
      λ h.
          let (mine, (unseen, (rest, _))) = (first_refusal-none refusals).0 h in
          let (others, (fresh, distinct)) = ahead rest in
          let (apart, older) = parted fresh in
          ((mine, others), (((refuse_if-none _ _).0 unseen, older), (apart, distinct))),
      λ h.
          let ((mine, others), ((unseen, older), (apart, distinct))) = h in
          (first_refusal-none refusals).1 (
            mine,
            ((refuse_if-none _ _).1 unseen, (back (others, (joined (apart, older), distinct)), tt)),
          ),
    )

New-nil : (names : List Str) → New [] names
New-nil [] = tt
New-nil (n ∷ ns) = (refl, New-nil ns)

abbrev pub AreTags : List Str → Type 0
AreTags names = (length names ≤ max_tags_per_image) × (All IsTagName names × Distinct names)

too_many :
    (names : List Str)
    → (refuse_if (ltb max_tags_per_image (length names)) invalid_tag_name ≡ none)
      ↔ (length names ≤ max_tags_per_image)
too_many names = (λ h. ground arith, λ h. ground arith)

tags_accepted :
    (check : Str → Option DomainError) (P : Str → Type 0) (count : List Str) (names : List Str)
    → ((n : Str) → (check n ≡ none) ↔ P n)
    → (first_refusal (
          refuse_if (ltb max_tags_per_image (length count)) invalid_tag_name
          ∷ check_distinct check [] names
          ∷ [])
        ≡ none)
      ↔ ((length count ≤ max_tags_per_image) × (All P names × Distinct names))
tags_accepted check P count names each =
    let refusals =
      refuse_if (ltb max_tags_per_image (length count)) invalid_tag_name
      ∷ check_distinct check [] names
      ∷ [] in
    let (ahead, back) = check_distinct-Distinct check [] names in
    (
      λ h.
          let (few, (rest, _)) = (first_refusal-none refusals).0 h in
          let (good, (_, distinct)) = ahead rest in
          ((too_many count).0 few, (All-imp names (λ n. (each n).0) good, distinct)),
      λ h. (first_refusal-none refusals).1 (
        (too_many count).1 h.0,
        (back (All-imp names (λ n. (each n).1) h.1.0, (New-nil names, h.1.1)), tt),
      ),
    )

-- The tags of an image pass just when there are 20 at most, each is a tag name, and no two are the
-- same.
pub validate_tags-AreTags : (names : List Str) → (validate_tags names ≡ none) ↔ AreTags names
unfolding validate_tags
validate_tags-AreTags names =
    tags_accepted validate_tag IsTagName names names validate_tag-IsTagName

abbrev pub IsLength : Str → Type 0
IsLength name = (1 ≤ length name) × (length name ≤ max_tag_name_len)

check_length-IsLength : (name : Str) → (check_length name ≡ none) ↔ IsLength name
check_length-IsLength name = (λ h. ground arith, λ h. ground arith)

module _ (to_lower trim_space : Str → Str) (is_json : Str → Bool) where
  abbrev pub IsMetadata : Str → Type 0
  IsMetadata [] = Unit
  IsMetadata (b ∷ s) = is_json (b ∷ s) ≡ true

  abbrev pub AreRequestTags : List Str → Type 0
  AreRequestTags names =
      let plain = map (normalized to_lower trim_space) names in
      (length names ≤ max_tags_per_image) × (All IsLength plain × Distinct plain)

  pub record IsAcceptable (r : CreateImageRequest) : Type 0 where
    pub filename_fits : IsFilename r.original_filename
    pub type_supported : supported r.content_type ≡ true
    pub size_fits : IsFileSize r.file_size
    pub width_fits : IsSide r.width
    pub height_fits : IsSide r.height
    pub tags_fit : AreRequestTags r.tags
    pub metadata_fits : IsMetadata r.metadata

  validate_metadata-IsMetadata :
      (m : Str) → (validate_metadata to_lower trim_space is_json m ≡ none) ↔ IsMetadata m
  validate_metadata-IsMetadata [] = (λ h. tt, λ h. refl)
  validate_metadata-IsMetadata (b ∷ s) = (λ h. ground arith, λ h. ground arith)

  -- A request is accepted just when its name, type, size, sides, tags and metadata all fit: up to
  -- 255 bytes of UTF-8 for the name, 50 MB, 50000 pixels a side where one is given, and 20 tags
  -- whose normalized names are distinct and have 1 to 100 bytes.
  pub validate_request-IsAcceptable :
      (r : CreateImageRequest)
      → (validate_request to_lower trim_space is_json r ≡ none) ↔ IsAcceptable r
  unfolding validate_request validate_request_tags
  validate_request-IsAcceptable r =
      let checks = request_checks to_lower trim_space is_json r in
      let tags =
        tags_accepted check_length IsLength r.tags (map (normalized to_lower trim_space) r.tags)
          check_length-IsLength in
      (
        λ h.
            let (a, (b, (c, (d, (e, (f, (g, _))))))) = (first_refusal-none checks).0 h in
            record {
              filename_fits = (check_filename-IsFilename _).0 a;
              type_supported = (check_content_type-supported _).0 b;
              size_fits = (check_file_size-IsFileSize r.file_size).0 c;
              width_fits = (check_side-IsSide r.width).0 d;
              height_fits = (check_side-IsSide r.height).0 e;
              tags_fit = tags.0 f;
              metadata_fits = (validate_metadata-IsMetadata r.metadata).0 g;
            },
        λ h. (first_refusal-none checks).1 (
          (check_filename-IsFilename r.original_filename).1 h.filename_fits,
          (
            (check_content_type-supported r.content_type).1 h.type_supported,
            (
              (check_file_size-IsFileSize r.file_size).1 h.size_fits,
              (
                (check_side-IsSide r.width).1 h.width_fits,
                (
                  (check_side-IsSide r.height).1 h.height_fits,
                  (
                    tags.1 h.tags_fit,
                    ((validate_metadata-IsMetadata r.metadata).1 h.metadata_fits, tt),
                  ),
                ),
              ),
            ),
          ),
        ),
      )
