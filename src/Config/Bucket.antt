-- ===== src/Config/Bucket.antt =====
-- internal/config/validation_methods.go: the names of buckets, for S3 and for Cloud Storage.
use golang_helloworld.Prelude.{
  All, Bool, Bool-cases, List, Option, [], arith, false, get_or, if◌then◌else◌, inl, inr, leb,
  length, ltb, none, not, refl, some, subst, sym, true, ℕ, ◌&&◌, ◌==◌, ◌||◌, ◌↔◌, ◌∙◌, ◌∷◌, ◌≡◌,
  ◌≤◌, ◌⊎◌,
}
use golang_helloworld.Text.{Str, bytes}
use golang_helloworld.Text.Search.{
  contains, has_prefix, onto_first, split, split-nonempty, split_absent,
}
use golang_helloworld.Text.Decimal.{atoi}

abbrev pub is_lower_alpha_num : ℕ → Bool
is_lower_alpha_num b = (leb b'a' b && leb b b'z') || (leb b'0' b && leb b b'9')

abbrev pub is_valid_bucket_length : Str → Bool
is_valid_bucket_length name = leb 3 (length name) && leb (length name) 63

abbrev pub has_valid_bucket_boundaries : Str → Bool
has_valid_bucket_boundaries [] = false
has_valid_bucket_boundaries (b ∷ s) =
    is_lower_alpha_num b && is_lower_alpha_num (get_or (b ∷ s) (length s) 0)

-- The loop over the bytes; `after_hyphen` says that there is one before, and that it is a hyphen.
unfoldable pub bucket_characters_from : Bool → Str → Bool
bucket_characters_from after_hyphen [] = true
bucket_characters_from after_hyphen (b ∷ s) =
    let rest = bucket_characters_from (b == b'-') s in
    if not (is_lower_alpha_num b) && not (b == b'-')
    then false
    else if (b == b'-') && after_hyphen
    then false
    else rest

abbrev pub has_valid_bucket_characters : Str → Bool
unfolding bucket_characters_from
has_valid_bucket_characters name = bucket_characters_from false name

abbrev pub is_some {ℓ} : {A : Type ℓ} → Option A → Bool
is_some none = false
is_some (some a) = true

abbrev pub all_numbers : List Str → Bool
all_numbers [] = true
all_numbers (part ∷ parts) =
    let rest = all_numbers parts in if is_some (atoi part) then rest else false

abbrev pub is_ip_address_format : Str → Bool
is_ip_address_format name = (length (split b'.' name) == 4) && all_numbers (split b'.' name)

unfoldable pub is_valid_bucket_name : Str → Bool
is_valid_bucket_name name =
    is_valid_bucket_length name
    && has_valid_bucket_boundaries name
    && bucket_characters_from false name
    && not (is_ip_address_format name)

-- One part of the name after the other.
abbrev pub parts_fit : List Str → Bool
parts_fit [] = true
parts_fit (part ∷ parts) =
    let rest = parts_fit parts in if ltb 63 (length part) then false else rest

abbrev pub is_valid_gcs_bucket_length : Str → Bool
is_valid_gcs_bucket_length name =
    if not (contains name (bytes "."))
    then is_valid_bucket_length name
    else parts_fit (split b'.' name) && leb 3 (length name) && leb (length name) 222

abbrev pub has_valid_gcs_bucket_characters : Str → Bool
has_valid_gcs_bucket_characters [] = true
has_valid_gcs_bucket_characters (b ∷ s) =
    let rest = has_valid_gcs_bucket_characters s in
    if not (is_lower_alpha_num b) && not (b == b'-') && not (b == b'_') && not (b == b'.')
    then false
    else rest

unfoldable pub is_valid_gcs_bucket_name : Str → Bool
is_valid_gcs_bucket_name name =
    is_valid_gcs_bucket_length name
    && has_valid_bucket_boundaries name
    && has_valid_gcs_bucket_characters name
    && not (is_ip_address_format name)
    && not (has_prefix name (bytes "goog"))
    && not (contains name (bytes "google"))

-- Words of lower case letters and digits, none empty, with single hyphens between them.
abbrev pub IsLowerAlphaNum : ℕ → Type 0
IsLowerAlphaNum b = ((97 ≤ b) × (b ≤ 122)) ⊎ ((48 ≤ b) × (b ≤ 57))

abbrev pub IsWord : Str → Type 0
IsWord w = (1 ≤ length w) × All IsLowerAlphaNum w

abbrev pub IsBucketName : Str → Type 0
IsBucketName name = (3 ≤ length name) × (length name ≤ 63) × All IsWord (split b'-' name)

is_lower_alpha_num_iff : (b : ℕ) → (is_lower_alpha_num b ≡ true) ↔ IsLowerAlphaNum b
is_lower_alpha_num_iff b = ground arith

-- Ends in no hyphen.
closed : Bool → Str → Bool
closed after_hyphen [] = not after_hyphen
closed after_hyphen (b ∷ s) = closed (b == b'-') s

-- The words that a suffix of the name leaves: the first may be empty if a word has begun.
abbrev IsRest : Bool → List Str → Type 0
IsRest after_hyphen [] = ⊥
IsRest true (w ∷ ws) = IsWord w × All IsWord ws
IsRest false (w ∷ ws) = All IsLowerAlphaNum w × All IsWord ws

IsRest-onto :
    (after_hyphen : Bool) (b : ℕ) (w : Str) (ws : List Str)
    → IsRest after_hyphen (onto_first b (w ∷ ws)) ↔ (IsLowerAlphaNum b × IsRest false (w ∷ ws))
IsRest-onto true b w ws =
    (λ h. (((h.0).1).0, (((h.0).1).1, h.1)), λ h. ((omega arith, (h.0, (h.1).0)), (h.1).1))
IsRest-onto false b w ws = (λ h. ((h.0).0, ((h.0).1, h.1)), λ h. ((h.0, (h.1).0), (h.1).1))

abbrev Agrees : Bool → Str → Type 0
Agrees after_hyphen s =
    ((bucket_characters_from after_hyphen s ≡ true) × (closed after_hyphen s ≡ true))
    ↔ IsRest after_hyphen (split b'-' s)

Agrees-onto :
    (after_hyphen : Bool) (b : ℕ) (s : Str)
    → (b == b'-') ≡ false
    → Agrees false s
    → Agrees after_hyphen (b ∷ s)
unfolding bucket_characters_from closed split
Agrees-onto after_hyphen b s other_byte (ahead, back) =
    let (w, ws, e) = split-nonempty b'-' s in
    let (onto, off) = IsRest-onto after_hyphen b w ws in
    let (sound, complete) = is_lower_alpha_num_iff b in
    elim (Bool-cases (is_lower_alpha_num b)) [
      | inl good ↦
          rw (other_byte, good, e)
            (
              λ h. off (sound good, subst (IsRest false) e (ahead h)),
              λ h. back (subst (IsRest false) (sym e) ((onto h).1)),
            )
      | inr bad ↦
          rw (other_byte, bad, e)
            (λ h. absurd (cc (h.0)), λ h. absurd (cc (bad, complete ((onto h).0))))
    ]

hyphen_other : (b : ℕ) → (b == b'-') ≡ true → is_lower_alpha_num b ≡ false
hyphen_other b h = ground arith

IsRest-words :
    (parts : List Str) (w : Str) (ws : List Str)
    → parts ≡ w ∷ ws
    → IsRest true parts ↔ All IsWord parts
IsRest-words parts w ws e = rw e (λ h. h, λ h. h)

bucket_characters-Agrees : (after_hyphen : Bool) (s : Str) → Agrees after_hyphen s
unfolding bucket_characters_from closed split
bucket_characters-Agrees true [] = (λ h. absurd (cc (h.1)), λ h. absurd (omega (arith, (h.0).0)))
bucket_characters-Agrees false [] = (λ h. (tt, tt), λ h. (refl, refl))
bucket_characters-Agrees true (b ∷ s) = elim (Bool-cases (b == b'-')) [
  | inl hyphen ↦
      rw (hyphen, hyphen_other b hyphen)
        (λ h. absurd (cc (h.0)), λ h. absurd (omega (arith, (h.0).0)))
  | inr other_byte ↦ Agrees-onto true b s other_byte (bucket_characters-Agrees false s)
]
bucket_characters-Agrees false (b ∷ s) = elim (Bool-cases (b == b'-')) [
  | inl hyphen ↦
      let (ahead, back) = bucket_characters-Agrees true s in
      let (w, ws, e) = split-nonempty b'-' s in
      let (as_words, as_rest) = IsRest-words (split b'-' s) w ws e in
      rw (hyphen, hyphen_other b hyphen) (λ h. (tt, as_words (ahead h)), λ h. back (as_rest (h.1)))
  | inr other_byte ↦ Agrees-onto false b s other_byte (bucket_characters-Agrees false s)
]

-- A last byte that is a letter or a digit is no hyphen, and closes the last word.
closed-last :
    (after_hyphen : Bool) (b : ℕ) (s : Str)
    → bucket_characters_from after_hyphen (b ∷ s) ≡ true
    → closed after_hyphen (b ∷ s) ≡ is_lower_alpha_num (get_or (b ∷ s) (length s) 0)
unfolding bucket_characters_from closed
closed-last after_hyphen b [] h = ground arith
closed-last after_hyphen b (c ∷ s) h = closed-last (b == b'-') c s (ground arith)

-- After a hyphen, no second one: the first byte is a letter or a digit.
first_byte :
    (b : ℕ) (s : Str)
    → (bucket_characters_from true (b ∷ s) ≡ true)
      ↔ ((is_lower_alpha_num b ≡ true) × (bucket_characters_from false (b ∷ s) ≡ true))
unfolding bucket_characters_from
first_byte b s = (λ h. ground arith, λ h. ground arith)

no_dot :
    (after_hyphen : Bool) (s : Str)
    → bucket_characters_from after_hyphen s ≡ true
    → All (λ b. (b == b'.') ≡ false) s
unfolding bucket_characters_from
no_dot after_hyphen [] h = tt
no_dot after_hyphen (b ∷ s) h = (ground arith, no_dot (b == b'-') s (ground arith))

no_address :
    (name : Str) → bucket_characters_from false name ≡ true → is_ip_address_format name ≡ false
no_address name h = rw (split_absent b'.' name (no_dot false name h)) refl

all_of :
    (fits first last all_good address : Bool)
    → ((fits && (first && last) && all_good && not address) ≡ true)
      ↔ ((fits ≡ true) × (first ≡ true) × (last ≡ true) × (all_good ≡ true) × (address ≡ false))
all_of fits first last all_good address = (λ h. ground arith, λ h. ground arith)

length_iff :
    (name : Str) → (is_valid_bucket_length name ≡ true) ↔ ((3 ≤ length name) × (length name ≤ 63))
length_iff name = ground arith

-- isValidBucketName accepts the names of 3 to 63 bytes that are words of lower case letters and
-- digits with single hyphens between them; its test for an IP address refuses none of them.
pub is_valid_bucket_name-IsBucketName :
    (name : Str) → (is_valid_bucket_name name ≡ true) ↔ IsBucketName name
unfolding is_valid_bucket_name
is_valid_bucket_name-IsBucketName [] = (λ h. absurd (cc h), λ h. absurd (omega (arith, h.0)))
is_valid_bucket_name-IsBucketName (b ∷ s) =
    let (w, ws, e) = split-nonempty b'-' (b ∷ s) in
    let (as_words, as_rest) = IsRest-words (split b'-' (b ∷ s)) w ws e in
    let (ahead, back) = bucket_characters-Agrees true (b ∷ s) in
    let (sound, complete) = first_byte b s in
    let first = is_lower_alpha_num b in
    let last = is_lower_alpha_num (get_or (b ∷ s) (length s) 0) in
    let good = bucket_characters_from false (b ∷ s) in
    let (apart, together) =
      all_of (is_valid_bucket_length (b ∷ s)) first last good (is_ip_address_format (b ∷ s)) in
    (
      λ h.
          let (fits, starts_well, ends_well, all_good, _) = apart h in
          let (low, high) = (length_iff (b ∷ s)).0 fits in
          let alternating = complete (starts_well, all_good) in
          (low, high, as_words (ahead (alternating, closed-last true b s alternating ∙ ends_well))),
      λ (low, high, words).
          let (alternating, shut) = back (as_rest words) in
          let (starts_well, all_good) = sound alternating in
          together (
            (length_iff (b ∷ s)).1 (low, high),
            starts_well,
            sym (closed-last true b s alternating) ∙ shut,
            all_good,
            no_address (b ∷ s) all_good,
          ),
    )
