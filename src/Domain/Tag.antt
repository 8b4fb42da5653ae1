-- ===== src/Domain/Tag.antt =====
-- internal/domain/image/models.go: Tag.Validate.
use golang_helloworld.Prelude.{
  All, All-imp, Bool, Bool-cases, List, Option, [], arith, if◌then◌else◌, inl, inr, leb, length,
  ltb, ltb→lt, none, not, refl, some, subst, true, ℕ, ◌&&◌, ◌-◌, ◌<◌, ◌==◌, ◌||◌, ◌↔◌, ◌∷◌, ◌≡◌,
  ◌≤◌, ◌⊎◌,
}
use golang_helloworld.Text.{Str, str_eq}
use golang_helloworld.Text.Utf8.{
  decode_rune, decode_rune_high, decode_rune_low, runes, runes-ascii, runes_after, valid_string,
  valid_string-ascii,
}
use golang_helloworld.Domain.{
  DomainError, first_refusal, first_refusal-none, invalid_tag_name, max_tag_name_len, refuse_if,
}

abbrev pub is_valid_tag_character : ℕ → Bool
is_valid_tag_character r = (leb b'a' r && leb r b'z') || (leb b'0' r && leb r b'9') || r == b'-'

-- The loop over the runes of the name.
abbrev pub validate_runes : List ℕ → Option DomainError
validate_runes [] = none
validate_runes (r ∷ rs) =
    let rest = validate_runes rs in if is_valid_tag_character r then rest else some invalid_tag_name

-- validateTagName, validateTagLength, validateTagEncoding, validateTagCharacters.
abbrev pub tag_checks : Str → List (Option DomainError)
tag_checks name =
    refuse_if (str_eq name []) invalid_tag_name
    ∷ refuse_if (ltb (length name) 1 || ltb max_tag_name_len (length name)) invalid_tag_name
    ∷ refuse_if (not (valid_string name)) invalid_tag_name
    ∷ validate_runes (runes name)
    ∷ []

unfoldable pub validate_tag : Str → Option DomainError
validate_tag name = first_refusal (tag_checks name)

-- The bytes a to z, 0 to 9 and the hyphen.
abbrev pub IsTagByte : ℕ → Type 0
IsTagByte b = ((97 ≤ b) × (b ≤ 122)) ⊎ (((48 ≤ b) × (b ≤ 57)) ⊎ (b ≡ 45))

abbrev pub IsTagName : Str → Type 0
IsTagName name = (1 ≤ length name) × (length name ≤ 100) × All IsTagByte name

IsTagByte-iff : (b : ℕ) → (is_valid_tag_character b ≡ true) ↔ IsTagByte b
IsTagByte-iff b = ground arith

validate_runes-All : (rs : List ℕ) → (validate_runes rs ≡ none) ↔ All IsTagByte rs
validate_runes-All [] = (λ h. tt, λ h. refl)
validate_runes-All (r ∷ rs) =
    let (ahead, back) = validate_runes-All rs in
    let (sound, complete) = IsTagByte-iff r in
    elim (Bool-cases (is_valid_tag_character r)) [
      | inl good ↦ rw good (λ h. (sound good, ahead h), λ h. back h.1)
      | inr bad ↦ rw bad (λ h. absurd (cc h), λ h. absurd (cc (complete h.0, bad)))
    ]

-- Whatever the bytes, the runes are tag characters only if the bytes are.
runes_after-IsTagByte : (s : Str) → All IsTagByte (runes_after 0 s) → All IsTagByte s
unfolding runes_after
runes_after-IsTagByte [] h = tt
runes_after-IsTagByte (b ∷ s) h =
    let later = runes_after-IsTagByte s in
    elim (Bool-cases (ltb b 128)) [
      | inl low ↦
          let (mine, others) =
            subst (λ x. All IsTagByte (x.0 ∷ runes_after (x.1 - 1) s))
              (decode_rune_low b s (ltb→lt b 128 low)) h in
          (mine, later others)
      | inr high ↦
          absurd (too_high (decode_rune b s).0 (decode_rune_high b s (ground (arith, high))) h.0)
    ]
  where
    too_high : (r : ℕ) → 128 ≤ r → ¬ IsTagByte r
    too_high r h k = ground arith

IsTagByte-ascii : (b : ℕ) → IsTagByte b → b < 128
IsTagByte-ascii b h = ground arith

IsTagName-runes : (name : Str) → IsTagName name → validate_runes (runes name) ≡ none
IsTagName-runes name (some_byte, fits, good) =
    rw (runes-ascii name (All-imp name IsTagByte-ascii good)) ((validate_runes-All name).1 good)

tag_lengths :
    (name : Str)
    → 1 ≤ length name
    → length name ≤ 100
    → (refuse_if (str_eq name []) invalid_tag_name ≡ none)
      × (refuse_if (ltb (length name) 1 || ltb max_tag_name_len (length name)) invalid_tag_name
          ≡ none)
unfolding str_eq
tag_lengths [] low high = absurd (omega arith)
tag_lengths (b ∷ s) low high = ground arith

tag_lengths_back :
    (name : Str)
    → refuse_if (ltb (length name) 1 || ltb max_tag_name_len (length name)) invalid_tag_name ≡ none
    → (1 ≤ length name) × (length name ≤ 100)
tag_lengths_back name h = ground arith

-- Tag.Validate accepts just the names of 1 to 100 bytes that are lower case letters, digits or
-- hyphens.
pub validate_tag-IsTagName : (name : Str) → (validate_tag name ≡ none) ↔ IsTagName name
unfolding validate_tag runes
validate_tag-IsTagName name = (
  λ h.
      let (_, (size, (_, (good, _)))) = (first_refusal-none (tag_checks name)).0 h in
      let (low, high) = tag_lengths_back name size in
      (low, high, runes_after-IsTagByte name ((validate_runes-All (runes name)).0 good)),
  λ h.
      let (filled, size) = tag_lengths name h.0 h.1 in
      (first_refusal-none (tag_checks name)).1 (
        filled,
        (
          size,
          (
            rw (valid_string-ascii name (All-imp name IsTagByte-ascii h.2)) refl,
            (IsTagName-runes name h, tt),
          ),
        ),
      ),
)
