-- ===== src/Storage/Magic.antt =====
-- internal/platform/storage/service.go: the first bytes of a file against its content type.
use golang_helloworld.Prelude.{
  Bool, Bool-cases, List, Option, [], and_true_iff, ap, arith, drop, false, get_or, if◌then◌else◌,
  inl, inr, length, ltb, ltb→lt, none, not, refl, some, subst, suc, sym, true, zero, ℕ, ◌&&◌, ◌+◌,
  ◌<◌, ◌==◌, ◌∙◌, ◌∷◌, ◌≡◌, ◌≤◌, ◌⊎◌,
}
use golang_helloworld.Text.{Str, bytes, str_eq, str_eq→≡}
use golang_helloworld.Text.Search.{has_prefix}
use golang_helloworld.Domain.{first_refusal, first_refusal-none, refuse_if}
use golang_helloworld.Storage.{StorageError, content_mismatch, file_too_small, magic_unsupported}

-- The loop over the pattern, at index `i` of the header.
abbrev pub matches_at : Str → ℕ → Str → Bool
matches_at header i [] = true
matches_at header i (b ∷ pattern) =
    let rest = matches_at header (suc i) pattern in
    if not (get_or header i 0 == b) then false else rest

unfoldable pub matches_pattern : Str → Str → Bool
matches_pattern header pattern =
    if ltb (length header) (length pattern) then false else matches_at header 0 pattern

abbrev pub jpeg_pattern : Str
jpeg_pattern = 255 ∷ 216 ∷ 255 ∷ []

abbrev pub png_pattern : Str
png_pattern = 137 ∷ 80 ∷ 78 ∷ 71 ∷ 13 ∷ 10 ∷ 26 ∷ 10 ∷ []

-- getMagicNumberPatterns, none for a content type that is not there.
unfoldable pub get_magic_number_patterns : Str → Option (List Str)
get_magic_number_patterns content_type =
    if str_eq content_type (bytes "image/jpeg")
    then some (jpeg_pattern ∷ [])
    else if str_eq content_type (bytes "image/jpg")
    then some (jpeg_pattern ∷ [])
    else if str_eq content_type (bytes "image/png")
    then some (png_pattern ∷ [])
    else if str_eq content_type (bytes "image/gif")
    then some (bytes "GIF87a" ∷ bytes "GIF89a" ∷ [])
    else if str_eq content_type (bytes "image/webp")
    then some (bytes "RIFF" ∷ [])
    else none

unfoldable pub has_webp_signature : Str → Bool
has_webp_signature header =
    if ltb (length header) 12 then false else matches_at header 8 (bytes "WEBP")

unfoldable pub passes_special_cases : Str → Str → Bool
unfolding has_webp_signature
passes_special_cases header content_type =
    if str_eq content_type (bytes "image/webp") then has_webp_signature header else true

unfoldable pub check_magic_number_patterns : Str → Str → List Str → Option StorageError
unfolding matches_pattern passes_special_cases
check_magic_number_patterns header content_type [] = some content_mismatch
check_magic_number_patterns header content_type (pattern ∷ patterns) =
    let rest = check_magic_number_patterns header content_type patterns in
    if matches_pattern header pattern && passes_special_cases header content_type
    then none
    else rest

abbrev pub check_patterns : Str → Str → Option (List Str) → Option StorageError
unfolding check_magic_number_patterns
check_patterns header content_type none = some magic_unsupported
check_patterns header content_type (some patterns) =
    check_magic_number_patterns header content_type patterns

unfoldable pub validate_magic_number : Str → Str → Option StorageError
unfolding check_patterns get_magic_number_patterns
validate_magic_number header content_type = first_refusal (
    refuse_if (ltb (length header) 4) file_too_small
    ∷ check_patterns header content_type (get_magic_number_patterns content_type)
    ∷ [])

-- What each type of file begins with.
abbrev pub Begins : Str → Str → Type 0
Begins header start = has_prefix header start ≡ true

pub data HasMagic (header : Str) : Str → Type 0 where
  jpeg : Begins header jpeg_pattern → HasMagic header (bytes "image/jpeg")
  jpg : Begins header jpeg_pattern → HasMagic header (bytes "image/jpg")
  png : Begins header png_pattern → HasMagic header (bytes "image/png")
  gif87 : Begins header (bytes "GIF87a") → HasMagic header (bytes "image/gif")
  gif89 : Begins header (bytes "GIF89a") → HasMagic header (bytes "image/gif")
  webp :
      Begins header (bytes "RIFF")
      → Begins (drop 8 header) (bytes "WEBP")
      → HasMagic header (bytes "image/webp")

drop_at : (s : Str) (i : ℕ) → i < length s → drop i s ≡ get_or s i 0 ∷ drop (suc i) s
drop_at [] i h = absurd (omega (arith, h))
drop_at (b ∷ s) zero h = refl
drop_at (b ∷ s) (suc i) h = drop_at s i (omega (arith, h))

unless : (a b : Bool) → (if not a then false else b) ≡ (a && b)
unless true b = refl
unless false b = refl

-- At an index where the header is long enough, the loop compares with what lies from there on.
matches_at-has_prefix :
    (header : Str) (i : ℕ) (pattern : Str)
    → i + length pattern ≤ length header
    → matches_at header i pattern ≡ has_prefix (drop i header) pattern
matches_at-has_prefix header i [] h = refl
matches_at-has_prefix header i (b ∷ pattern) h =
    unless (get_or header i 0 == b) (matches_at header (suc i) pattern)
    ∙ ap (◌&&◌ (get_or header i 0 == b))
        (matches_at-has_prefix header (suc i) pattern (omega (arith, h)))
    ∙ ap (λ s. has_prefix s (b ∷ pattern)) (sym (drop_at header i (omega (arith, h))))

has_prefix-length : (s t : Str) → has_prefix s t ≡ true → length t ≤ length s
has_prefix-length s [] h = omega arith
has_prefix-length [] (b ∷ t) h = absurd (cc h)
has_prefix-length (c ∷ s) (b ∷ t) h =
    let rest : has_prefix s t ≡ true = ((and_true_iff (c == b) (has_prefix s t)).0 h).1 in
    omega (arith, has_prefix-length s t rest)

matches_pattern-has_prefix :
    (header pattern : Str) → matches_pattern header pattern ≡ has_prefix header pattern
unfolding matches_pattern
matches_pattern-has_prefix header pattern =
    elim (Bool-cases (ltb (length header) (length pattern))) [
      | inr long ↦ rw long (matches_at-has_prefix header 0 pattern (ground arith))
      | inl short ↦ elim (Bool-cases (has_prefix header pattern)) [
        | inl begins ↦
            let fits = has_prefix-length header pattern begins in
            absurd (omega (arith, fits, ltb→lt (length header) (length pattern) short))
        | inr differs ↦ rw (short, differs) refl
      ]
    ]

-- What is left of a list of patterns that was passed: one of them begins the header.
passed_one :
    (header content_type pattern : Str) (patterns : List Str)
    → check_magic_number_patterns header content_type (pattern ∷ patterns) ≡ none
    → (Begins header pattern × (passes_special_cases header content_type ≡ true))
      ⊎ (check_magic_number_patterns header content_type patterns ≡ none)
unfolding check_magic_number_patterns
passed_one header content_type pattern patterns h =
    elim (Bool-cases (matches_pattern header pattern && passes_special_cases header content_type)) [
      | inl both ↦
          let (begins, special) =
            (and_true_iff (matches_pattern header pattern)
                (passes_special_cases header content_type)).0
              both in
          inl (sym (matches_pattern-has_prefix header pattern) ∙ begins, special)
      | inr neither ↦ inr (
          subst
            (λ b.
              (if b then none else check_magic_number_patterns header content_type patterns) ≡ none)
            neither h)
    ]

passed_last :
    (header content_type pattern : Str)
    → check_magic_number_patterns header content_type (pattern ∷ []) ≡ none
    → Begins header pattern × (passes_special_cases header content_type ≡ true)
unfolding check_magic_number_patterns
passed_last header content_type pattern h = elim (passed_one header content_type pattern [] h) [
  | inl found ↦ found
  | inr none_left ↦ absurd (cc none_left)
]

-- A WebP file has its own mark behind the container's.
webp_signed :
    (header : Str) → has_webp_signature header ≡ true → Begins (drop 8 header) (bytes "WEBP")
unfolding has_webp_signature
webp_signed header h =
    let marked = matches_at header 8 (bytes "WEBP") in
    elim (Bool-cases (ltb (length header) 12)) [
      | inl short ↦ absurd (cc (subst (λ b. (if b then false else marked) ≡ true) short h))
      | inr long ↦
          sym (matches_at-has_prefix header 8 (bytes "WEBP") (ground arith))
          ∙ subst (λ b. (if b then false else marked) ≡ true) long h
    ]

webp_mark :
    (header : Str)
    → passes_special_cases header (bytes "image/webp") ≡ true
    → Begins (drop 8 header) (bytes "WEBP")
unfolding passes_special_cases str_eq
webp_mark header h = webp_signed header h

-- A file whose first bytes pass begins the way its content type does.
pub validate_magic_number-HasMagic :
    (header content_type : Str)
    → validate_magic_number header content_type ≡ none
    → HasMagic header content_type
unfolding validate_magic_number get_magic_number_patterns check_patterns
validate_magic_number-HasMagic header content_type h =
    let (_, (checked, _)) =
      (first_refusal-none (
          refuse_if (ltb (length header) 4) file_too_small
          ∷ check_patterns header content_type (get_magic_number_patterns content_type)
          ∷ [])).0
        h in
    with_type content_type checked
  where
    alike :
        (ct literal : Str) → str_eq ct literal ≡ true → HasMagic header literal → HasMagic header ct
    alike ct literal e m = subst (HasMagic header) (sym (str_eq→≡ ct literal e)) m

    gif :
        (ct : Str)
        → check_magic_number_patterns header ct (bytes "GIF87a" ∷ bytes "GIF89a" ∷ []) ≡ none
        → HasMagic header (bytes "image/gif")
    gif ct passed = elim (passed_one header ct (bytes "GIF87a") (bytes "GIF89a" ∷ []) passed) [
      | inl (begins, _) ↦ gif87 begins
      | inr later ↦ gif89 ((passed_last header ct (bytes "GIF89a") later).0)
    ]

    at :
        (ct : Str) (patterns : Option (List Str))
        → get_magic_number_patterns ct ≡ patterns
        → check_patterns header ct (get_magic_number_patterns ct) ≡ none
        → check_patterns header ct patterns ≡ none
    at ct patterns e passed = subst (λ o. check_patterns header ct o ≡ none) e passed

    with_type :
        (ct : Str)
        → check_patterns header ct (get_magic_number_patterns ct) ≡ none
        → HasMagic header ct
    with_type ct passed = elim (Bool-cases (str_eq ct (bytes "image/jpeg"))) [
      | inl e ↦ alike ct (bytes "image/jpeg") e (
          jpeg (
            (passed_last header ct jpeg_pattern
              (at ct (some (jpeg_pattern ∷ [])) (rw e refl) passed)).0))
      | inr n1 ↦ elim (Bool-cases (str_eq ct (bytes "image/jpg"))) [
        | inl e ↦ alike ct (bytes "image/jpg") e (
            jpg (
              (passed_last header ct jpeg_pattern
                (at ct (some (jpeg_pattern ∷ [])) (rw (n1, e) refl) passed)).0))
        | inr n2 ↦ elim (Bool-cases (str_eq ct (bytes "image/png"))) [
          | inl e ↦ alike ct (bytes "image/png") e (
              png (
                (passed_last header ct png_pattern
                  (at ct (some (png_pattern ∷ [])) (rw (n1, n2, e) refl) passed)).0))
          | inr n3 ↦ elim (Bool-cases (str_eq ct (bytes "image/gif"))) [
            | inl e ↦ alike ct (bytes "image/gif") e (
                gif ct (
                  at ct (some (bytes "GIF87a" ∷ bytes "GIF89a" ∷ [])) (rw (n1, n2, n3, e) refl)
                    passed))
            | inr n4 ↦ elim (Bool-cases (str_eq ct (bytes "image/webp"))) [
              | inl e ↦
                  let (begins, special) =
                    passed_last header ct (bytes "RIFF")
                      (at ct (some (bytes "RIFF" ∷ [])) (rw (n1, n2, n3, n4, e) refl) passed) in
                  let same = str_eq→≡ ct (bytes "image/webp") e in
                  alike ct (bytes "image/webp") e (
                    webp begins (
                      webp_mark header
                        (subst (λ t. passes_special_cases header t ≡ true) same special)))
              | inr n5 ↦ absurd (cc (at ct none (rw (n1, n2, n3, n4, n5) refl) passed))
            ]
          ]
        ]
      ]
    ]
