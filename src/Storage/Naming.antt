-- ===== src/Storage/Naming.antt =====
-- internal/platform/storage/service.go: the checks on a file name, and the key that a file is stored
-- under. strings.ToLower, filepath.Base and the hash are parameters.
use golang_helloworld.Prelude.{
  All, Bool, Bool-cases, List, Option, [], and_false, arith, drop, false, if◌then◌else◌, inl, inr,
  length, ltb, map, none, not, refl, some, subst, suc, true, zero, ℕ, ◌&&◌, ◌++◌, ◌==◌, ◌||◌, ◌∷◌,
  ◌≡◌, ◌≢◌, ◌≤◌,
}
use golang_helloworld.Text.{Str, bytes, str_eq}
use golang_helloworld.Text.Search.{contains, has_prefix, without_suffix}
use golang_helloworld.Text.Decimal.{itoa, ℤ}
use golang_helloworld.Domain.{first_refusal, refuse_if}
use golang_helloworld.Domain.Extension.{expected_types, extension}
use golang_helloworld.Storage.{
  StorageError, absolute_path, extension_mismatch, extension_unsupported, filename_too_long,
  hidden_file, null_bytes, path_traversal, suspicious_pattern,
}

-- strings.ReplaceAll of one byte by another
abbrev pub replace_byte : ℕ → ℕ → Str → Str
replace_byte old new s = map (λ b. if b == old then new else b) s

-- strings.ReplaceAll of two dots by "_"
unfoldable pub replace_dots : Str → Str
replace_dots [] = []
replace_dots (b ∷ []) = b ∷ []
replace_dots (b ∷ c ∷ s) =
    let rest = replace_dots s in
    let next = replace_dots (c ∷ s) in if (b == b'.') && (c == b'.') then b'_' ∷ rest else b ∷ next

unfoldable pub take : ℕ → Str → Str
take zero s = []
take (suc n) [] = []
take (suc n) (b ∷ s) = b ∷ take n s

unfoldable pub sanitize_filename : Str → Str
unfolding replace_dots take
sanitize_filename filename =
    let spaced = replace_byte b' ' b'_' filename in
    let slashed = replace_byte b'/' b'_' spaced in
    let backslashed = replace_byte 92 b'_' slashed in
    let sanitized = replace_dots backslashed in
    if ltb 100 (length sanitized) then take 100 sanitized else sanitized

-- strings.TrimSuffix
abbrev pub trim_suffix : Str → Str → Str
trim_suffix s suffix = trimmed (without_suffix s suffix)
  where
    trimmed : Option Str → Str
    trimmed none = s
    trimmed (some t) = t

abbrev pub any_pattern : Str → List Str → Bool
any_pattern name [] = false
any_pattern name (pattern ∷ patterns) = contains name pattern || any_pattern name patterns

abbrev pub suspicious_patterns : List Str
suspicious_patterns =
    bytes "<script"
    ∷ bytes "javascript:"
    ∷ bytes "data:"
    ∷ bytes "vbscript:"
    ∷ bytes "onload="
    ∷ bytes "onerror="
    ∷ []

abbrev pub check_extension : Str → Option (List Str) → Option StorageError
check_extension content_type none = some extension_unsupported
check_extension content_type (some expected) =
    refuse_if (not (seen_in_types content_type expected)) extension_mismatch
  where
    seen_in_types : Str → List Str → Bool
    seen_in_types c [] = false
    seen_in_types c (t ∷ ts) = str_eq c t || seen_in_types c ts

module _ (to_lower base : Str → Str) where
  abbrev pub filename_checks : Str → List (Option StorageError)
  filename_checks filename =
      refuse_if (contains filename (bytes "..")) path_traversal
      ∷ refuse_if (has_prefix filename (bytes "/") || has_prefix filename (92 ∷ [])) absolute_path
      ∷ refuse_if (has_prefix (base filename) (bytes ".")) hidden_file
      ∷ refuse_if (any_pattern (to_lower filename) suspicious_patterns) suspicious_pattern
      ∷ refuse_if (ltb 255 (length filename)) filename_too_long
      ∷ refuse_if (contains filename (0 ∷ [])) null_bytes
      ∷ []

  unfoldable pub validate_filename : Str → Option StorageError
  validate_filename filename = first_refusal (filename_checks filename)

  unfoldable pub validate_extension_content_type : Str → Str → Option StorageError
  validate_extension_content_type filename content_type =
      check_extension content_type (expected_types (to_lower (extension filename)))

  -- The key, where `digest` is the hash in hex of the name and the time, and `stamp` the seconds.
  unfoldable pub generate_storage_path : (Str → Str) → ℤ → Str → Str
  unfolding take
  generate_storage_path digest stamp filename =
      let hash_str = digest filename in
      let ext = extension filename in
      let clean_base = sanitize_filename (trim_suffix (base filename) ext) in
      take 2 hash_str
      ++ (b'/' ∷ take 2 (drop 2 hash_str) ++ (b'/' ∷ clean_base ++ (b'_' ∷ itoa stamp ++ ext)))

-- No two dots side by side; `after_dot` says that there is one before.
unfoldable pub dots_apart : Bool → Str → Bool
dots_apart after_dot [] = true
dots_apart after_dot (b ∷ s) =
    let rest = dots_apart (b == b'.') s in if after_dot && (b == b'.') then false else rest

starts_dot : Str → Bool
starts_dot [] = false
starts_dot (b ∷ s) = b == b'.'

replace_dots-dots_apart :
    (after_dot : Bool) (s : Str)
    → (after_dot && starts_dot s) ≡ false
    → dots_apart after_dot (replace_dots s) ≡ true
unfolding dots_apart replace_dots starts_dot
replace_dots-dots_apart after_dot [] h = refl
replace_dots-dots_apart after_dot (b ∷ []) h = rw h refl
replace_dots-dots_apart after_dot (b ∷ c ∷ s) h = elim (Bool-cases ((b == b'.') && (c == b'.'))) [
  | inl both ↦
      let off : (after_dot && (b'_' == b'.')) ≡ false = and_false after_dot in
      rw (both, off) (replace_dots-dots_apart false s refl)
  | inr apart ↦ rw (apart, h) (replace_dots-dots_apart (b == b'.') (c ∷ s) apart)
]

take-dots_apart :
    (after_dot : Bool) (n : ℕ) (s : Str)
    → dots_apart after_dot s ≡ true
    → dots_apart after_dot (take n s) ≡ true
unfolding dots_apart take
take-dots_apart after_dot zero s h = refl
take-dots_apart after_dot (suc n) [] h = refl
take-dots_apart after_dot (suc n) (b ∷ s) h =
    let rest = dots_apart (b == b'.') s in
    elim (Bool-cases (after_dot && (b == b'.'))) [
      | inl both ↦ absurd (cc (subst (λ t. (if t then false else rest) ≡ true) both h))
      | inr apart ↦ rw apart (
          take-dots_apart (b == b'.') n s (subst (λ t. (if t then false else rest) ≡ true) apart h))
    ]

take-length : (n : ℕ) (s : Str) → length (take n s) ≤ n
unfolding take
take-length zero s = omega arith
take-length (suc n) [] = omega arith
take-length (suc n) (b ∷ s) = omega (arith, take-length n s)

pub take-All : (P : ℕ → Type 0) (n : ℕ) (s : Str) → All P s → All P (take n s)
unfolding take
take-All P zero s h = tt
take-All P (suc n) [] h = tt
take-All P (suc n) (b ∷ s) h = (h.0, take-All P n s h.1)

replace_dots-All : (P : ℕ → Type 0) → P b'_' → (s : Str) → All P s → All P (replace_dots s)
unfolding replace_dots
replace_dots-All P u [] h = tt
replace_dots-All P u (b ∷ []) h = h
replace_dots-All P u (b ∷ c ∷ s) h = elim (Bool-cases ((b == b'.') && (c == b'.'))) [
  | inl both ↦ rw both (u, replace_dots-All P u s ((h.1).1))
  | inr apart ↦ rw apart (h.0, replace_dots-All P u (c ∷ s) (h.1))
]

-- No space, no slash and no backslash.
abbrev pub IsPlain : ℕ → Type 0
IsPlain b = (b ≢ 32) × (b ≢ 47) × (b ≢ 92)

replaced-IsPlain :
    (s : Str)
    → All IsPlain (replace_byte 92 b'_' (replace_byte b'/' b'_' (replace_byte b' ' b'_' s)))
replaced-IsPlain [] = tt
replaced-IsPlain (b ∷ s) = ((ground arith, ground arith, ground arith), replaced-IsPlain s)

-- What is left when the name is cut to 100 bytes.
Clean : Str → Type 0
Clean t = All IsPlain t × (dots_apart false t ≡ true) × (length t ≤ 100)

cut-Clean :
    (t : Str)
    → All IsPlain t
    → dots_apart false t ≡ true
    → Clean (if ltb 100 (length t) then take 100 t else t)
unfolding Clean
cut-Clean t plain apart = elim (Bool-cases (ltb 100 (length t))) [
  | inl long ↦
      rw long (take-All IsPlain 100 t plain, take-dots_apart false 100 t apart, take-length 100 t)
  | inr short ↦ rw short (plain, apart, ground arith)
]

-- A sanitized name has no space, slash or backslash, no two dots side by side, and 100 bytes at
-- most, whatever the name was.
pub sanitize_filename-IsPlain :
    (s : Str)
    → All IsPlain (sanitize_filename s)
      × (dots_apart false (sanitize_filename s) ≡ true)
      × (length (sanitize_filename s) ≤ 100)
unfolding sanitize_filename Clean
sanitize_filename-IsPlain s =
    let replaced = replace_byte 92 b'_' (replace_byte b'/' b'_' (replace_byte b' ' b'_' s)) in
    cut-Clean (replace_dots replaced)
      (replace_dots-All IsPlain (omega arith, omega arith, omega arith) replaced
        (replaced-IsPlain s))
      (replace_dots-dots_apart false replaced refl)
