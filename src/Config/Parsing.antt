-- ===== src/Config/Parsing.antt =====
-- internal/config/config.go: how the values of the environment are read. strings.TrimSpace,
-- strings.ToUpper, strconv.ParseBool and time.ParseDuration are parameters; strconv.ParseInt with
-- base 10 and 64 bits reads what strconv.Atoi reads.
use golang_helloworld.Prelude.{
  All, All-imp, Bool-cases, List, Option, [], ap, arith, false, if◌then◌else◌, inl, inr, none, refl,
  some, sym, ℕ, ◌*◌, ◌++◌, ◌<◌, ◌==◌, ◌^◌, ◌∙◌, ◌∷◌, ◌≡◌, ◌≢◌,
}
use golang_helloworld.Text.{Str, bytes, str_eq, str_eq-false, str_eq→≡}
use golang_helloworld.Text.Search.{
  join_by, split, split-join_by, without_suffix, without_suffix-append,
}
use golang_helloworld.Text.Decimal.{atoi, atoi-itoa, itoa, pos, ℤ}
use golang_helloworld.Domain.Paging.{mul_int, mul_int_small}

-- getEnv: an empty variable counts as unset.
abbrev pub get_env : (Str → Str) → Str → Str → Str
get_env environ key default_value = if str_eq (environ key) [] then default_value else environ key

abbrev pub or_default {ℓ} : {A : Type ℓ} → Option A → A → A
or_default none d = d
or_default (some a) d = a

abbrev pub parse_int_or_default : Str → ℤ → ℤ
parse_int_or_default value default_value = or_default (atoi value) default_value

-- The number in front of the suffix, times the unit, as a 64-bit int.
abbrev pub sized : Option Str → ℤ → Option ℤ
sized none unit = none
sized (some num_str) unit = scaled (atoi num_str)
  where
    scaled : Option ℤ → Option ℤ
    scaled none = none
    scaled (some num) = some (mul_int num unit)

abbrev pub default_size : ℤ
default_size = pos (10 * 1024 * 1024)

abbrev pub size_in_kb : Option ℤ → ℤ
size_in_kb none = default_size
size_in_kb (some size) = size

abbrev pub size_in_mb : Option ℤ → Option ℤ → ℤ
size_in_mb none kb = size_in_kb kb
size_in_mb (some size) kb = size

-- parseSize on the trimmed string in upper case.
unfoldable pub parse_upper_size : Str → ℤ
parse_upper_size s =
    size_in_mb (sized (without_suffix s (bytes "MB")) (pos (1024 * 1024)))
      (sized (without_suffix s (bytes "KB")) (pos 1024))

module _ (trim_space : Str → Str) where
  abbrev pub trimmed_items : List Str → List Str
  trimmed_items [] = []
  trimmed_items (item ∷ items) =
      let rest = trimmed_items items in
      if str_eq (trim_space item) [] then rest else trim_space item ∷ rest

  unfoldable pub parse_list : Str → List Str
  parse_list list_str = if str_eq list_str [] then [] else trimmed_items (split b',' list_str)

  -- An item that parseList gives back: not empty, no comma in it, no space around it.
  abbrev pub IsItem : Str → Type 0
  IsItem item = (item ≢ []) × (trim_space item ≡ item) × All (λ b. (b == b',') ≡ false) item

  trimmed_items_same : (items : List Str) → All IsItem items → trimmed_items items ≡ items
  trimmed_items_same [] h = refl
  trimmed_items_same (item ∷ items) ((given, same, _), rest) =
      rw (same, (str_eq-false item []).1 given, trimmed_items_same items rest) refl

  -- parseList gives back the items that were joined by commas, if each of them is an item on its
  -- own: not empty, without a comma, and without space around it.
  parse_list-join_by :
      (items : List Str) → All IsItem items → parse_list (join_by b',' items) ≡ items
  unfolding parse_list join_by str_eq split
  parse_list-join_by [] h = refl
  parse_list-join_by (item ∷ items) h =
      let back =
        split-join_by b',' item items (All-imp (item ∷ items) (λ v (_, _, commas). commas) h) in
      elim (Bool-cases (str_eq (join_by b',' (item ∷ items)) [])) [
        | inl empty ↦
            let one : item ∷ items ≡ [] ∷ [] =
              sym back ∙ ap (split b',') (str_eq→≡ (join_by b',' (item ∷ items)) [] empty) in
            absurd ((h.0).0 (cc one))
        | inr some_items ↦ rw (some_items, back) (trimmed_items_same (item ∷ items) h)
      ]

  module _ (to_upper : Str → Str) where
    unfoldable pub parse_size : Str → ℤ
    parse_size size_str = parse_upper_size (to_upper (trim_space size_str))

    -- A number of megabytes whose bytes fit in an int64 is read as that many bytes, if the
    -- string is as trimming and upper case leave it.
    pub parse_size-itoa :
        (n : ℕ)
        → n * (1024 * 1024) < 2 ^ 63
        → to_upper (trim_space (itoa (pos n) ++ bytes "MB")) ≡ itoa (pos n) ++ bytes "MB"
        → parse_size (itoa (pos n) ++ bytes "MB") ≡ pos (n * (1024 * 1024))
    unfolding parse_size parse_upper_size
    parse_size-itoa n fits same =
        rw
          (
            same,
            without_suffix-append (itoa (pos n)) (bytes "MB"),
            atoi-itoa (pos n) (omega arith),
            mul_int_small n (1024 * 1024) (omega arith) (omega arith) fits,
          )
          refl
