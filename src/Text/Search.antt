-- ===== src/Text/Search.antt =====
-- strings.HasPrefix, HasSuffix, Contains, Split and Join, on bytes.
use golang_helloworld.Prelude.{
  All, Bool, Bool-cases, List, Option, [], ap, arith, false, if◌then◌else◌, inl, inr, length,
  length-append, none, refl, some, true, ℕ, ◌&&◌, ◌++◌, ◌==◌, ◌||◌, ◌∙◌, ◌∷◌, ◌≡◌,
}
use golang_helloworld.Text.{Str, str_eq, str_eq-false, str_eq_refl}

-- strings.HasPrefix
abbrev pub has_prefix : Str → Str → Bool
has_prefix s [] = true
has_prefix [] (p ∷ ps) = false
has_prefix (b ∷ s) (p ∷ ps) = (b == p) && has_prefix s ps

-- strings.Contains
unfoldable pub contains : Str → Str → Bool
contains [] t = has_prefix [] t
contains (b ∷ s) t = has_prefix (b ∷ s) t || contains s t

abbrev pub onto_kept : ℕ → Option Str → Option Str
onto_kept b none = none
onto_kept b (some t) = some (b ∷ t)

-- strings.HasSuffix, and the string without the suffix.
unfoldable pub without_suffix : Str → Str → Option Str
without_suffix [] suffix = if str_eq [] suffix then some [] else none
without_suffix (b ∷ s) suffix =
    let rest = without_suffix s suffix in
    if str_eq (b ∷ s) suffix then some [] else onto_kept b rest

-- The byte goes to the first part.
abbrev pub onto_first : ℕ → List Str → List Str
onto_first b [] = (b ∷ []) ∷ []
onto_first b (w ∷ ws) = (b ∷ w) ∷ ws

-- strings.Split at one byte
unfoldable pub split : ℕ → Str → List Str
split sep [] = [] ∷ []
split sep (b ∷ s) = let rest = split sep s in if b == sep then [] ∷ rest else onto_first b rest

-- strings.Join with one byte
unfoldable pub join_by : ℕ → List Str → Str
join_by sep [] = []
join_by sep (w ∷ []) = w
join_by sep (w ∷ v ∷ ws) = w ++ sep ∷ join_by sep (v ∷ ws)

-- strings.Join with any separator
abbrev pub join_with : Str → List Str → Str
join_with sep [] = []
join_with sep (s ∷ []) = s
join_with sep (s ∷ t ∷ rest) = s ++ (sep ++ join_with sep (t ∷ rest))

pub split-nonempty : (sep : ℕ) (s : Str) → (w : Str) × (ws : List Str) × (split sep s ≡ w ∷ ws)
unfolding split
split-nonempty sep [] = ([], [], refl)
split-nonempty sep (b ∷ s) =
    let (w, ws, e) = split-nonempty sep s in
    elim (Bool-cases (b == sep)) [
      | inl cut ↦ ([], split sep s, rw cut refl)
      | inr kept ↦ (b ∷ w, ws, rw (kept, e) refl)
    ]

-- A byte that is not there cuts nothing.
pub split_absent : (sep : ℕ) (s : Str) → All (λ b. (b == sep) ≡ false) s → split sep s ≡ s ∷ []
unfolding split
split_absent sep [] h = refl
split_absent sep (b ∷ s) h = rw (h.0, split_absent sep s h.1) refl

-- Up to the first separator, a word without one is the first part.
pub split-append :
    (sep : ℕ) (w s : Str)
    → All (λ b. (b == sep) ≡ false) w
    → split sep (w ++ sep ∷ s) ≡ w ∷ split sep s
unfolding split
split-append sep [] s h = let same : (sep == sep) ≡ true = ground arith in rw same refl
split-append sep (b ∷ w) s h = rw (h.0, split-append sep w s h.1) refl

-- Words without the separator come back.
pub split-join_by :
    (sep : ℕ) (w : Str) (ws : List Str)
    → All (λ v. All (λ b. (b == sep) ≡ false) v) (w ∷ ws)
    → split sep (join_by sep (w ∷ ws)) ≡ w ∷ ws
unfolding join_by
split-join_by sep w [] h = split_absent sep w h.0
split-join_by sep w (v ∷ ws) h =
    split-append sep w (join_by sep (v ∷ ws)) h.0 ∙ ap (◌∷◌ w) (split-join_by sep v ws h.1)

str_eq_longer : (b : ℕ) (s t : Str) → str_eq (b ∷ s ++ t) t ≡ false
str_eq_longer b s t = (str_eq-false (b ∷ s ++ t) t).1 (λ e.
    let long : length (b ∷ s ++ t) ≡ length t = ap length e in
    omega (arith, long, length-append (b ∷ s) t))

-- A suffix that is there comes off.
pub without_suffix-append : (s t : Str) → without_suffix (s ++ t) t ≡ some s
unfolding without_suffix
without_suffix-append [] [] = rw (str_eq_refl []) refl
without_suffix-append [] (b ∷ t) = rw (str_eq_refl (b ∷ t)) refl
without_suffix-append (b ∷ s) t = rw (str_eq_longer b s t, without_suffix-append s t) refl
