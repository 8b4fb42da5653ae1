-- ===== src/Settings/Colors.antt =====
-- internal/domain/settings/tag_colors.go: the colour of a tag, and its classes. The sum of fnv.New32a
-- is a parameter.
use golang_helloworld.Prelude.{
  All, List, [], arith, get_or, if◌then◌else◌, length, refl, suc, zero, ℕ, ◌%◌, ◌++◌, ◌<◌, ◌∷◌, ◌≡◌,
}
use golang_helloworld.Text.{Str, bytes, str_eq}

abbrev pub tag_color_palette : List Str
tag_color_palette =
    bytes "#3B82F6"
    ∷ bytes "#10B981"
    ∷ bytes "#F59E0B"
    ∷ bytes "#EF4444"
    ∷ bytes "#8B5CF6"
    ∷ bytes "#EC4899"
    ∷ bytes "#06B6D4"
    ∷ bytes "#F97316"
    ∷ bytes "#14B8A6"
    ∷ bytes "#A855F7"
    ∷ bytes "#6366F1"
    ∷ bytes "#10B981"
    ∷ []

abbrev pub tag_color_palette_classes : List (Str × Str)
tag_color_palette_classes =
    (bytes "#3B82F6", bytes "bg-blue-500 text-white")
    ∷ (bytes "#10B981", bytes "bg-green-500 text-white")
    ∷ (bytes "#F59E0B", bytes "bg-amber-500 text-white")
    ∷ (bytes "#EF4444", bytes "bg-red-500 text-white")
    ∷ (bytes "#8B5CF6", bytes "bg-violet-500 text-white")
    ∷ (bytes "#EC4899", bytes "bg-pink-500 text-white")
    ∷ (bytes "#06B6D4", bytes "bg-cyan-500 text-white")
    ∷ (bytes "#F97316", bytes "bg-orange-500 text-white")
    ∷ (bytes "#14B8A6", bytes "bg-teal-500 text-white")
    ∷ (bytes "#A855F7", bytes "bg-purple-500 text-white")
    ∷ (bytes "#6366F1", bytes "bg-indigo-500 text-white")
    ∷ []

abbrev pub light_tag_color_classes : List (Str × Str)
light_tag_color_classes =
    (bytes "#3B82F6", bytes "bg-blue-100 text-blue-800")
    ∷ (bytes "#10B981", bytes "bg-green-100 text-green-800")
    ∷ (bytes "#F59E0B", bytes "bg-amber-100 text-amber-800")
    ∷ (bytes "#EF4444", bytes "bg-red-100 text-red-800")
    ∷ (bytes "#8B5CF6", bytes "bg-violet-100 text-violet-800")
    ∷ (bytes "#EC4899", bytes "bg-pink-100 text-pink-800")
    ∷ (bytes "#06B6D4", bytes "bg-cyan-100 text-cyan-800")
    ∷ (bytes "#F97316", bytes "bg-orange-100 text-orange-800")
    ∷ (bytes "#14B8A6", bytes "bg-teal-100 text-teal-800")
    ∷ (bytes "#A855F7", bytes "bg-purple-100 text-purple-800")
    ∷ (bytes "#6366F1", bytes "bg-indigo-100 text-indigo-800")
    ∷ []

-- A map's entry, or the fallback.
abbrev pub class_in : Str → List (Str × Str) → Str → Str
class_in fallback [] color = fallback
class_in fallback ((key, class) ∷ classes) color =
    let rest = class_in fallback classes color in if str_eq key color then class else rest

module _ (sum32 : Str → ℕ) where
  unfoldable pub get_tag_color : Str → Str
  get_tag_color [] = get_or tag_color_palette 0 []
  get_tag_color (b ∷ s) = get_or tag_color_palette (sum32 (b ∷ s) % length tag_color_palette) []

  unfoldable pub get_tag_color_class : Str → Str
  unfolding get_tag_color
  get_tag_color_class name =
      class_in (bytes "bg-blue-500 text-white") tag_color_palette_classes (get_tag_color name)

  unfoldable pub get_tag_style : Str → Str
  unfolding get_tag_color
  get_tag_style name = bytes "background-color: " ++ (get_tag_color name ++ bytes "; color: white;")

  unfoldable pub get_light_tag_color_class : Str → Str
  unfolding get_tag_color
  get_light_tag_color_class name =
      class_in (bytes "bg-gray-100 text-gray-800") light_tag_color_classes (get_tag_color name)

-- Every colour of the palette has an entry of its own, so that the fallback does not matter.
abbrev HasClass : Str → Type 0
HasClass color =
    (f g : Str)
    → (class_in f tag_color_palette_classes color ≡ class_in g tag_color_palette_classes color)
      × (class_in f light_tag_color_classes color ≡ class_in g light_tag_color_classes color)

palette-HasClass : All HasClass tag_color_palette
unfolding str_eq
palette-HasClass = (
  λ f g. (refl, refl),
  (
    λ f g. (refl, refl),
    (
      λ f g. (refl, refl),
      (
        λ f g. (refl, refl),
        (
          λ f g. (refl, refl),
          (
            λ f g. (refl, refl),
            (
              λ f g. (refl, refl),
              (
                λ f g. (refl, refl),
                (
                  λ f g. (refl, refl),
                  (λ f g. (refl, refl), (λ f g. (refl, refl), (λ f g. (refl, refl), tt))),
                ),
              ),
            ),
          ),
        ),
      ),
    ),
  ),
)

All-get_or :
    (P : Str → Type 0) (xs : List Str) (i : ℕ) → All P xs → i < length xs → P (get_or xs i [])
All-get_or P [] i h low = absurd (omega (arith, low))
All-get_or P (x ∷ xs) zero h low = h.0
All-get_or P (x ∷ xs) (suc i) h low = All-get_or P xs i h.1 (omega (arith, low))

module _ (sum32 : Str → ℕ) where
  get_tag_color-HasClass : (name : Str) → HasClass (get_tag_color sum32 name)
  unfolding get_tag_color
  get_tag_color-HasClass [] = palette-HasClass.0
  get_tag_color-HasClass (b ∷ s) =
      All-get_or HasClass tag_color_palette (sum32 (b ∷ s) % 12) palette-HasClass (omega arith)

  -- Whatever a tag is called, its colour has an entry in both tables of classes: the fallback of
  -- neither is ever used.
  pub get_tag_color_class_lem :
      (name fallback : Str)
      → (class_in fallback tag_color_palette_classes (get_tag_color sum32 name)
          ≡ get_tag_color_class sum32 name)
        × (class_in fallback light_tag_color_classes (get_tag_color sum32 name)
            ≡ get_light_tag_color_class sum32 name)
  unfolding get_tag_color_class get_light_tag_color_class
  get_tag_color_class_lem name fallback =
      let same = get_tag_color-HasClass name in
      (
        (same fallback (bytes "bg-blue-500 text-white")).0,
        (same fallback (bytes "bg-gray-100 text-gray-800")).1,
      )
