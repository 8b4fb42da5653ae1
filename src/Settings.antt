-- ===== src/Settings.antt =====
-- internal/domain/settings/models.go: what a user sets, what an update may ask for, and the defaults.
-- A float32 is what `Float` says it is; 0.4 and the time come as arguments.
pub mod Service
pub mod Valid
pub mod Rows
pub mod Colors
use golang_helloworld.Prelude.{
  Bool, List, Option, [], false, none, not, not_iff, some, true, ◌||◌, ◌∷◌, ◌≡◌,
}
use golang_helloworld.Text.{Str, bytes}
use golang_helloworld.Text.Decimal.{pos, ℤ}
use golang_helloworld.Domain.{
  above, below, first_refusal, first_refusal-none, refuse_if, refuse_if-none,
}
use golang_helloworld.Domain.Request.{seen_in}
use golang_helloworld.Faults.{Float}

pub data Refusal : Type 0 where
  bad_style bad_opacity bad_theme bad_columns : Refusal

abbrev pub styles : List Str
styles = bytes "cover" ∷ bytes "contain" ∷ bytes "repeat" ∷ []

abbrev pub themes : List Str
themes = bytes "light" ∷ bytes "dark" ∷ []

-- if p != nil && bad(*p)
abbrev pub given_and {ℓ} : {A : Type ℓ} → Option A → (A → Bool) → Bool
given_and none bad = false
given_and (some a) bad = bad a

-- if p != nil { field = *p }
abbrev pub merged {ℓ} : {A : Type ℓ} → A → Option A → A
merged old none = old
merged old (some new) = new

-- if p != nil { field = p }
abbrev pub merged_pointer {ℓ} : {A : Type ℓ} → Option A → Option A → Option A
merged_pointer old none = old
merged_pointer old (some new) = some new

module _ (fl : Float) where
  pub record UserSettings : Type 0 where
    pub id : ℤ
    pub user_id : Option Str
    pub background_image_id : Option ℤ
    pub background_image_url : Option Str
    pub background_style : Str
    pub background_opacity : fl.Number
    pub font_family : Str
    pub text_theme : Str
    pub show_tags : Bool
    pub show_dimensions : Bool
    pub show_content_type : Bool
    pub grid_columns : ℤ
    pub created_at : ℤ
    pub updated_at : ℤ

  pub record UpdateSettingsRequest : Type 0 where
    pub for_user : Option Str
    pub new_image_id : Option ℤ
    pub new_image_url : Option Str
    pub new_style : Option Str
    pub new_opacity : Option fl.Number
    pub new_font : Option Str
    pub new_theme : Option Str
    pub new_show_tags : Option Bool
    pub new_show_dimensions : Option Bool
    pub new_show_content_type : Option Bool
    pub new_columns : Option ℤ

  abbrev pub outside_unit : fl.Number → Bool
  outside_unit p = fl.less p fl.zero_point || fl.less fl.one_point p

  abbrev pub outside_columns : ℤ → Bool
  outside_columns n = below n 2 || above n 6

  abbrev pub update_checks : UpdateSettingsRequest → List (Option Refusal)
  update_checks r =
      refuse_if (given_and r.new_style (λ s. not (seen_in s styles))) bad_style
      ∷ refuse_if (given_and r.new_opacity outside_unit) bad_opacity
      ∷ refuse_if (given_and r.new_theme (λ s. not (seen_in s themes))) bad_theme
      ∷ refuse_if (given_and r.new_columns outside_columns) bad_columns
      ∷ []

  -- UpdateSettingsRequest.Validate
  unfoldable pub validate_update : UpdateSettingsRequest → Option Refusal
  validate_update r = first_refusal (update_checks r)

  -- DefaultSettings
  unfoldable pub default_settings : fl.Number → ℤ → UserSettings
  default_settings forty_percent now = record {
    id = pos 0;
    user_id = some (bytes "default");
    background_image_id = none;
    background_image_url = some (bytes "https://wallpapershome.com/images/pages/pic_h/25835.jpg");
    background_style = bytes "cover";
    background_opacity = forty_percent;
    font_family = bytes "system-ui";
    text_theme = bytes "light";
    show_tags = true;
    show_dimensions = true;
    show_content_type = true;
    grid_columns = pos 5;
    created_at = now;
    updated_at = now;
  }

  -- SettingsServiceImpl.applyUpdates
  unfoldable pub apply_updates : UserSettings → UpdateSettingsRequest → ℤ → UserSettings
  apply_updates current r now = record current {
    background_image_id = merged_pointer current.background_image_id r.new_image_id;
    background_image_url = merged_pointer current.background_image_url r.new_image_url;
    background_style = merged current.background_style r.new_style;
    background_opacity = merged current.background_opacity r.new_opacity;
    font_family = merged current.font_family r.new_font;
    text_theme = merged current.text_theme r.new_theme;
    show_tags = merged current.show_tags r.new_show_tags;
    show_dimensions = merged current.show_dimensions r.new_show_dimensions;
    show_content_type = merged current.show_content_type r.new_show_content_type;
    grid_columns = merged current.grid_columns r.new_columns;
    updated_at = now;
  }

  -- What Validate asks of the fields that it looks at.
  pub record AreSettings (s : UserSettings) : Type 0 where
    pub style_known : seen_in s.background_style styles ≡ true
    pub opacity_fits : outside_unit s.background_opacity ≡ false
    pub theme_known : seen_in s.text_theme themes ≡ true
    pub columns_fit : outside_columns s.grid_columns ≡ false

  merged_fits :
      {A : Type 0} (bad : A → Bool) (e : Refusal) (old : A) (new : Option A)
      → refuse_if (given_and new bad) e ≡ none
      → bad old ≡ false
      → bad (merged old new) ≡ false
  merged_fits bad e old none h fits = fits
  merged_fits bad e old (some new) h fits = (refuse_if-none (bad new) e).0 h

  not-false : (b : Bool) → b ≡ true → not b ≡ false
  not-false b h = (not_iff b).1 h

  -- An update that Validate accepts turns settings that fit into settings that fit.
  pub apply_updates-AreSettings :
      (current : UserSettings) (r : UpdateSettingsRequest) (now : ℤ)
      → validate_update r ≡ none
      → AreSettings current
      → AreSettings (apply_updates current r now)
  unfolding validate_update apply_updates
  apply_updates-AreSettings current r now h fits =
      let (style, (opacity, (theme, (columns, _)))) = (first_refusal-none (update_checks r)).0 h in
      let bad_style_of : Str → Bool = λ s. not (seen_in s styles) in
      let bad_theme_of : Str → Bool = λ s. not (seen_in s themes) in
      record {
        style_known = (not_iff (seen_in (merged current.background_style r.new_style) styles)).0 (
            merged_fits bad_style_of bad_style current.background_style r.new_style style
              (not-false (seen_in current.background_style styles) fits.style_known));
        opacity_fits =
            merged_fits outside_unit bad_opacity current.background_opacity r.new_opacity opacity
              fits.opacity_fits;
        theme_known = (not_iff (seen_in (merged current.text_theme r.new_theme) themes)).0 (
            merged_fits bad_theme_of bad_theme current.text_theme r.new_theme theme
              (not-false (seen_in current.text_theme themes) fits.theme_known));
        columns_fit =
            merged_fits outside_columns bad_columns current.grid_columns r.new_columns columns
              fits.columns_fit;
      }
