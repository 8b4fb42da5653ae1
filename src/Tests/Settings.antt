-- ===== src/Tests/Settings.antt =====
-- internal/domain/settings and its service: instances of the theorems, on a table with two users.
use golang_helloworld.Prelude.{
  All, Option, [], ap, false, if◌then◌else◌, ltb, none, refl, some, sym, true, ℕ, ◌∙◌, ◌∷◌, ◌≡◌,
}
use golang_helloworld.Settings.Rows.{
  CacheLaws, Table, get_settings-update_settings, update_settings-default_row,
}
use golang_helloworld.Settings.Service.{
  Cache, Context, Repository, fetch_settings_with_default, get_cache_key, get_settings, read_op,
  run, update_op, update_settings,
}
use golang_helloworld.Text.{Str, bytes, str_eq, str_eq_refl}
use golang_helloworld.Text.Decimal.{pos, ℤ}
use golang_helloworld.Faults.{Float}
use golang_helloworld.Settings.{
  AreSettings, UpdateSettingsRequest, UserSettings, apply_updates, default_settings,
  validate_update,
}
use golang_helloworld.Settings.Valid.{Fits, Holds, ReadFits, run-Fits}

-- Opacities in thousandths.
abbrev opacity : Float
opacity = record { Number = ℕ; less = ltb; zero_point = 0; one_point = 1000 }

-- The rows as a function of the user id.
abbrev Rows : Type 0
Rows = Str → Option (UserSettings opacity)

abbrev write_row : Option Str → UserSettings opacity → Rows → Rows
write_row none s rows u = rows u
write_row (some v) s rows u = if str_eq u v then some s else rows u

abbrev table : Repository opacity Rows
table = record {
  get_by_user_id = λ u rows. (some (rows u), rows);
  get_default = λ rows. (some (rows (bytes "default")), rows);
  upsert = λ s rows. (some s, write_row s.user_id s rows);
}

abbrev start_settings : UserSettings opacity
start_settings = default_settings opacity 400 (pos 0)

-- Ann has a row, and so has "default".
abbrev two_rows : Rows
two_rows u =
    if str_eq u (bytes "ann")
    then some (record start_settings { user_id = some (bytes "ann") })
    else if str_eq u (bytes "default")
    then some start_settings
    else none

abbrev dark_theme : Str → UpdateSettingsRequest opacity
dark_theme user = record {
  for_user = some user;
  new_image_id = none;
  new_image_url = none;
  new_style = none;
  new_opacity = none;
  new_font = none;
  new_theme = some (bytes "dark");
  new_show_tags = none;
  new_show_dimensions = none;
  new_show_content_type = none;
  new_columns = none;
}

abbrev at_noon : Rows → ℤ
at_noon rows = pos 12

abbrev ann_settings : UserSettings opacity
ann_settings = record start_settings { user_id = some (bytes "ann") }

abbrev service : Context opacity Rows
service = record { repo = table; cache = none; now = at_noon; forty_percent = 400 }

-- The rows, and the entries of the cache.
abbrev Both : Type 0
Both = Rows × Rows

abbrev cached_table : Repository opacity Both
cached_table = record {
  get_by_user_id = λ u w. (some (w.0 u), w);
  get_default = λ w. (some (w.0 (bytes "default")), w);
  upsert = λ s w. (some s, (write_row s.user_id s w.0, w.1));
}

abbrev memory : Cache opacity Both
memory = record {
  lookup = λ k w. (w.1 k, w);
  put = λ k s w. (w.0, write_row (some k) s w.1);
  remove = λ k w. (w.0, λ k'. if str_eq k' k then none else w.1 k');
}

abbrev cached_service : Context opacity Both
cached_service = record {
  repo = cached_table;
  cache = some memory;
  now = λ w. pos 12;
  forty_percent = 400;
}

abbrev rows_of : Both → Str → Option (UserSettings opacity)
rows_of w = w.0

abbrev entries_of : Both → Str → Option (UserSettings opacity)
entries_of w = w.1

rows_table : Table opacity cached_service rows_of entries_of
rows_table = record {
  user_reads = λ u w. refl;
  default_reads = λ d w h. rw h refl;
  upsert_writes = λ s r v w w' named h u.
      ap (λ p. p.1.0 u) (sym h)
      ∙ ap (λ o. write_row o s w.0 u) named
      ∙ ap (λ o. if str_eq u v then o else w.0 u) (ap (λ p. p.0) h);
}

memory-CacheLaws : CacheLaws opacity cached_service rows_of entries_of memory
memory-CacheLaws = record {
  lookup_reads = λ k w s e. e;
  lookup_keeps = λ k u w. refl;
  put_keeps = λ k u s w. refl;
  remove_keeps = λ k u w. refl;
  remove_empties = λ k w. rw (str_eq_refl k) refl;
}

-- The settings of ann are cached.
abbrev warm : Both
warm = (
  two_rows,
  λ k. if str_eq k (get_cache_key (some (bytes "ann"))) then some ann_settings else none,
)

abbrev darkened : UserSettings opacity → Str → UserSettings opacity
darkened s user = apply_updates opacity s (dark_theme user) (pos 12)

some-inj : {a b : UserSettings opacity} → some a ≡ some b → a ≡ b
some-inj e = cc

none-some : {a : UserSettings opacity} {P : Type 0} → none ≡ some a → P
none-some e = absurd (cc e)

abbrev after_dark : Str → Both
after_dark user = (update_settings opacity cached_service (dark_theme user) warm).1

get_settings-update_settings_example :
    let r = darkened ann_settings (bytes "ann") in
    (rows_of (after_dark (bytes "ann")) (bytes "ann") ≡ some r)
    × ((get_settings opacity cached_service (some (bytes "ann")) (after_dark (bytes "ann"))).0
        ≡ some r)
    × ((v : Str)
        → str_eq v (bytes "ann") ≡ false
        → rows_of (after_dark (bytes "ann")) v ≡ rows_of warm v)
unfolding str_eq update_settings get_settings fetch_settings_with_default validate_update
    apply_updates default_settings get_cache_key
get_settings-update_settings_example =
    get_settings-update_settings opacity cached_service rows_of entries_of rows_table
      memory-CacheLaws (bytes "ann") ann_settings (darkened ann_settings (bytes "ann"))
      (dark_theme (bytes "ann")) warm (after_dark (bytes "ann")) refl refl refl
      (λ t held. sym (some-inj held)) refl

update_settings-default_row_example :
    let r = darkened start_settings (bytes "bob") in
    (rows_of (after_dark (bytes "bob")) (bytes "default") ≡ some r)
    × (rows_of (after_dark (bytes "bob")) (bytes "bob") ≡ none)
    × ((get_settings opacity cached_service (some (bytes "bob")) (after_dark (bytes "bob"))).0
        ≡ some r)
unfolding str_eq update_settings get_settings fetch_settings_with_default validate_update
    apply_updates default_settings get_cache_key
update_settings-default_row_example =
    update_settings-default_row opacity cached_service rows_of entries_of rows_table
      memory-CacheLaws (bytes "bob") start_settings (darkened start_settings (bytes "bob"))
      (dark_theme (bytes "bob")) warm (after_dark (bytes "bob")) refl refl refl refl refl
      (λ t held. none-some held) refl

abbrev RowOk : Option (UserSettings opacity) → Type 0
RowOk none = Unit
RowOk (some s) = AreSettings opacity s

abbrev AllOk : Rows → Type 0
AllOk rows = (u : Str) → RowOk (rows u)

start_ok : AreSettings opacity start_settings
unfolding default_settings str_eq
start_ok = record {
  style_known = refl;
  opacity_fits = refl;
  theme_known = refl;
  columns_fit = refl;
}

no_rows : Rows
no_rows u = none

table_holds : Holds opacity service AllOk
table_holds = record {
  user_row_fits = λ u rows ok. found rows ok (rows u) (ok u);
  default_row_fits = λ rows ok. found rows ok (rows (bytes "default")) (ok (bytes "default"));
  upsert_fits = λ s rows fits ok. (fits, λ u. written s rows fits ok s.user_id u);
  cache_fits = tt;
  default_fits = refl;
}
  where
    found :
        (rows : Rows)
        → AllOk rows
        → (o : Option (UserSettings opacity)) → RowOk o
        → ReadFits opacity service AllOk (o, rows)
    found rows ok none row = ok
    found rows ok (some s) row = (row, ok)

    written :
        (s : UserSettings opacity) (rows : Rows)
        → AreSettings opacity s
        → AllOk rows
        → (o : Option Str) (u : Str) → RowOk (write_row o s rows u)
    written s rows fits ok none u = ok u
    written s rows fits ok (some v) u =
        elim (str_eq u v) as (λ b. RowOk (if b then some s else rows u)) [
          | true ↦ fits
          | false ↦ ok u
        ]

run-Fits_example :
    All
      (Fits opacity service)
      (run opacity service (update_op (dark_theme (bytes "ann")) ∷ read_op none ∷ []) no_rows).0
    × AllOk
        (run opacity service (update_op (dark_theme (bytes "ann")) ∷ read_op none ∷ []) no_rows).1
unfolding no_rows
run-Fits_example =
    run-Fits opacity service AllOk table_holds
      (update_op (dark_theme (bytes "ann")) ∷ read_op none ∷ []) no_rows (λ u. tt)
