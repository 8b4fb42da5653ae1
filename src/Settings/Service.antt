-- ===== src/Settings/Service.antt =====
-- internal/services/implementations/settings_service.go: settings are read through a cache, and
-- updated by a merge into what a read gives. `W` is the state outside; errors are kept without their
-- text, and the counters and spans are left out. A request is not nil.
use golang_helloworld.Prelude.{List, Option, [], none, some, ◌++◌, ◌∷◌}
use golang_helloworld.Text.{Str, bytes}
use golang_helloworld.Text.Decimal.{ℤ}
use golang_helloworld.Faults.{Float}
use golang_helloworld.Settings.{
  Refusal, UpdateSettingsRequest, UserSettings, apply_updates, default_settings, validate_update,
}

pub data Answer {ℓ} (S : Type ℓ) : Type ℓ where
  given : S → Answer S
  refused : Refusal → Answer S
  failed : Answer S

-- getCacheKey
unfoldable pub get_cache_key : Option Str → Str
get_cache_key none = bytes "settings:" ++ bytes "default"
get_cache_key (some user) = bytes "settings:" ++ user

module _ (fl : Float) where
  -- settings.Repository as the service uses it. The outer none is an error, the inner one no row.
  pub record Repository (W : Type 0) : Type 0 where
    pub get_by_user_id : Str → W → Option (Option (UserSettings fl)) × W
    pub get_default : W → Option (Option (UserSettings fl)) × W
    pub upsert : UserSettings fl → W → Option (UserSettings fl) × W

  -- The cache under a key. A failed write or removal is ignored.
  pub record Cache (W : Type 0) : Type 0 where
    pub lookup : Str → W → Option (UserSettings fl) × W
    pub put : Str → UserSettings fl → W → W
    pub remove : Str → W → W

  pub record Context (W : Type 0) : Type 0 where
    pub repo : Repository W
    pub cache : Option (Cache W)
    pub now : W → ℤ
    pub forty_percent : fl.Number

  module _ {W : Type 0} (cx : Context W) where
    abbrev pub or_programmatic :
        Option (Option (UserSettings fl)) × W → Option (UserSettings fl) × W
    or_programmatic (none, w) = (none, w)
    or_programmatic (some none, w) = (some (default_settings fl cx.forty_percent (cx.now w)), w)
    or_programmatic (some (some s), w) = (some s, w)

    abbrev pub or_default_row : Option (Option (UserSettings fl)) × W → Option (UserSettings fl) × W
    or_default_row (none, w) = (none, w)
    or_default_row (some none, w) = or_programmatic (cx.repo.get_default w)
    or_default_row (some (some s), w) = (some s, w)

    unfoldable pub fetch_settings_with_default : Option Str → W → Option (UserSettings fl) × W
    fetch_settings_with_default none w = or_programmatic (cx.repo.get_default w)
    fetch_settings_with_default (some user) w = or_default_row (cx.repo.get_by_user_id user w)

    abbrev pub cache_settings :
        Cache W → Option Str → Option (UserSettings fl) × W → Option (UserSettings fl) × W
    cache_settings c user (none, w) = (none, w)
    cache_settings c user (some s, w) = (some s, c.put (get_cache_key user) s w)

    abbrev pub hit_or_fetch :
        Cache W → Option Str → Option (UserSettings fl) × W → Option (UserSettings fl) × W
    hit_or_fetch c user (some s, w) = (some s, w)
    hit_or_fetch c user (none, w) = cache_settings c user (fetch_settings_with_default user w)

    abbrev pub read_through : Option (Cache W) → Option Str → W → Option (UserSettings fl) × W
    read_through none user w = fetch_settings_with_default user w
    read_through (some c) user w = hit_or_fetch c user (c.lookup (get_cache_key user) w)

    unfoldable pub get_settings : Option Str → W → Option (UserSettings fl) × W
    get_settings user w = read_through cx.cache user w

    abbrev pub invalidate : Option (Cache W) → Option Str → W → W
    invalidate none user w = w
    invalidate (some c) user w = c.remove (get_cache_key user) w

    abbrev pub after_upsert :
        Option Str → Option (UserSettings fl) × W → Answer (UserSettings fl) × W
    after_upsert user (none, w) = (failed, w)
    after_upsert user (some s, w) = (given s, invalidate cx.cache user w)

    abbrev pub merge_into :
        UpdateSettingsRequest fl → Option (UserSettings fl) × W → Answer (UserSettings fl) × W
    merge_into r (none, w) = (failed, w)
    merge_into r (some current, w) =
        after_upsert r.for_user (cx.repo.upsert (apply_updates fl current r (cx.now w)) w)

    abbrev pub update_accepted :
        UpdateSettingsRequest fl → Option Refusal → W → Answer (UserSettings fl) × W
    update_accepted r (some e) w = (refused e, w)
    update_accepted r none w = merge_into r (get_settings r.for_user w)

    unfoldable pub update_settings : UpdateSettingsRequest fl → W → Answer (UserSettings fl) × W
    unfolding get_settings
    update_settings r w = update_accepted r (validate_update fl r) w

    unfoldable pub reset_settings : Option Str → W → Answer (UserSettings fl) × W
    reset_settings user w =
        let defaults = default_settings fl cx.forty_percent (cx.now w) in
        after_upsert user (cx.repo.upsert (record defaults { user_id = user }) w)

    abbrev pub answer_read : Option (UserSettings fl) × W → Answer (UserSettings fl) × W
    answer_read (none, w) = (failed, w)
    answer_read (some s, w) = (given s, w)

    -- One request of the settings page.
    pub data Operation : Type 0 where
      read_op : Option Str → Operation
      update_op : UpdateSettingsRequest fl → Operation
      reset_op : Option Str → Operation

    unfoldable pub perform : Operation → W → Answer (UserSettings fl) × W
    unfolding get_settings update_settings reset_settings
    perform (read_op user) w = answer_read (get_settings user w)
    perform (update_op r) w = update_settings r w
    perform (reset_op user) w = reset_settings user w

    -- Requests one after the other, with their answers.
    unfoldable pub run : List Operation → W → List (Answer (UserSettings fl)) × W
    unfolding perform
    run [] w = ([], w)
    run (op ∷ ops) w =
        let (answer, w1) = perform op w in let (answers, w2) = run ops w1 in (answer ∷ answers, w2)
