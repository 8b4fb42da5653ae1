-- ===== src/Settings/Valid.antt =====
-- internal/services/implementations/settings_service.go: whatever is asked of the service, the
-- settings that are stored, cached and answered fit.
use golang_helloworld.Prelude.{All, List, Option, [], false, none, refl, some, ◌∷◌, ◌≡◌}
use golang_helloworld.Text.{Str, str_eq}
use golang_helloworld.Faults.{Float}
use golang_helloworld.Settings.{
  AreSettings, Refusal, UpdateSettingsRequest, UserSettings, apply_updates,
  apply_updates-AreSettings, default_settings, outside_unit, validate_update,
}
use golang_helloworld.Settings.Service.{
  Answer, Cache, Context, Operation, after_upsert, answer_read, cache_settings, failed,
  fetch_settings_with_default, get_cache_key, get_settings, given, hit_or_fetch, invalidate,
  merge_into, or_default_row, or_programmatic, perform, read_op, read_through, refused, reset_op,
  reset_settings, run, update_accepted, update_op, update_settings,
}

module _ (fl : Float) {W : Type 0} (cx : Context fl W) where
  abbrev pub Fits : Answer (UserSettings fl) → Type 0
  Fits (given s) = AreSettings fl s
  Fits (refused e) = Unit
  Fits failed = Unit

  abbrev pub ReadFits : (W → Type 0) → Option (UserSettings fl) × W → Type 0
  ReadFits Inv (none, w) = Inv w
  ReadFits Inv (some s, w) = AreSettings fl s × Inv w

  abbrev pub RowFits : (W → Type 0) → Option (Option (UserSettings fl)) × W → Type 0
  RowFits Inv (none, w) = Inv w
  RowFits Inv (some o, w) = ReadFits Inv (o, w)

  -- What `Inv` says of the database and the cache: they hold settings that fit, give back what
  -- they hold, and go on so when they are given settings that fit.
  pub record CacheHolds (Inv : W → Type 0) (c : Cache fl W) : Type 0 where
    pub lookup_fits : (key : Str) (w : W) → Inv w → ReadFits Inv (c.lookup key w)
    pub put_fits :
        (key : Str) (s : UserSettings fl) (w : W) → AreSettings fl s → Inv w → Inv (c.put key s w)
    pub remove_fits : (key : Str) (w : W) → Inv w → Inv (c.remove key w)

  abbrev pub CacheFits : (W → Type 0) → Option (Cache fl W) → Type 0
  CacheFits Inv none = Unit
  CacheFits Inv (some c) = CacheHolds Inv c

  pub record Holds (Inv : W → Type 0) : Type 0 where
    pub user_row_fits : (user : Str) (w : W) → Inv w → RowFits Inv (cx.repo.get_by_user_id user w)
    pub default_row_fits : (w : W) → Inv w → RowFits Inv (cx.repo.get_default w)
    pub upsert_fits :
        (s : UserSettings fl) (w : W) → AreSettings fl s → Inv w → ReadFits Inv (cx.repo.upsert s w)
    pub cache_fits : CacheFits Inv cx.cache
    pub default_fits : outside_unit fl cx.forty_percent ≡ false

  module _ (Inv : W → Type 0) (h : Holds Inv) where
    default_settings-AreSettings :
        (now : _) → AreSettings fl (default_settings fl cx.forty_percent now)
    unfolding default_settings str_eq
    default_settings-AreSettings now = record {
      style_known = refl;
      opacity_fits = h.default_fits;
      theme_known = refl;
      columns_fit = refl;
    }

    or_programmatic_fits :
        (answer : Option (Option (UserSettings fl)) × W)
        → RowFits Inv answer
        → ReadFits Inv (or_programmatic fl cx answer)
    or_programmatic_fits (none, w) kept = kept
    or_programmatic_fits (some none, w) kept = (default_settings-AreSettings (cx.now w), kept)
    or_programmatic_fits (some (some s), w) kept = kept

    or_default_row_fits :
        (answer : Option (Option (UserSettings fl)) × W)
        → RowFits Inv answer
        → ReadFits Inv (or_default_row fl cx answer)
    or_default_row_fits (none, w) kept = kept
    or_default_row_fits (some none, w) kept =
        or_programmatic_fits (cx.repo.get_default w) (h.default_row_fits w kept)
    or_default_row_fits (some (some s), w) kept = kept

    fetch_fits :
        (user : Option Str) (w : W)
        → Inv w
        → ReadFits Inv (fetch_settings_with_default fl cx user w)
    unfolding fetch_settings_with_default
    fetch_fits none w kept =
        or_programmatic_fits (cx.repo.get_default w) (h.default_row_fits w kept)
    fetch_fits (some user) w kept =
        or_default_row_fits (cx.repo.get_by_user_id user w) (h.user_row_fits user w kept)

    cache_settings_fits :
        (c : Cache fl W)
        → CacheHolds Inv c
        → (user : Option Str) (answer : Option (UserSettings fl) × W) → ReadFits Inv answer
        → ReadFits Inv (cache_settings fl cx c user answer)
    cache_settings_fits c hc user (none, w) kept = kept
    cache_settings_fits c hc user (some s, w) (fits, kept) =
        (fits, hc.put_fits (get_cache_key user) s w fits kept)

    hit_or_fetch_fits :
        (c : Cache fl W)
        → CacheHolds Inv c
        → (user : Option Str) (answer : Option (UserSettings fl) × W) → ReadFits Inv answer
        → ReadFits Inv (hit_or_fetch fl cx c user answer)
    hit_or_fetch_fits c hc user (some s, w) kept = kept
    hit_or_fetch_fits c hc user (none, w) kept =
        cache_settings_fits c hc user (fetch_settings_with_default fl cx user w)
          (fetch_fits user w kept)

    read_through_fits :
        (o : Option (Cache fl W))
        → CacheFits Inv o
        → (user : Option Str) (w : W) → Inv w
        → ReadFits Inv (read_through fl cx o user w)
    read_through_fits none hc user w kept = fetch_fits user w kept
    read_through_fits (some c) hc user w kept =
        hit_or_fetch_fits c hc user (c.lookup (get_cache_key user) w)
          (hc.lookup_fits (get_cache_key user) w kept)

    invalidate_keeps :
        (o : Option (Cache fl W))
        → CacheFits Inv o
        → (user : Option Str) (w : W) → Inv w
        → Inv (invalidate fl cx o user w)
    invalidate_keeps none hc user w kept = kept
    invalidate_keeps (some c) hc user w kept = hc.remove_fits (get_cache_key user) w kept

    abbrev pub AnswerFits : Answer (UserSettings fl) × W → Type 0
    AnswerFits (answer, w) = Fits answer × Inv w

    after_upsert_fits :
        (user : Option Str) (answer : Option (UserSettings fl) × W)
        → ReadFits Inv answer
        → AnswerFits (after_upsert fl cx user answer)
    after_upsert_fits user (none, w) kept = (tt, kept)
    after_upsert_fits user (some s, w) (fits, kept) =
        (fits, invalidate_keeps cx.cache h.cache_fits user w kept)

    merge_into_fits :
        (r : UpdateSettingsRequest fl)
        → validate_update fl r ≡ none
        → (answer : Option (UserSettings fl) × W) → ReadFits Inv answer
        → AnswerFits (merge_into fl cx r answer)
    merge_into_fits r valid (none, w) kept = (tt, kept)
    merge_into_fits r valid (some current, w) (fits, kept) =
        let updated = apply_updates fl current r (cx.now w) in
        after_upsert_fits r.for_user (cx.repo.upsert updated w) (
          h.upsert_fits updated w (apply_updates-AreSettings fl current r (cx.now w) valid fits)
            kept)

    answer_read_fits :
        (answer : Option (UserSettings fl) × W)
        → ReadFits Inv answer
        → AnswerFits (answer_read fl cx answer)
    answer_read_fits (none, w) kept = (tt, kept)
    answer_read_fits (some s, w) kept = kept

    get_settings_fits :
        (user : Option Str) (w : W) → Inv w → ReadFits Inv (get_settings fl cx user w)
    unfolding get_settings
    get_settings_fits user w kept = read_through_fits cx.cache h.cache_fits user w kept

    update_accepted_fits :
        (r : UpdateSettingsRequest fl) (refusal : Option Refusal)
        → validate_update fl r ≡ refusal
        → (w : W) → Inv w
        → AnswerFits (update_accepted fl cx r refusal w)
    update_accepted_fits r (some e) valid w kept = (tt, kept)
    update_accepted_fits r none valid w kept =
        merge_into_fits r valid (get_settings fl cx r.for_user w)
          (get_settings_fits r.for_user w kept)

    reset_settings_fits :
        (user : Option Str) (w : W) → Inv w → AnswerFits (reset_settings fl cx user w)
    unfolding reset_settings
    reset_settings_fits user w kept =
        let fits = default_settings-AreSettings (cx.now w) in
        let own : UserSettings fl = record (default_settings fl cx.forty_percent (cx.now w)) {
          user_id = user;
        } in
        let own_fits : AreSettings fl own = record {
          style_known = fits.style_known;
          opacity_fits = fits.opacity_fits;
          theme_known = fits.theme_known;
          columns_fit = fits.columns_fit;
        } in
        after_upsert_fits user (cx.repo.upsert own w) (h.upsert_fits own w own_fits kept)

    perform_fits : (op : Operation fl cx) (w : W) → Inv w → AnswerFits (perform fl cx op w)
    unfolding perform update_settings
    perform_fits (read_op user) w kept =
        answer_read_fits (get_settings fl cx user w) (get_settings_fits user w kept)
    perform_fits (update_op r) w kept = update_accepted_fits r (validate_update fl r) refl w kept
    perform_fits (reset_op user) w kept = reset_settings_fits user w kept

    -- While the settings page is used, in any order of reads, updates and resets, every answer that
    -- holds settings holds a known style and theme, an opacity from 0 to 1 and 2 to 6 columns, and
    -- what is stored and cached goes on to fit: if it did before, and `Inv` says so of the database
    -- and the cache.
    pub run-Fits :
        (ops : List (Operation fl cx)) (w : W)
        → Inv w
        → All Fits (run fl cx ops w).0 × Inv (run fl cx ops w).1
    unfolding run
    run-Fits [] w kept = (tt, kept)
    run-Fits (op ∷ ops) w kept =
        let (fits, kept1) = perform_fits op w kept in
        let (rest, kept2) = run-Fits ops (perform fl cx op w).1 kept1 in ((fits, rest), kept2)
