-- ===== src/Settings/Rows.antt =====
-- internal/services/implementations/settings_service.go: whose row an update writes, and what is read
-- then, with a cache or without one.
use golang_helloworld.Prelude.{
  Option, ap, false, if◌then◌else◌, none, refl, some, subst, sym, ◌∙◌, ◌≡◌,
}
use golang_helloworld.Text.{Str, bytes, str_eq, str_eq_refl}
use golang_helloworld.Faults.{Float}
use golang_helloworld.Settings.{
  Refusal, UpdateSettingsRequest, UserSettings, apply_updates, validate_update,
}
use golang_helloworld.Settings.Service.{
  Cache, Context, after_upsert, cache_settings, fetch_settings_with_default, get_cache_key,
  get_settings, given, hit_or_fetch, invalidate, merge_into, or_default_row, read_through,
  update_accepted, update_settings,
}

module _ (fl : Float) {W : Type 0} (cx : Context fl W) (rows : W → Str → Option (UserSettings fl))
    (entries : W → Str → Option (UserSettings fl)) where
  -- The rows under their user ids, as the statements of settings_repository.go read and write them.
  pub record Table : Type 0 where
    pub user_reads : (u : Str) (w : W) → cx.repo.get_by_user_id u w ≡ (some (rows w u), w)
    pub default_reads :
        (d : UserSettings fl) (w : W)
        → rows w (bytes "default") ≡ some d
        → cx.repo.get_default w ≡ (some (some d), w)
    pub upsert_writes :
        (s r : UserSettings fl) (v : Str) (w w' : W)
        → s.user_id ≡ some v
        → cx.repo.upsert s w ≡ (some r, w')
        → (u : Str) → rows w' u ≡ (if str_eq u v then some r else rows w u)

  -- The entries of a cache under their keys: a hit gives the entry, a removal leaves none, and no call
  -- writes to a row.
  pub record CacheLaws (c : Cache fl W) : Type 0 where
    pub lookup_reads :
        (k : Str) (w : W) (s : UserSettings fl) → (c.lookup k w).0 ≡ some s → entries w k ≡ some s
    pub lookup_keeps : (k u : Str) (w : W) → rows (c.lookup k w).1 u ≡ rows w u
    pub put_keeps : (k u : Str) (s : UserSettings fl) (w : W) → rows (c.put k s w) u ≡ rows w u
    pub remove_keeps : (k u : Str) (w : W) → rows (c.remove k w) u ≡ rows w u
    pub remove_empties : (k : Str) (w : W) → entries (c.remove k w) k ≡ none

  abbrev pub LawsOf : Option (Cache fl W) → Type 0
  LawsOf none = Unit
  LawsOf (some c) = CacheLaws c

  -- Nothing else than `s` is cached for the user.
  abbrev pub IsFresh : Option (Cache fl W) → Str → UserSettings fl → W → Type 0
  IsFresh none u s w = Unit
  IsFresh (some c) u s w =
      (t : UserSettings fl) → entries w (get_cache_key (some u)) ≡ some t → t ≡ s

  -- What an answer says, and that it left the rows alone.
  abbrev Reads : UserSettings fl → W → Option (UserSettings fl) × W → Type 0
  Reads s w answer = (answer.0 ≡ some s) × ((v : Str) → rows answer.1 v ≡ rows w v)

  -- Where the repository gives `s`, so does a read through the cache.
  read_through-Reads :
      (cache : Option (Cache fl W))
      → LawsOf cache
      → (u : Str) (s : UserSettings fl) (w : W)
      → ((w1 : W)
          → ((v : Str) → rows w1 v ≡ rows w v)
          → fetch_settings_with_default fl cx (some u) w1 ≡ (some s, w1))
      → IsFresh cache u s w
      → Reads s w (read_through fl cx cache (some u) w)
  read_through-Reads none laws u s w fetches fresh =
      let e = fetches w (λ v. refl) in (ap (λ a. a.0) e, λ v. ap (λ a. rows a.1 v) e)
  read_through-Reads (some c) laws u s w fetches fresh =
      looked (c.lookup (get_cache_key (some u)) w) (laws.lookup_reads (get_cache_key (some u)) w)
        (λ v. laws.lookup_keeps (get_cache_key (some u)) v w)
    where
      looked :
          (answer : Option (UserSettings fl) × W)
          → ((t : UserSettings fl)
              → answer.0 ≡ some t
              → entries w (get_cache_key (some u)) ≡ some t)
          → ((v : Str) → rows answer.1 v ≡ rows w v)
          → Reads s w (hit_or_fetch fl cx c (some u) answer)
      looked (some t, w1) held kept = (ap some (fresh t (held t refl)), kept)
      looked (none, w1) held kept =
          subst (λ a. Reads s w (cache_settings fl cx c (some u) a)) (sym (fetches w1 kept))
            (refl, λ v. laws.put_keeps (get_cache_key (some u)) v s w1 ∙ kept v)

  invalidate-rows :
      (cache : Option (Cache fl W))
      → LawsOf cache
      → (u v : Str) (w : W) → rows (invalidate fl cx cache (some u) w) v ≡ rows w v
  invalidate-rows none laws u v w = refl
  invalidate-rows (some c) laws u v w = laws.remove_keeps (get_cache_key (some u)) v w

  invalidate-IsFresh :
      (cache : Option (Cache fl W))
      → LawsOf cache
      → (u : Str) (s : UserSettings fl) (w : W)
      → IsFresh cache u s (invalidate fl cx cache (some u) w)
  invalidate-IsFresh none laws u s w = tt
  invalidate-IsFresh (some c) laws u s w =
      λ t held. absurd (cc (held, laws.remove_empties (get_cache_key (some u)) w))

  -- What an answered update did: it wrote the merge of `s` and the request, and then forgot the entry.
  abbrev Wrote : UpdateSettingsRequest fl → UserSettings fl → UserSettings fl → W → W → Type 0
  Wrote req s r w1 w' =
      (w2 : W) × (cx.repo.upsert (apply_updates fl s req (cx.now w1)) w1 ≡ (some r, w2))
      × (w' ≡ invalidate fl cx cx.cache req.for_user w2)

  after_upsert-given :
      (user : Option Str) (answer : Option (UserSettings fl) × W) (r : UserSettings fl) (w' : W)
      → after_upsert fl cx user answer ≡ (given r, w')
      → (w2 : W) × (answer ≡ (some r, w2)) × (w' ≡ invalidate fl cx cx.cache user w2)
  after_upsert-given user (none, w) r w' h = absurd (cc (ap (λ p. p.0) h))
  after_upsert-given user (some s, w) r w' h =
      let same : s ≡ r = given-inj (ap (λ p. p.0) h) in
      (w, λ i. (some (same i), w), sym (ap (λ p. p.1) h))
    where
      given-inj : {a b : UserSettings fl} → given a ≡ given b → a ≡ b
      given-inj e = cc

  merge_into-Wrote :
      (req : UpdateSettingsRequest fl) (s r : UserSettings fl) (w' : W)
      (answer : Option (UserSettings fl) × W)
      → answer.0 ≡ some s
      → merge_into fl cx req answer ≡ (given r, w')
      → Wrote req s r answer.1 w'
  merge_into-Wrote req s r w' (none, w1) read h = absurd (cc read)
  merge_into-Wrote req s r w' (some t, w1) read h =
      subst (λ c. Wrote req c r w1 w') (some-inj read)
        (after_upsert-given req.for_user (cx.repo.upsert (apply_updates fl t req (cx.now w1)) w1) r
          w' h)
    where
      some-inj : {a b : UserSettings fl} → some a ≡ some b → a ≡ b
      some-inj e = cc

  update_accepted-Wrote :
      (req : UpdateSettingsRequest fl) (refusal : Option Refusal) (s r : UserSettings fl) (w w' : W)
      → (get_settings fl cx req.for_user w).0 ≡ some s
      → update_accepted fl cx req refusal w ≡ (given r, w')
      → Wrote req s r (get_settings fl cx req.for_user w).1 w'
  unfolding get_settings
  update_accepted-Wrote req (some e) s r w w' read h = absurd (cc (ap (λ p. p.0) h))
  update_accepted-Wrote req none s r w w' read h =
      merge_into-Wrote req s r w' (read_through fl cx cx.cache req.for_user w) read h

  module _ (t : Table) (laws : LawsOf cx.cache) where
    fetch_own :
        (u : Str) (s : UserSettings fl) (w : W)
        → rows w u ≡ some s
        → fetch_settings_with_default fl cx (some u) w ≡ (some s, w)
    unfolding fetch_settings_with_default
    fetch_own u s w own = ap (or_default_row fl cx) (t.user_reads u w) ∙ rw own refl

    fetch_default :
        (u : Str) (d : UserSettings fl) (w : W)
        → rows w u ≡ none
        → rows w (bytes "default") ≡ some d
        → fetch_settings_with_default fl cx (some u) w ≡ (some d, w)
    unfolding fetch_settings_with_default
    fetch_default u d w missing held =
        ap (or_default_row fl cx) (t.user_reads u w) ∙ rw (missing, t.default_reads d w held) refl

    read_own :
        (u : Str) (s : UserSettings fl) (w : W)
        → rows w u ≡ some s
        → IsFresh cx.cache u s w
        → Reads s w (get_settings fl cx (some u) w)
    unfolding get_settings
    read_own u s w own =
        read_through-Reads cx.cache laws u s w (λ w1 same. fetch_own u s w1 (same u ∙ own))

    read_default :
        (u : Str) (d : UserSettings fl) (w : W)
        → rows w u ≡ none
        → rows w (bytes "default") ≡ some d
        → IsFresh cx.cache u d w
        → Reads d w (get_settings fl cx (some u) w)
    unfolding get_settings
    read_default u d w missing held =
        read_through-Reads cx.cache laws u d w
          (λ w1 same. fetch_default u d w1 (same u ∙ missing) (same (bytes "default") ∙ held))

    -- The rows after an update of `u` that found `s`, whose user id is `v`.
    written_rows :
        (req : UpdateSettingsRequest fl) (u v : Str) (s r : UserSettings fl) (w w' : W)
        → s.user_id ≡ some v
        → req.for_user ≡ some u
        → Reads s w (get_settings fl cx (some u) w)
        → update_settings fl cx req w ≡ (given r, w')
        → ((x : Str) → rows w' x ≡ (if str_eq x v then some r else rows w x))
          × IsFresh cx.cache u r w'
    unfolding get_settings update_settings apply_updates
    written_rows req u v s r w w' named same read h =
        let after = read_through fl cx cx.cache (some u) w in
        let read' : (get_settings fl cx req.for_user w).0 ≡ some s =
          ap (λ o. (read_through fl cx cx.cache o w).0) same ∙ read.0 in
        let (w2, wrote, forgot) =
          update_accepted-Wrote req (validate_update fl req) s r w w' read' h in
        let kept =
          λ (x : Str). ap (λ o. rows (read_through fl cx cx.cache o w).1 x) same ∙ read.1 x in
        let end : w' ≡ invalidate fl cx cx.cache (some u) w2 =
          forgot ∙ ap (λ o. invalidate fl cx cx.cache o w2) same in
        let written =
          t.upsert_writes
            (apply_updates fl s req (cx.now (read_through fl cx cx.cache req.for_user w).1)) r v
            (read_through fl cx cx.cache req.for_user w).1 w2 named wrote in
        (
          λ x.
              ap (λ z. rows z x) end
              ∙ invalidate-rows cx.cache laws u x w2
              ∙ written x
              ∙ ap (λ o. if str_eq x v then some r else o) (kept x),
          subst (IsFresh cx.cache u r) (sym end) (invalidate-IsFresh cx.cache laws u r w2),
        )

    -- An update that is answered with settings, by a user with a row of its own, leaves just these
    -- settings in that row, and the next read gives them, be there a cache or not; it leaves all
    -- other rows alone. It takes that the repository reads and writes rows by their user id, that the
    -- removal of a cached entry works, and that nothing but the row is cached for the user before.
    pub get_settings-update_settings :
        (u : Str) (s r : UserSettings fl) (req : UpdateSettingsRequest fl) (w w' : W)
        → rows w u ≡ some s
        → s.user_id ≡ some u
        → req.for_user ≡ some u
        → IsFresh cx.cache u s w
        → update_settings fl cx req w ≡ (given r, w')
        → (rows w' u ≡ some r)
          × ((get_settings fl cx (some u) w').0 ≡ some r)
          × ((v : Str) → str_eq v u ≡ false → rows w' v ≡ rows w v)
    get_settings-update_settings u s r req w w' own named same fresh h =
        let (written, fresh') =
          written_rows req u u s r w w' named same (read_own u s w own fresh) h in
        let mine = written u ∙ rw (str_eq_refl u) refl in
        (mine, (read_own u r w' mine fresh').0, λ v apart. written v ∙ rw apart refl)

    -- An update that is answered with settings, by a user without a row, is written to the default
    -- row that all such users read, be there a cache or not; the user still has no row, and reads
    -- the default row next. It takes that the repository reads and writes rows by their user id,
    -- that the removal of a cached entry works, and that nothing but the default row is cached for
    -- the user before.
    pub update_settings-default_row :
        (u : Str) (d r : UserSettings fl) (req : UpdateSettingsRequest fl) (w w' : W)
        → rows w u ≡ none
        → str_eq u (bytes "default") ≡ false
        → rows w (bytes "default") ≡ some d
        → d.user_id ≡ some (bytes "default")
        → req.for_user ≡ some u
        → IsFresh cx.cache u d w
        → update_settings fl cx req w ≡ (given r, w')
        → (rows w' (bytes "default") ≡ some r)
          × (rows w' u ≡ none)
          × ((get_settings fl cx (some u) w').0 ≡ some r)
    update_settings-default_row u d r req w w' missing apart held named same fresh h =
        let (written, fresh') =
          written_rows req u (bytes "default") d r w w' named same
            (read_default u d w missing held fresh) h in
        let still = written u ∙ rw apart missing in
        let now = written (bytes "default") ∙ rw (str_eq_refl (bytes "default")) refl in
        (now, still, (read_default u r w' still now fresh').0)
