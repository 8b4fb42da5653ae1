-- ===== src/Faults/Service.antt =====
-- internal/faults/service.go: the controls are read through a cache and saved behind Validate. `W`
-- is the state outside, a nil list of routes is an empty one, and the counter of lookups is left out.
use golang_helloworld.Prelude.{List, Option, [], none, refl, some, sym, ◌∙◌, ◌∷◌, ◌≡◌}
use golang_helloworld.Text.Decimal.{pos}
use golang_helloworld.Faults.{Controls, Field, Float, validate_controls}

-- What an update answers: the controls as saved, the fields that Validate refuses, or the error of
-- the repository.
pub data Updated {ℓ} (C : Type ℓ) : Type ℓ where
  saved : C → Updated C
  refused : List Field → Updated C
  not_saved : Updated C

module _ (fl : Float) where
  -- demo.Repository, where none is an error. The time of the last update, which the repository alone
  -- writes and no operation here reads, is left out of the controls.
  pub record Repository (W : Type 0) : Type 0 where
    pub load : W → Option (Controls fl) × W
    pub save : Controls fl → W → Option (Controls fl) × W

  -- The Cache interface, on its one key. A failed Set or Delete is ignored.
  pub record Cache (W : Type 0) : Type 0 where
    pub fetch : W → Option (Controls fl) × W
    pub put : Controls fl → W → W
    pub remove : W → W

  -- &demo.Controls{LatencyRoutes: []string{}}
  abbrev pub no_controls : Controls fl
  no_controls = record {
    latency_ms = pos 0;
    latency_probability = fl.zero_point;
    latency_routes = [];
    error_probability = fl.zero_point;
    slow_db_ms = pos 0;
    worker_failure_probability = fl.zero_point;
    worker_delay_ms = pos 0;
  }

  module _ {W : Type 0} (repo : Repository W) where
    -- The cache is warmed after a read that succeeded.
    abbrev pub warm : Option (Cache W) → Option (Controls fl) × W → Option (Controls fl) × W
    warm none answer = answer
    warm (some cache) (none, w) = (none, w)
    warm (some cache) (some c, w) = (some c, cache.put c w)

    abbrev pub miss_or_hit : Cache W → Option (Controls fl) × W → Option (Controls fl) × W
    miss_or_hit cache (some c, w) = (some c, w)
    miss_or_hit cache (none, w) = warm (some cache) (repo.load w)

    unfoldable pub get_controls : Option (Cache W) → W → Option (Controls fl) × W
    get_controls none w = repo.load w
    get_controls (some cache) w = miss_or_hit cache (cache.fetch w)

    abbrev pub forget : Option (Cache W) → W → W
    forget none w = w
    forget (some cache) w = cache.remove w

    abbrev pub answer_saved :
        Option (Cache W) → Option (Controls fl) × W → Updated (Controls fl) × W
    answer_saved cache (none, w) = (not_saved, w)
    answer_saved cache (some c, w) = (saved c, forget cache w)

    abbrev pub save_valid :
        Option (Cache W) → Controls fl → List Field → W → Updated (Controls fl) × W
    save_valid cache c [] w = answer_saved cache (repo.save c w)
    save_valid cache c (f ∷ fs) w = (refused (f ∷ fs), w)

    unfoldable pub update_controls : Option (Cache W) → Controls fl → W → Updated (Controls fl) × W
    update_controls cache c w = save_valid cache c (validate_controls fl c) w

    unfoldable pub reset_controls : Option (Cache W) → W → Updated (Controls fl) × W
    reset_controls cache w = update_controls cache no_controls w

    -- What the database and the cache hold: `row` the controls in the columns of the row, `entry` those
    -- cached. A column may round what it is given, which `columns` says; Save reads none of them back.
    pub record Holds (cache : Cache W) (columns : Controls fl → Controls fl) (row : W → Controls fl)
        (entry : W → Option (Controls fl)) : Type 0 where
      pub load_reads : (w : W) (c : Controls fl) → (repo.load w).0 ≡ some c → c ≡ row w
      pub load_keeps : (w : W) → (row (repo.load w).1 ≡ row w) × (entry (repo.load w).1 ≡ entry w)
      pub save_writes :
          (c d : Controls fl) (w : W)
          → (repo.save c w).0 ≡ some d
          → (d ≡ c) × (row (repo.save c w).1 ≡ columns c)
      pub fetch_reads : (w : W) (c : Controls fl) → (cache.fetch w).0 ≡ some c → entry w ≡ some c
      pub fetch_keeps :
          (w : W) → (row (cache.fetch w).1 ≡ row w) × (entry (cache.fetch w).1 ≡ entry w)
      pub remove_empties :
          (w : W) → (row (cache.remove w) ≡ row w) × (entry (cache.remove w) ≡ none)

    module _ (cache : Cache W) (columns : Controls fl → Controls fl) (row : W → Controls fl)
        (entry : W → Option (Controls fl)) (h : Holds cache columns row entry) where
      loaded_row :
          (c e : Controls fl) (w : W)
          → row w ≡ c
          → (warm (some cache) (repo.load w)).0 ≡ some e
          → e ≡ c
      loaded_row c e w here read = go (repo.load w) (h.load_reads w) read
        where
          go :
              (answer : Option (Controls fl) × W)
              → ((x : Controls fl) → answer.0 ≡ some x → x ≡ row w)
              → (warm (some cache) answer).0 ≡ some e
              → e ≡ c
          go (none, w') reads k = absurd (cc k)
          go (some x, w') reads k = reads e k ∙ here

      next_read :
          (c e : Controls fl) (w : W)
          → row w ≡ c
          → entry w ≡ none
          → (get_controls (some cache) w).0 ≡ some e
          → e ≡ c
      unfolding get_controls
      next_read c e w here empty read =
          go (cache.fetch w) (h.fetch_reads w) ((h.fetch_keeps w).0) read
        where
          go :
              (answer : Option (Controls fl) × W)
              → ((x : Controls fl) → answer.0 ≡ some x → entry w ≡ some x)
              → row answer.1 ≡ row w
              → (miss_or_hit cache answer).0 ≡ some e
              → e ≡ c
          go (some x, w') reads kept k = absurd (cc (empty, reads x refl))
          go (none, w') reads kept k = loaded_row c e w' (kept ∙ here) k

      -- Once an update is saved, its answer is what was asked for, and a read that succeeds next gives
      -- what the columns of the row made of that, rounded as they may be, and not what the cache held
      -- before. It takes that the repository reads the row that it saved, that the cache gives what
      -- it holds, and that the removal of the entry works.
      pub get_controls-update_controls :
          (c d : Controls fl) (w : W)
          → (update_controls (some cache) c w).0 ≡ saved d
          → let w' = (update_controls (some cache) c w).1 in
            (d ≡ c)
            × ((e : Controls fl) → (get_controls (some cache) w').0 ≡ some e → e ≡ columns c)
      unfolding update_controls
      get_controls-update_controls c d w = go (validate_controls fl c)
        where
          saved-inj : {x y : Controls fl} → saved x ≡ saved y → x ≡ y
          saved-inj e = cc

          stored :
              (answer : Option (Controls fl) × W)
              → ((x : Controls fl) → answer.0 ≡ some x → (x ≡ c) × (row answer.1 ≡ columns c))
              → (answer_saved (some cache) answer).0 ≡ saved d
              → (d ≡ c)
                × ((e : Controls fl)
                    → (get_controls (some cache) (answer_saved (some cache) answer).1).0 ≡ some e
                    → e ≡ columns c)
          stored (none, w') writes k = absurd (cc k)
          stored (some x, w') writes k =
              let (same, now) = writes x refl in
              let (kept, empty) = h.remove_empties w' in
              (
                sym (saved-inj k) ∙ same,
                λ e. next_read (columns c) e (cache.remove w') (kept ∙ now) empty,
              )

          go :
              (fs : List Field)
              → (save_valid (some cache) c fs w).0 ≡ saved d
              → (d ≡ c)
                × ((e : Controls fl)
                    → (get_controls (some cache) (save_valid (some cache) c fs w).1).0 ≡ some e
                    → e ≡ columns c)
          go (f ∷ fs) k = absurd (cc k)
          go [] k = stored (repo.save c w) (λ x. h.save_writes c x w) k
