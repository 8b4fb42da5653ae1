-- ===== src/Faults.antt =====
-- internal/domain/demo and internal/faults: the demo controls, the service that keeps them, and the
-- injector that draws faults from them. A float64 is what `Float` says it is.
pub mod Service
pub mod Injector
pub mod Requests
pub mod Budget
use golang_helloworld.Prelude.{
  All, Bool, List, Option, [], arith, false, none, refl, some, true, ℕ, ◌&&◌, ◌||◌, ◌↔◌, ◌∷◌, ◌≡◌,
  ◌≤◌,
}
use golang_helloworld.Text.{Str}
use golang_helloworld.Text.Search.{has_prefix}
use golang_helloworld.Text.Decimal.{negsuc, pos, ℤ}
use golang_helloworld.Domain.{above, below, refuse_if}

-- What the code does with float64 numbers.
pub record Float : Type 1 where
  pub Number : Type 0
  pub less : Number → Number → Bool
  pub zero_point : Number
  pub one_point : Number

-- The fields that Validate may name.
pub data Field : Type 0 where
  latency_ms_field latency_probability_field error_probability_field : Field
  slow_db_ms_field worker_failure_probability_field worker_delay_ms_field : Field

abbrev pub max_worker_delay_ms : ℕ
max_worker_delay_ms = 10_000

abbrev pub max_delay_ms : ℕ
max_delay_ms = 30_000

-- errors.Join, without the nils.
abbrev pub join {ℓ} : {E : Type ℓ} → List (Option E) → List E
join [] = []
join (none ∷ es) = join es
join (some e ∷ es) = e ∷ join es

abbrev pub any_prefix : Str → List Str → Bool
any_prefix path [] = false
any_prefix path (p ∷ ps) = has_prefix path p || any_prefix path ps

abbrev pub matches_route : Str → List Str → Bool
matches_route path [] = true
matches_route path (p ∷ ps) = any_prefix path (p ∷ ps)

module _ (fl : Float) where
  pub record Controls : Type 0 where
    pub latency_ms : ℤ
    pub latency_probability : fl.Number
    pub latency_routes : List Str
    pub error_probability : fl.Number
    pub slow_db_ms : ℤ
    pub worker_failure_probability : fl.Number
    pub worker_delay_ms : ℤ

  abbrev pub check_probability : Field → fl.Number → Option Field
  check_probability name p = refuse_if (fl.less p fl.zero_point || fl.less fl.one_point p) name

  abbrev pub check_ms : Field → ℤ → ℕ → Option Field
  check_ms name v bound = refuse_if (below v 0 || above v bound) name

  abbrev pub control_checks : Controls → List (Option Field)
  control_checks c =
      check_ms latency_ms_field c.latency_ms max_delay_ms
      ∷ check_probability latency_probability_field c.latency_probability
      ∷ check_probability error_probability_field c.error_probability
      ∷ check_ms slow_db_ms_field c.slow_db_ms max_delay_ms
      ∷ check_probability worker_failure_probability_field c.worker_failure_probability
      ∷ check_ms worker_delay_ms_field c.worker_delay_ms max_worker_delay_ms
      ∷ []

  unfoldable pub validate_controls : Controls → List Field
  validate_controls c = join (control_checks c)

  unfoldable pub active : Controls → Bool
  active c =
      (above c.latency_ms 0 && fl.less fl.zero_point c.latency_probability)
      || fl.less fl.zero_point c.error_probability
      || above c.slow_db_ms 0
      || fl.less fl.zero_point c.worker_failure_probability
      || above c.worker_delay_ms 0

  abbrev pub matches_latency_route : Controls → Str → Bool
  matches_latency_route c path = matches_route path c.latency_routes

  -- What Validate lets through.
  abbrev pub IsDelay : ℤ → ℕ → Type 0
  IsDelay (pos n) bound = n ≤ bound
  IsDelay (negsuc n) bound = ⊥

  abbrev pub IsProbability : fl.Number → Type 0
  IsProbability p = (fl.less p fl.zero_point ≡ false) × (fl.less fl.one_point p ≡ false)

  pub record AreBounded (c : Controls) : Type 0 where
    pub latency_bounded : IsDelay c.latency_ms max_delay_ms
    pub latency_likely : IsProbability c.latency_probability
    pub error_likely : IsProbability c.error_probability
    pub slow_db_bounded : IsDelay c.slow_db_ms max_delay_ms
    pub failure_likely : IsProbability c.worker_failure_probability
    pub delay_bounded : IsDelay c.worker_delay_ms max_worker_delay_ms

  check_ms-IsDelay :
      (name : Field) (v : ℤ) (bound : ℕ) → (check_ms name v bound ≡ none) ↔ IsDelay v bound
  check_ms-IsDelay name (pos n) bound = (λ h. ground arith, λ h. ground arith)
  check_ms-IsDelay name (negsuc n) bound = (λ h. ground arith, λ h. ground arith)

  check_probability-IsProbability :
      (name : Field) (p : fl.Number) → (check_probability name p ≡ none) ↔ IsProbability p
  check_probability-IsProbability name p = go (fl.less p fl.zero_point) (fl.less fl.one_point p)
    where
      go : (a b : Bool) → (refuse_if (a || b) name ≡ none) ↔ ((a ≡ false) × (b ≡ false))
      go true b = (λ h. absurd (cc h), λ h. absurd (cc (h.0)))
      go false true = (λ h. absurd (cc h), λ h. absurd (cc (h.1)))
      go false false = (λ h. (refl, refl), λ h. refl)

join-nil {ℓ} : {E : Type ℓ} (es : List (Option E)) → (join es ≡ []) ↔ All (λ e. e ≡ none) es
join-nil [] = (λ h. tt, λ h. refl)
join-nil (none ∷ es) = (λ h. (refl, (join-nil es).0 h), λ h. (join-nil es).1 h.1)
join-nil (some e ∷ es) = (λ h. absurd (cc h), λ h. absurd (cc (h.0)))

module _ (fl : Float) where
  -- Validate reports nothing just when every delay is in its bounds, 30 s for requests and the
  -- database and 10 s for the worker, and every probability lies between 0 and 1.
  pub validate_controls-AreBounded :
      (c : Controls fl) → (validate_controls fl c ≡ []) ↔ AreBounded fl c
  unfolding validate_controls
  validate_controls-AreBounded c =
      let ms = check_ms-IsDelay fl in
      let prob = check_probability-IsProbability fl in
      (
        λ h.
            let (a, (b, (d, (e, (f, (g, _)))))) = (join-nil (control_checks fl c)).0 h in
            record {
              latency_bounded = (ms latency_ms_field c.latency_ms max_delay_ms).0 a;
              latency_likely = (prob latency_probability_field c.latency_probability).0 b;
              error_likely = (prob error_probability_field c.error_probability).0 d;
              slow_db_bounded = (ms slow_db_ms_field c.slow_db_ms max_delay_ms).0 e;
              failure_likely =
                  (prob worker_failure_probability_field c.worker_failure_probability).0 f;
              delay_bounded = (ms worker_delay_ms_field c.worker_delay_ms max_worker_delay_ms).0 g;
            },
        λ h. (join-nil (control_checks fl c)).1 (
          (ms latency_ms_field c.latency_ms max_delay_ms).1 h.latency_bounded,
          (
            (prob latency_probability_field c.latency_probability).1 h.latency_likely,
            (
              (prob error_probability_field c.error_probability).1 h.error_likely,
              (
                (ms slow_db_ms_field c.slow_db_ms max_delay_ms).1 h.slow_db_bounded,
                (
                  (prob worker_failure_probability_field c.worker_failure_probability).1
                      h.failure_likely,
                  (
                    (ms worker_delay_ms_field c.worker_delay_ms max_worker_delay_ms).1
                        h.delay_bounded,
                    tt,
                  ),
                ),
              ),
            ),
          ),
        ),
      )
