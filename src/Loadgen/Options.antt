-- ===== src/Loadgen/Options.antt =====
-- internal/loadgen/options.go: the options of a run, with their defaults. A float64 comes with what
-- the code does with it; url.Parse is a parameter, and so is the time that seeds a run.
use golang_helloworld.Prelude.{
  Bool, List, Option, [], false, if◌then◌else◌, inl, inr, none, not, some, suc, true, zero, ◌&&◌,
  ◌*◌, ◌==◌, ◌||◌, ◌∷◌, ◌⊎◌,
}
use golang_helloworld.Text.{Str, bytes, str_eq}
use golang_helloworld.Text.Decimal.{negsuc, pos, ℤ}
use golang_helloworld.Domain.{below, first_refusal, refuse_if}
use golang_helloworld.Domain.Request.{seen_in}

pub record Rates : Type 1 where
  pub Rate : Type 0
  pub is_zero : Rate → Bool
  pub is_negative : Rate → Bool
  pub exceeds_cap : Rate → Bool
  pub one_rate : Rate
  pub ten_rate : Rate

pub data OptionsError : Type 0 where
  target_missing target_not_absolute scenario_unknown : OptionsError
  rate_negative rate_over_cap concurrency_too_low : OptionsError

-- What url.Parse gives.
pub record Address : Type 0 where
  pub address_scheme : Str
  pub address_host : Str

abbrev pub known_scenarios : List Str
known_scenarios =
    bytes "browse" ∷ bytes "upload" ∷ bytes "mixed" ∷ bytes "steady" ∷ bytes "incident" ∷ []

-- strings.TrimRight at "/"
unfoldable pub trim_slashes : Str → Str
trim_slashes [] = []
trim_slashes (b ∷ s) = joined (trim_slashes s)
  where
    joined : Str → Str
    joined [] = if b == b'/' then [] else b ∷ []
    joined (c ∷ t) = b ∷ c ∷ t

abbrev pub check_address : Option Address → Option OptionsError
check_address none = some target_not_absolute
check_address (some a) =
    refuse_if (str_eq a.address_scheme [] || str_eq a.address_host []) target_not_absolute

module _ (fl : Rates) where
  pub record Options : Type 0 where
    pub target : Str
    pub scenario : Str
    pub rate : fl.Rate
    pub duration : ℤ
    pub concurrency : ℤ
    pub force : Bool
    pub seed : ℤ
    pub phase_scale : fl.Rate

  unfoldable pub apply_rate_default : Options → fl.Rate
  apply_rate_default o =
      if not (fl.is_zero o.rate)
      then o.rate
      else if str_eq o.scenario (bytes "steady")
      then fl.one_rate
      else fl.ten_rate

  abbrev pub validate_rate : Bool → fl.Rate → Option OptionsError
  validate_rate force rate = first_refusal (
      refuse_if (fl.is_negative rate) rate_negative
      ∷ refuse_if (fl.exceeds_cap rate && not force) rate_over_cap
      ∷ [])

  abbrev pub is_zero_int : ℤ → Bool
  is_zero_int (pos zero) = true
  is_zero_int (pos (suc n)) = false
  is_zero_int (negsuc n) = false

  module _ (parse : Str → Option Address) (now : ℤ) where
    abbrev pub option_checks : Options → List (Option OptionsError)
    unfolding apply_rate_default
    option_checks o =
        refuse_if (str_eq o.target []) target_missing
        ∷ check_address (parse o.target)
        ∷ refuse_if (not (seen_in o.scenario known_scenarios)) scenario_unknown
        ∷ validate_rate o.force (apply_rate_default o)
        ∷ refuse_if (below o.concurrency 1) concurrency_too_low
        ∷ []

    abbrev pub with_defaults : Options → Options
    unfolding apply_rate_default trim_slashes
    with_defaults o = record o {
      target = trim_slashes o.target;
      rate = apply_rate_default o;
      duration = if below o.duration 1 then pos (5 * 60 * 1_000_000_000) else o.duration;
      phase_scale =
          if fl.is_negative o.phase_scale || fl.is_zero o.phase_scale
          then fl.one_rate
          else o.phase_scale;
      seed = if is_zero_int o.seed then now else o.seed;
    }

    abbrev pub answered : Options → Option OptionsError → OptionsError ⊎ Options
    unfolding with_defaults
    answered o (some e) = inl e
    answered o none = inr (with_defaults o)

    -- Options.validate. What a refused call leaves of the options is not looked at.
    unfoldable pub validate_options : Options → OptionsError ⊎ Options
    unfolding answered option_checks
    validate_options o = answered o (first_refusal (option_checks o))
