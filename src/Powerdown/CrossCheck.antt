-- ===== src/Powerdown/CrossCheck.antt =====
-- lifeos-powerdown-assurance-active.py, part 1: the cross-check of two grid meters, and the trust
-- that it builds over runs of the controller.
use lifeos_platform.Prelude.{
  ℕ, ◌+◌, Bool, true, false, ◌&&◌, Option, none, some, List, [], ◌∷◌, ◌++◌, leb, ltb, length,
  if◌then◌else◌,
}
use lifeos_platform.Prelude.Float.{Float}

abbrev pub required_good_runs : ℕ
required_good_runs = 2

abbrev pub max_bad_runs : ℕ
max_bad_runs = 1

module _ (fl : Float) where
  open fl use {F, sub, mul, maximum, abs, lt, le, decimal, of_ℕ, round}

  -- What one run reads: the two powers, their ages, and when they were reported (0.0: never).
  pub record Reading : Type 0 where
    pub grid_import : Option F
    pub envoy_kw : Option F
    pub lifeos_age : F
    pub envoy_age : F
    pub lifeos_timestamp : F
    pub envoy_timestamp : F
    pub observed_at : F

  pub record Entry : Type 0 where
    pub observed_at : F
    pub lifeos_import_w : Option F
    pub envoy_import_w : Option F
    pub lifeos_age_seconds : F
    pub envoy_age_seconds : F
    pub source_timestamp_delta_seconds : Option F
    pub difference_w : Option F
    pub current_good : Bool
    pub trusted : Bool

  pub record CrossState : Type 0 where
    pub good_runs : ℕ
    pub bad_runs : ℕ
    pub trusted : Bool
    pub history : List Entry

  abbrev pub map_some : (F → F) → Option F → Option F
  map_some f none = none
  map_some f (some x) = some (f x)

  abbrev pub is_some : Option F → Bool
  is_some none = false
  is_some (some x) = true

  abbrev pub within : Option F → F → Bool
  within none limit = false
  within (some x) limit = le x limit

  abbrev pub zero_float : F
  zero_float = of_ℕ 0

  unfoldable pub lifeos_import_w : Reading → Option F
  lifeos_import_w r = map_some (maximum zero_float) r.grid_import

  unfoldable pub envoy_import_w : Reading → Option F
  envoy_import_w r = map_some (λ kw. maximum zero_float (mul kw (of_ℕ 1000))) r.envoy_kw

  -- A timestamp of 0.0 is false.
  is_zero : F → Bool
  is_zero x = le x zero_float && le zero_float x

  unfoldable pub source_timestamp_delta : Reading → Option F
  unfolding is_zero
  source_timestamp_delta r =
      if is_zero r.lifeos_timestamp
      then none
      else if is_zero r.envoy_timestamp
      then none
      else some (abs (sub r.lifeos_timestamp r.envoy_timestamp))

  abbrev pub difference : Option F → Option F → Option F
  difference none y = none
  difference (some x) none = none
  difference (some x) (some y) = some (abs (sub x y))

  unfoldable pub instantaneous_diff_w : Reading → Option F
  instantaneous_diff_w r = difference (lifeos_import_w r) (envoy_import_w r)

  unfoldable pub lifeos_fresh : Reading → Bool
  lifeos_fresh r = is_some (lifeos_import_w r) && le r.lifeos_age (of_ℕ 150)

  unfoldable pub envoy_fresh : Reading → Bool
  envoy_fresh r = is_some (envoy_import_w r) && le r.envoy_age (of_ℕ 150)

  unfoldable pub current_crosscheck_good : Reading → Bool
  current_crosscheck_good r =
      lifeos_fresh r
      && (envoy_fresh r
          && (within (source_timestamp_delta r) (of_ℕ 90)
              && within (instantaneous_diff_w r) (of_ℕ 100)))

  -- `history[-40:]`
  abbrev pub last_entries : ℕ → List Entry → List Entry
  last_entries n [] = []
  last_entries n (e ∷ es) = if leb (length (e ∷ es)) n then e ∷ es else last_entries n es

  unfoldable pub count_run : Bool → CrossState → CrossState
  count_run true s =
      let good = s.good_runs + 1 in
      record s {
        good_runs = good;
        bad_runs = 0;
        trusted = if leb required_good_runs good then true else s.trusted;
      }
  count_run false s =
      let bad = s.bad_runs + 1 in
      record s {
        good_runs = 0;
        bad_runs = bad;
        trusted = if ltb max_bad_runs bad then false else s.trusted;
      }

  unfoldable pub entry : Reading → Bool → Entry
  entry r trusted = record {
    observed_at = r.observed_at;
    lifeos_import_w = lifeos_import_w r;
    envoy_import_w = envoy_import_w r;
    lifeos_age_seconds = round 1 r.lifeos_age;
    envoy_age_seconds = round 1 r.envoy_age;
    source_timestamp_delta_seconds = map_some (round 1) (source_timestamp_delta r);
    difference_w = map_some (round 1) (instantaneous_diff_w r);
    current_good = current_crosscheck_good r;
    trusted = trusted;
  }

  -- One run's update of the file of samples.
  unfoldable pub observe : CrossState → Reading → CrossState
  observe s r =
      let s' = count_run (current_crosscheck_good r) s in
      record s' { history = last_entries 40 (s.history ++ entry r s'.trusted ∷ []) }

  unfoldable pub observe_all : CrossState → List Reading → CrossState
  observe_all s [] = s
  observe_all s (r ∷ rs) = observe_all (observe s r) rs

  -- The default of `read_json` for the samples.
  abbrev pub no_samples : CrossState
  no_samples = record { good_runs = 0; bad_runs = 0; trusted = false; history = [] }
