-- ===== src/Powerdown/Readiness.antt =====
-- lifeos-powerdown-assurance-active.py, parts 3, 4, 5 and 7: whether the battery can carry the next
-- event, and the flags of the status.
use lifeos_platform.Prelude.{
  ℕ, zero, suc, ◌-◌, ◌+◌, ◌*◌, Bool, true, false, ◌&&◌, not, Option, none, some, List, [], ◌∷◌,
  ◌++◌, length, if◌then◌else◌,
}
use Prim.Native.Nat.{◌/◌, min}
use lifeos_platform.Prelude.Float.{Float}

pub data Readiness : Type 0 where
  no_event ready not_ready unknown : Readiness

pub data Flag : Type 0 where
  authoritative_grid_stale aligned_crosscheck_unavailable : Flag
  future_powerdown_battery_not_ready active_event_import_above_100w : Flag
  conservative_import_budget_exceeded : Flag

module _ (fl : Float) where
  open fl use {F, add, sub, mul, div, maximum, minimum, lt, le, decimal, of_ℕ}

  -- The rows of the database in their order; a value that is no number is `none`.
  abbrev pub Rows : Type 0
  Rows = List (Option F × Option F)

  unfoldable pub readings_of : Rows → List (F × F)
  readings_of [] = []
  readings_of ((some ts, some state) ∷ rows) = (ts, maximum (of_ℕ 0) state) ∷ readings_of rows
  readings_of ((none, state) ∷ rows) = readings_of rows
  readings_of ((some ts, none) ∷ rows) = readings_of rows

  -- The loop over neighbours, from the first reading and the energy so far.
  unfoldable pub energy_wh : F × F → List (F × F) → F → F
  energy_wh first [] total = total
  energy_wh (t1, p1) ((t2, p2) ∷ vals) total =
      let dt = minimum (maximum (sub t2 t1) (of_ℕ 0)) (of_ℕ 600) in
      energy_wh (t2, p2) vals (add total (div (mul (div (add p1 p2) (of_ℕ 2)) dt) (of_ℕ 3600)))

  abbrev pub integrate_readings : List (F × F) → Option F
  integrate_readings [] = none
  integrate_readings (x ∷ []) = none
  integrate_readings (x ∷ y ∷ vals) = some (div (energy_wh x (y ∷ vals) (of_ℕ 0)) (of_ℕ 1000))

  unfoldable pub integrate_history : Rows → Option F
  unfolding readings_of
  integrate_history rows = integrate_readings (readings_of rows)

  -- `historical_event_kwh`, from the rows of each day back.
  unfoldable pub collect : List Rows → List F
  collect [] = []
  collect (rows ∷ days) = keep (integrate_history rows) (collect days)
    where
      keep : Option F → List F → List F
      keep none rest = rest
      keep (some val) rest = val ∷ rest

  unfoldable pub insert_value : F → List F → List F
  insert_value x [] = x ∷ []
  insert_value x (y ∷ ys) = let rest = insert_value x ys in if lt y x then y ∷ rest else x ∷ y ∷ ys

  unfoldable pub sort_values : List F → List F
  sort_values [] = []
  sort_values (x ∷ xs) = insert_value x (sort_values xs)

  abbrev pub nth : List F → ℕ → Option F
  nth [] n = none
  nth (x ∷ xs) zero = some x
  nth (x ∷ xs) (suc n) = nth xs n

  -- `min(len - 1, ceil(0.90 * len) - 1)` for the at most seven days.
  unfoldable pub percentile_index : ℕ → ℕ
  percentile_index n = min (n - 1) ((9 * n + 9) / 10 - 1)

  abbrev pub as_list : Option F → List F
  as_list none = []
  as_list (some x) = x ∷ []

  -- `max` of a list that begins with the first argument.
  unfoldable pub greatest : F → List F → F
  greatest x [] = x
  greatest x (y ∷ ys) = greatest (maximum x y) ys

  abbrev pub greatest_of : List F → F → F
  greatest_of [] default = default
  greatest_of (x ∷ xs) default = greatest x (xs ++ default ∷ [])

  abbrev pub load_kwh : F → F → F
  load_kwh duration_h w = mul (div w (of_ℕ 1000)) duration_h

  abbrev pub map_some : (F → F) → Option F → Option F
  map_some f none = none
  map_some f (some x) = some (f x)

  -- The greatest of what the past, the load now and the default load of 700 W ask for.
  unfoldable pub conservative_load_requirement : List F → Option F → F → F
  unfolding sort_values percentile_index greatest
  conservative_load_requirement historical load_w duration_h =
      let past = nth (sort_values historical) (percentile_index (length historical)) in
      let candidates = as_list past ++ as_list (map_some (load_kwh duration_h) load_w) in
      div (mul (greatest_of candidates (load_kwh duration_h (of_ℕ 700))) (decimal 120 100))
        (decimal 92 100)

  -- `points.sort(...)` and `points[0]`, for points of a distance in time and a charge.
  unfoldable pub nearest : F × F → List (F × F) → F × F
  nearest best [] = best
  nearest best (p ∷ ps) = nearest (if lt p.0 best.0 then p else best) ps

  abbrev pub in_half_an_hour : F × F → Option F
  in_half_an_hour (distance, value) = if le distance (of_ℕ 1800) then some value else none

  unfoldable pub predicted_soc_kwh : List (F × F) → Option F
  unfolding nearest
  predicted_soc_kwh [] = none
  predicted_soc_kwh (p ∷ ps) = in_half_an_hour (nearest p ps)

  unfoldable pub current_soc_kwh : Option F → Option F → Option F
  current_soc_kwh (some soc) (some capacity) = some (mul (div soc (of_ℕ 100)) capacity)
  current_soc_kwh _ _ = none

  abbrev pub first_known : Option F → Option F → Option F
  first_known (some x) y = some x
  first_known none y = y

  unfoldable pub usable_at_event_kwh : Option F → Option F → Option F → Option F
  usable_at_event_kwh (some available) (some capacity) (some reserve_min) =
      let reserve_kwh = mul (div (add reserve_min (of_ℕ 2)) (of_ℕ 100)) capacity in
      some (mul (maximum (sub available reserve_kwh) (of_ℕ 0)) (decimal 92 100))
  usable_at_event_kwh _ _ _ = none

  unfoldable pub readiness : Bool → Option F → Option F → Readiness
  readiness false required usable = no_event
  readiness true (some required) (some usable) = if le required usable then ready else not_ready
  readiness true none usable = unknown
  readiness true (some required) none = unknown

  -- What the readiness and the status are computed from. `next_event` and `active` are the hours of
  -- the next and of the active event.
  pub record Telemetry : Type 0 where
    pub next_event : Option F
    pub active : Option F
    pub days_back : List Rows
    pub load_w : Option F
    pub forecast : List (F × F)
    pub soc : Option F
    pub capacity : Option F
    pub reserve_min : Option F

  abbrev pub is_some : Option F → Bool
  is_some none = false
  is_some (some x) = true

  -- `required_battery_kwh`; the past is only read for a next event.
  unfoldable pub required_battery_kwh : Option F → Option F → List Rows → Option F → Option F
  unfolding conservative_load_requirement collect
  required_battery_kwh (some hours) active days load_w =
      some (conservative_load_requirement (collect days) load_w hours)
  required_battery_kwh none (some hours) days load_w =
      some (conservative_load_requirement [] load_w hours)
  required_battery_kwh none none days load_w = none

  abbrev pub forecast_for : Option F → List (F × F) → Option F
  unfolding predicted_soc_kwh
  forecast_for none points = none
  forecast_for (some hours) points = predicted_soc_kwh points

  unfoldable pub assess : Telemetry → Readiness
  unfolding readiness required_battery_kwh usable_at_event_kwh current_soc_kwh forecast_for
  assess t =
      readiness (is_some t.next_event)
        (required_battery_kwh t.next_event t.active t.days_back t.load_w)
        (usable_at_event_kwh
          (first_known (forecast_for t.next_event t.forecast) (current_soc_kwh t.soc t.capacity))
          t.capacity t.reserve_min)

  abbrev pub raise_flag : Bool → Flag → List Flag → List Flag
  raise_flag test flag rest = if test then flag ∷ rest else rest

  abbrev pub is_not_ready : Readiness → Bool
  is_not_ready not_ready = true
  is_not_ready _ = false

  abbrev pub above : Option F → F → Bool
  above none limit = false
  above (some x) limit = lt limit x

  abbrev pub reached : Option F → F → Bool
  reached none integrated = false
  reached (some target) integrated = le target integrated

  -- Half of the baseline.
  unfoldable pub conservative_target : Option F → Option F
  conservative_target none = none
  conservative_target (some baseline) = some (mul baseline (decimal 5 10))

  unfoldable pub flags : Bool → Bool → Readiness → Bool → Option F → Option F → F → List Flag
  flags authoritative_fresh aligned_crosscheck_ok state active grid_import baseline integrated =
      raise_flag (not authoritative_fresh) authoritative_grid_stale (
        raise_flag (not aligned_crosscheck_ok) aligned_crosscheck_unavailable (
          raise_flag (is_not_ready state) future_powerdown_battery_not_ready (
            raise_flag (active && above grid_import (of_ℕ 100)) active_event_import_above_100w (
              raise_flag (active && reached (conservative_target baseline) integrated)
                conservative_import_budget_exceeded []))))
