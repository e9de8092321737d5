-- ===== src/Powerdown/Tests.antt =====
-- The controller of the battery reserve over whole numbers.
use Prim.Native.Nat.{◌/◌}
use lifeos_platform.Prelude.{
  ℕ, suc, ◌≡◌, refl, arith, String, true, none, some, List, [], ◌∷◌, ◌⊎◌, ◌<◌, ◌≤◌, length,
}
use lifeos_platform.Prelude.Float.{Float, whole}
use lifeos_platform.Powerdown.CrossCheck.{
  Reading, current_crosscheck_good, source_timestamp_delta, lifeos_import_w, envoy_import_w,
  instantaneous_diff_w, lifeos_fresh, envoy_fresh, count_run, observe, observe_all, no_samples,
}
use lifeos_platform.Powerdown.Trust.{
  settled_trust, newest_first, observe_all-trusted, observe-history,
}
use lifeos_platform.Powerdown.Reserve.{
  Event, sort_event, find_events, earliest, next_event, Inputs, enter_event, integrate, safe_soc,
  release, run_active, by_event, control, idle,
}
use lifeos_platform.Powerdown.Runs.{run_all}
use lifeos_platform.Powerdown.Ownership.{IsRelease, IsRestore, control-writes, event-restores}
use lifeos_platform.Powerdown.Bounds.{IsMonotone}
use lifeos_platform.Powerdown.Prepared.{IsPrepared, assess-IsPrepared}
use lifeos_platform.Powerdown.Schedule.{IsJoined, next_event-earliest}
use lifeos_platform.Powerdown.Readiness.{
  Telemetry, ready, not_ready, assess, readiness, required_battery_kwh,
  conservative_load_requirement, collect, integrate_history, readings_of, energy_wh, sort_values,
  insert_value, percentile_index, greatest, usable_at_event_kwh, current_soc_kwh, predicted_soc_kwh,
  flags, conservative_target,
}

abbrev good_reading : Reading whole
good_reading = record {
  grid_import = some 40;
  envoy_kw = some 0;
  lifeos_age = 10;
  envoy_age = 20;
  lifeos_timestamp = 1000;
  envoy_timestamp = 990;
  observed_at = 1010;
}

abbrev stale_reading : Reading whole
stale_reading = record good_reading { lifeos_age = 151 }

abbrev readings : List (Reading whole)
readings = good_reading ∷ good_reading ∷ stale_reading ∷ []

observe_all-trusted_example :
    (observe_all whole (no_samples whole) readings).trusted
    ≡ settled_trust (newest_first whole [] readings)
observe_all-trusted_example = observe_all-trusted whole readings

two_good_runs : (observe_all whole (no_samples whole) readings).trusted ≡ true
unfolding observe_all observe count_run current_crosscheck_good lifeos_fresh envoy_fresh
    lifeos_import_w envoy_import_w source_timestamp_delta instantaneous_diff_w
two_good_runs = refl

observe-history_example : length (observe whole (no_samples whole) good_reading).history ≤ 40
observe-history_example = observe-history whole (no_samples whole) good_reading

-- The reserve reads 30 percent, and may be released to 10.
abbrev in_event : String → ℕ → Inputs whole
in_event id reserve = record {
  active = some (some id);
  epoch = 100;
  grid_import = some 40;
  authoritative_fresh = true;
  aligned_crosscheck_ok = true;
  soc = some 80;
  reserve_min = some 10;
  reserve_now = some reserve;
}

abbrev after_event : Inputs whole
after_event = record (in_event "" 10) { active = none }

control-writes_example :
    IsRelease whole (in_event "a" 30) 10 ⊎ IsRestore whole (idle whole) (in_event "a" 30) 10
unfolding control by_event run_active enter_event integrate safe_soc release
control-writes_example = control-writes whole (idle whole) (in_event "a" 30) 10 refl

event-restores_example :
    (control whole
      (run_all whole (idle whole) (in_event "a" 30 ∷ in_event "a" 10 ∷ []))
      after_event).written
    ≡ some 30
unfolding control by_event run_active enter_event integrate safe_soc release
event-restores_example =
    event-restores whole (idle whole) "a" (in_event "a" 30) (in_event "a" 10 ∷ []) after_event 30 10
      10 refl (refl, (refl, tt)) refl refl refl refl refl

-- When an event follows another at once, the reserve that the first one released is what is saved,
-- and the household's own 30 percent are not put back.
back_to_back :
    (control whole
      (run_all whole (idle whole) (in_event "a" 30 ∷ in_event "b" 10 ∷ []))
      after_event).written
    ≡ some 10
unfolding control by_event run_active enter_event integrate safe_soc release
back_to_back =
    event-restores whole (run_all whole (idle whole) (in_event "a" 30 ∷ [])) "b" (in_event "b" 10)
      [] after_event 10 10 10 refl (refl, tt) refl refl refl refl refl

abbrev event : ℕ → ℕ → Event
event s t = record { id = none; start = some s; end = some t }

abbrev joined : List Event
joined = event 5 9 ∷ event 30 35 ∷ event 20 25 ∷ []

next_event-earliest_example :
    (7 < 20)
    × ((e : Event) (s t : ℕ)
        → IsJoined e joined
        → e.start ≡ some s
        → e.end ≡ some t
        → 7 < s
        → 20 ≤ s)
unfolding next_event find_events sort_event earliest
next_event-earliest_example =
    next_event-earliest 7 joined (record { start = 20; end = 25; event = event 20 25 }) refl

-- An event of two hours, a full battery, and past days of which one has two readings.
abbrev telemetry : Telemetry whole
telemetry = record {
  next_event = some 2;
  active = none;
  days_back = [] ∷ ((some 0, some 900) ∷ (some 300, none) ∷ (some 600, some 900) ∷ []) ∷ [];
  load_w = some 400;
  forecast = [];
  soc = some 100;
  capacity = some 10;
  reserve_min = some 10;
}

can_be_used : assess whole telemetry ≡ ready
unfolding assess readiness required_battery_kwh conservative_load_requirement collect
    integrate_history readings_of energy_wh sort_values insert_value percentile_index greatest
    usable_at_event_kwh current_soc_kwh predicted_soc_kwh
can_be_used = refl

no_flags : flags whole true true ready true (some 90) none 3 ≡ []
unfolding flags conservative_target
no_flags = refl

-- Whole numbers with a safety factor of 2 and no losses.
abbrev doubling : Float
doubling = record whole { decimal = λ n d. suc (n / d) }

doubling-IsMonotone : IsMonotone doubling
doubling-IsMonotone = record {
  le_refl = λ a. ground arith;
  le_trans = λ a b c h k. ground arith;
  le_of_lt = λ a b h. ground arith;
  le_of_not_lt = λ a b h. ground arith;
  maximum_left = λ a b. ground arith;
  maximum_right = λ a b. ground arith;
  mul_mono = λ a b h. ground arith;
  div_mono = λ a b h. ground arith;
}

-- A past day of 6 kWh and a load of 2 kW before an event of two hours, with 20 kWh in the battery.
abbrev full : Telemetry doubling
full = record {
  next_event = some 2;
  active = none;
  days_back = [] ∷ ((some 0, some 36000) ∷ (some 600, some 36000) ∷ []) ∷ [];
  load_w = some 2000;
  forecast = [];
  soc = some 100;
  capacity = some 20;
  reserve_min = some 10;
}

assess-IsPrepared_example : IsPrepared doubling doubling-IsMonotone full
unfolding assess readiness required_battery_kwh conservative_load_requirement collect
    integrate_history readings_of energy_wh sort_values insert_value percentile_index greatest
    usable_at_event_kwh current_soc_kwh predicted_soc_kwh
assess-IsPrepared_example = assess-IsPrepared doubling doubling-IsMonotone full (ground arith) refl

-- With 10 kWh the past day is not covered.
half_full : assess doubling (record full { capacity = some 10 }) ≡ not_ready
unfolding assess readiness required_battery_kwh conservative_load_requirement collect
    integrate_history readings_of energy_wh sort_values insert_value percentile_index greatest
    usable_at_event_kwh current_soc_kwh predicted_soc_kwh
half_full = refl
