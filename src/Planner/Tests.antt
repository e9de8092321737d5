-- ===== src/Planner/Tests.antt =====
-- The planner over whole numbers: a battery of 2 kWh and two half hours.
use lifeos_platform.Prelude.{
  ℕ, ◌+◌, ◌≡◌, refl, String, false, Option, none, some, List, [], ◌∷◌, arith, ltb,
}
use lifeos_platform.Prelude.Float.{whole}
use lifeos_platform.Prelude.Exec.{Result, ok, err}
use lifeos_platform.Prelude.Outcome.{◌>>=◌, expect}
use lifeos_platform.Planner.Slots.{
  Error, no_forecast_data, Price, Forecast, Slot, forecast_at, match_slot, match_slots,
}
use lifeos_platform.Planner.Dynamic.{
  Config, Place, states_from, closest, flow, relax, relax_all, step, run_slots, action_of,
  detail_of, settled,
}
use lifeos_platform.Planner.Optimise.{
  Plan, states, initial, cheapest, parent_of, backtrack, reverse_onto, total, optimise,
}
use lifeos_platform.Planner.Cells.{IsOrdered}
use lifeos_platform.Planner.Correct.{MayRest, Planning, optimise-Planning}

whole_lt_trans : (a b c : ℕ) → ltb b a ≡ false → ltb c b ≡ false → ltb c a ≡ false
whole_lt_trans a b c h k = ground arith

whole_add_mono : (a b c : ℕ) → ltb b a ≡ false → ltb (b + c) (a + c) ≡ false
whole_add_mono a b c h = ground arith

whole-IsOrdered : IsOrdered whole
whole-IsOrdered = record {
  lt_irrefl = λ a. ground arith;
  lt_asym = λ a b h. ground arith;
  le_trans = whole_lt_trans;
  le_lt = λ a b. ground arith;
  add_mono = whole_add_mono;
}

abbrev config : Config whole
config = record {
  capacity = 2;
  min_soc = 0;
  max_soc = 100;
  start_soc = 50;
  charge_kw = 3;
  discharge_kw = 3;
  charge_eff = 2;
  discharge_eff = 1;
  state_step = 1;
}

whole-MayRest : MayRest whole config
whole-MayRest = record { no_loss = λ x. ground arith; no_power = λ x. ground arith }

abbrev price : String → ℕ → Price whole
price t p = record {
  valid_from = t;
  valid_to = t;
  local_from = some t;
  local_to = t;
  import_p_per_kwh = some p;
  export_p_per_kwh = some 1;
}

abbrev prices : List (Price whole)
prices = price "00:00" 5 ∷ price "00:30" 7 ∷ []

abbrev forecast : String → ℕ → Forecast whole
forecast t load = record { local_from = some t; solar_kwh = 0; load_kwh = load }

abbrev forecasts : List (Forecast whole)
forecasts = forecast "00:30" 1 ∷ forecast "00:00" 2 ∷ []

abbrev slot : String → ℕ → ℕ → Slot whole
slot t p load = record {
  price = price t p;
  solar = 0;
  load = load;
  import_rate = p;
  export_rate = 1;
}

abbrev slots : List (Slot whole)
slots = slot "00:00" 5 2 ∷ slot "00:30" 7 1 ∷ []

abbrev start : Place whole
start = record { index = 0; state = 0 }

optimise-Planning_example :
    Planning whole config
      (states whole some config)
      start
      slots
      (optimise whole some config prices forecasts)
unfolding states states_from closest match_slots match_slot forecast_at ◌>>=◌ expect
optimise-Planning_example =
    optimise-Planning whole some config prices forecasts start slots whole-IsOrdered whole-MayRest
      refl refl

abbrev cost_of : Result Error (Plan whole) → Option ℕ
cost_of (ok plan) = some plan.total_cost_pence
cost_of (err e) = none

-- 2 kWh at 5 pence and 1 kWh at 7 pence.
plan_cost : cost_of (optimise whole some config prices forecasts) ≡ some 17
unfolding optimise states states_from closest match_slots match_slot forecast_at ◌>>=◌ expect
    initial run_slots step relax_all relax flow settled detail_of action_of cheapest backtrack
    parent_of reverse_onto total
plan_cost = refl

missing_forecast :
    optimise whole some config prices (forecast "00:00" 2 ∷ []) ≡ err no_forecast_data
unfolding optimise states states_from closest match_slots match_slot forecast_at ◌>>=◌ expect
missing_forecast = refl
