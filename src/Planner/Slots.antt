-- ===== src/Planner/Slots.antt =====
-- planner.py: the slots that `_optimise` plans for, a price matched with the forecast of its time.
use lifeos_platform.Prelude.{
  String, Bool, false, Option, none, some, List, [], ◌∷◌, str_eq, if◌then◌else◌,
}
use lifeos_platform.Prelude.Float.{Float}
use lifeos_platform.Prelude.Exec.{Result, ok}
use lifeos_platform.Prelude.Outcome.{◌>>=◌, expect}

-- `RuntimeError`, `TypeError` of `float(None)`, `ValueError` of `min` of nothing, `KeyError`.
pub data Error : Type 0 where
  no_forecast_data type_error value_error key_error : Error

module _ (fl : Float) where
  open fl use {F}

  pub record Price : Type 0 where
    pub valid_from : String
    pub valid_to : String
    pub local_from : Option String
    pub local_to : String
    pub import_p_per_kwh : Option F
    pub export_p_per_kwh : Option F

  pub record Forecast : Type 0 where
    pub local_from : Option String
    pub solar_kwh : F
    pub load_kwh : F

  pub record Slot : Type 0 where
    pub price : Price
    pub solar : F
    pub load : F
    pub import_rate : F
    pub export_rate : F

  -- `str(row.get("local_from"))` of a row with a time; an empty time counts as none.
  abbrev pub time_of : Option String → Option String
  time_of none = none
  time_of (some t) = if str_eq t "" then none else some t

  abbrev is_at : Option String → String → Bool
  is_at none t = false
  is_at (some s) t = str_eq s t

  abbrev or_forecast : Option Forecast → Option Forecast → Option Forecast
  or_forecast (some f) g = some f
  or_forecast none g = g

  -- The lookup in `forecast_by_time`: the last row with the time.
  unfoldable pub forecast_at : List Forecast → String → Option Forecast
  forecast_at [] t = none
  forecast_at (f ∷ fs) t =
      or_forecast (forecast_at fs t) (if is_at (time_of f.local_from) t then some f else none)

  abbrev pub find_forecast : List Forecast → Option String → Option Forecast
  find_forecast forecasts none = none
  find_forecast forecasts (some t) = forecast_at forecasts t

  -- What the round for a price reads before it plans.
  unfoldable pub match_slot : List Forecast → Price → Result Error Slot
  match_slot forecasts price = do
    forecast ← expect (find_forecast forecasts (time_of price.local_from)) no_forecast_data
    import_rate ← expect price.import_p_per_kwh type_error
    export_rate ← expect price.export_p_per_kwh type_error
    ok (record {
      price = price;
      solar = forecast.solar_kwh;
      load = forecast.load_kwh;
      import_rate = import_rate;
      export_rate = export_rate;
    })

  unfoldable pub match_slots : List Forecast → List Price → Result Error (List Slot)
  match_slots forecasts [] = ok []
  match_slots forecasts (price ∷ prices) = do
    slot ← match_slot forecasts price
    slots ← match_slots forecasts prices
    ok (slot ∷ slots)
