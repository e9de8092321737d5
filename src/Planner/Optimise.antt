-- ===== src/Planner/Optimise.antt =====
-- planner.py: `_optimise`, from the end of the dynamic programme back to the plan.
use lifeos_platform.Prelude.{
  ℕ, suc, Bool, true, false, Option, none, some, List, [], ◌∷◌, map, ◌==◌, if◌then◌else◌,
}
use lifeos_platform.Prelude.Float.{Float}
use lifeos_platform.Prelude.Exec.{Result, ok, err}
use lifeos_platform.Prelude.Outcome.{◌>>=◌, expect}
use lifeos_platform.Planner.Slots.{
  Error, value_error, key_error, Price, Slot, Forecast, match_slots,
}
use lifeos_platform.Planner.Dynamic.{
  Config, Place, Detail, Cell, zero_kwh, states_from, closest, run_slots,
}

module _ (fl : Float) where
  open fl use {F, add, sub, mul, div, lt, of_ℕ, round}

  -- A detail with the times of its price.
  pub record Planned : Type 0 where
    pub price : Price fl
    pub detail : Detail fl

  pub record Totals : Type 0 where
    pub solar_kwh : F
    pub load_kwh : F
    pub grid_import_kwh : F
    pub grid_export_kwh : F
    pub net_energy_cost_pence : F
    pub net_energy_cost_gbp : F

  pub record Plan : Type 0 where
    pub starting_soc_percent : F
    pub ending_soc_percent : F
    pub end : Place fl
    pub total_cost_pence : F
    pub totals : Totals
    pub slots : List Planned

  abbrev pub percent_kwh : Config fl → F → F
  percent_kwh config soc = div (mul config.capacity soc) (of_ℕ 100)

  abbrev pub states_of : F → F → Option ℕ → List (Place fl)
  states_of minimum step none = []
  states_of minimum step (some count) = states_from fl minimum step 0 (suc count)

  -- `_states`, where `whole_of` is `int(round(x))`, or none if that is negative.
  unfoldable pub states : (F → Option ℕ) → Config fl → List (Place fl)
  states whole_of config =
      let minimum = percent_kwh config config.min_soc in
      let maximum = percent_kwh config config.max_soc in
      states_of minimum config.state_step (whole_of (div (sub maximum minimum) config.state_step))

  abbrev pub start_of : Config fl → List (Place fl) → Result Error (Place fl)
  start_of config [] = err value_error
  start_of config (p ∷ ps) = ok (closest fl (percent_kwh config config.start_soc) p ps)

  unfoldable pub initial : Place fl → List (Place fl) → List (Cell fl)
  initial start places =
      map
        (λ (p : Place fl). record {
          place = p;
          cost = if p.index == start.index then some (zero_kwh fl) else none;
          parent = none;
        })
        places

  abbrev pub cost_lt : Option F → Option F → Bool
  cost_lt none b = false
  cost_lt (some a) none = true
  cost_lt (some a) (some b) = lt a b

  -- `min(cost, key=cost.get)`
  unfoldable pub cheapest : Cell fl → List (Cell fl) → Cell fl
  cheapest best [] = best
  cheapest best (c ∷ cs) = cheapest (if cost_lt c.cost best.cost then c else best) cs

  abbrev pub cheapest_of : List (Cell fl) → Result Error (Cell fl)
  cheapest_of [] = err value_error
  cheapest_of (c ∷ cs) = ok (cheapest c cs)

  unfoldable pub parent_of : ℕ → List (Cell fl) → Option (Place fl × Detail fl)
  parent_of i [] = none
  parent_of i (c ∷ cs) = let rest = parent_of i cs in if c.place.index == i then c.parent else rest

  -- The loop from the last slot to the first; `reversed_plan` from here on.
  unfoldable pub backtrack :
      List (Slot fl) → List (List (Cell fl)) → Place fl → Result Error (List Planned)
  backtrack [] tables current = ok []
  backtrack (slot ∷ slots) [] current = err key_error
  backtrack (slot ∷ slots) (table ∷ tables) current = do
    found ← expect (parent_of current.index table) key_error
    rest ← backtrack slots tables found.0
    ok (record { price = slot.price; detail = found.1 } ∷ rest)

  unfoldable pub reverse_onto : {A : Type 0} → List A → List A → List A
  reverse_onto done [] = done
  reverse_onto done (x ∷ xs) = reverse_onto (x ∷ done) xs

  unfoldable pub total : (Detail fl → F) → List Planned → F → F
  total f [] sum = sum
  total f (p ∷ ps) sum = total f ps (add sum (f p.detail))

  abbrev pub rounded_total : (Detail fl → F) → List Planned → F
  rounded_total f slots = round 2 (total f slots (zero_kwh fl))

  abbrev pub plan_of : Config fl → Place fl → F → List Planned → Plan
  plan_of config end cost slots = record {
    starting_soc_percent = config.start_soc;
    ending_soc_percent = round 1 (mul (div end.state config.capacity) (of_ℕ 100));
    end = end;
    total_cost_pence = cost;
    totals = record {
      solar_kwh = rounded_total (λ d. d.solar_kwh) slots;
      load_kwh = rounded_total (λ d. d.load_kwh) slots;
      grid_import_kwh = rounded_total (λ d. d.grid_import_kwh) slots;
      grid_export_kwh = rounded_total (λ d. d.grid_export_kwh) slots;
      net_energy_cost_pence = round 2 cost;
      net_energy_cost_gbp = round 2 (div cost (of_ℕ 100));
    };
    slots = slots;
  }

  unfoldable pub optimise :
      (F → Option ℕ) → Config fl → List (Price fl) → List (Forecast fl) → Result Error Plan
  unfolding states initial
  optimise whole_of config prices forecasts = do
    start ← start_of config (states whole_of config)
    slots ← match_slots fl forecasts prices
    let ran = run_slots fl config (initial start (states whole_of config)) [] slots
    end ← cheapest_of ran.0
    reversed_plan ← backtrack (reverse_onto [] slots) ran.1 end.place
    cost ← expect end.cost key_error
    ok (plan_of config end.place cost (reverse_onto [] reversed_plan))
