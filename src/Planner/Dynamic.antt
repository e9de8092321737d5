-- ===== src/Planner/Dynamic.antt =====
-- planner.py: `_states` and the dynamic programme of `_optimise`.
use lifeos_platform.Prelude.{
  ℕ, zero, suc, Bool, false, ◌&&◌, Option, none, some, List, [], ◌∷◌, map, if◌then◌else◌,
}
use lifeos_platform.Prelude.Float.{Float}
use lifeos_platform.Planner.Slots.{Slot}

pub data Action : Type 0 where
  solar_charge grid_charge charge export_discharge battery_support export grid_import hold : Action

module _ (fl : Float) where
  open fl use {F, add, sub, mul, div, maximum, abs, lt, le, decimal, of_ℕ, round}

  pub record Config : Type 0 where
    pub capacity : F
    pub min_soc : F
    pub max_soc : F
    pub start_soc : F
    pub charge_kw : F
    pub discharge_kw : F
    pub charge_eff : F
    pub discharge_eff : F
    pub state_step : F

  -- A state of the battery, by its place in the list of states, which are distinct.
  pub record Place : Type 0 where
    pub index : ℕ
    pub state : F

  -- What a slot does to the battery and to the grid.
  pub record Flow : Type 0 where
    pub import_kwh : F
    pub export_kwh : F
    pub slot_cost : F

  pub record Detail : Type 0 where
    pub action : Action
    pub solar_kwh : F
    pub load_kwh : F
    pub battery_start_kwh : F
    pub battery_end_kwh : F
    pub battery_start_soc_percent : F
    pub battery_end_soc_percent : F
    pub grid_import_kwh : F
    pub grid_export_kwh : F
    pub import_p_per_kwh : F
    pub export_p_per_kwh : F
    pub slot_net_cost_pence : F

  -- An entry of `cost`, where `none` is infinity, and that of `parent` under the same key.
  pub record Cell : Type 0 where
    pub place : Place
    pub cost : Option F
    pub parent : Option (Place × Detail)

  abbrev pub zero_kwh : F
  zero_kwh = of_ℕ 0

  unfoldable pub states_from : F → F → ℕ → ℕ → List Place
  states_from minimum step i zero = []
  states_from minimum step i (suc n) =
      record { index = i; state = round 3 (add minimum (mul (of_ℕ i) step)) }
      ∷ states_from minimum step (suc i) n

  -- `min(states, key=...)` keeps the first of the closest.
  unfoldable pub closest : F → Place → List Place → Place
  closest start best [] = best
  closest start best (p ∷ ps) =
      closest start (if lt (abs (sub p.state start)) (abs (sub best.state start)) then p else best)
        ps

  unfoldable pub settled : Slot fl → F → F → Flow
  settled slot battery_charge_ac battery_discharge_ac =
      let grid_kwh = sub (add (sub slot.load slot.solar) battery_charge_ac) battery_discharge_ac in
      let import_kwh = maximum zero_kwh grid_kwh in
      let export_kwh = maximum zero_kwh (sub zero_kwh grid_kwh) in
      record {
        import_kwh = import_kwh;
        export_kwh = export_kwh;
        slot_cost = sub (mul import_kwh slot.import_rate) (mul export_kwh slot.export_rate);
      }

  module _ (config : Config) where
    abbrev above_limit : F → F → Bool
    above_limit power rate = lt (add (mul rate (decimal 5 10)) (decimal 1 1000000000)) power

    -- `none` where the change of the charge is more than half an hour allows.
    unfoldable pub flow : Slot fl → F → F → Option Flow
    unfolding settled
    flow slot previous following =
        let delta = sub following previous in
        if le zero_kwh delta
        then (let battery_charge_ac = div delta config.charge_eff in
            if above_limit battery_charge_ac config.charge_kw
            then none
            else some (settled slot battery_charge_ac zero_kwh))
        else (let battery_discharge_ac = mul (sub zero_kwh delta) config.discharge_eff in
            if above_limit battery_discharge_ac config.discharge_kw
            then none
            else some (settled slot zero_kwh battery_discharge_ac))

    unfoldable pub action_of : Slot fl → F → Flow → Action
    action_of slot delta f =
        let little = decimal 5 100 in
        if lt little delta
        then (if lt slot.load slot.solar && lt f.import_kwh little
            then solar_charge
            else if lt little f.import_kwh
            then grid_charge
            else charge)
        else if lt delta (sub zero_kwh little)
        then (if lt little f.export_kwh then export_discharge else battery_support)
        else if lt little f.export_kwh
        then export
        else if lt little f.import_kwh
        then grid_import
        else hold

    unfoldable pub detail_of : Slot fl → F → F → Flow → Detail
    unfolding action_of
    detail_of slot previous following f = record {
      action = action_of slot (sub following previous) f;
      solar_kwh = round 3 slot.solar;
      load_kwh = round 3 slot.load;
      battery_start_kwh = round 2 previous;
      battery_end_kwh = round 2 following;
      battery_start_soc_percent = round 1 (mul (div previous config.capacity) (of_ℕ 100));
      battery_end_soc_percent = round 1 (mul (div following config.capacity) (of_ℕ 100));
      grid_import_kwh = round 3 f.import_kwh;
      grid_export_kwh = round 3 f.export_kwh;
      import_p_per_kwh = round 3 slot.import_rate;
      export_p_per_kwh = round 3 slot.export_rate;
      slot_net_cost_pence = round 3 f.slot_cost;
    }

    -- `candidate >= next_cost[following]`
    abbrev pub no_better : Option F → F → Bool
    no_better none candidate = false
    no_better (some c) candidate = le c candidate

    abbrev pub improve : Slot fl → Place → F → Cell → Option Flow → Cell
    improve slot previous previous_cost cell none = cell
    improve slot previous previous_cost cell (some f) =
        let candidate = add previous_cost f.slot_cost in
        if no_better cell.cost candidate then cell else record cell {
          cost = some candidate;
          parent = some (previous, detail_of slot previous.state cell.place.state f);
        }

    -- The body of the inner loop, for one following state.
    unfoldable pub relax : Slot fl → Place → Option F → Cell → Cell
    relax slot previous none cell = cell
    relax slot previous (some previous_cost) cell =
        improve slot previous previous_cost cell (flow slot previous.state cell.place.state)

    -- The loop over the previous states, each with the loop over the following ones.
    unfoldable pub relax_all : Slot fl → List Cell → List Cell → List Cell
    relax_all slot [] next = next
    relax_all slot (p ∷ ps) next = relax_all slot ps (map (relax slot p.place p.cost) next)

    abbrev pub blank : Cell → Cell
    blank c = record c { cost = none; parent = none }

    unfoldable pub step : Slot fl → List Cell → List Cell
    step slot cells = relax_all slot cells (map blank cells)

    -- The loop over the slots; `parents` is kept with the last table first.
    unfoldable pub run_slots :
        List Cell → List (List Cell) → List (Slot fl) → List Cell × List (List Cell)
    run_slots cost parents [] = (cost, parents)
    run_slots cost parents (slot ∷ slots) =
        let next = step slot cost in run_slots next (next ∷ parents) slots
