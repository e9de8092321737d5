-- ===== src/Powerdown/Reserve.antt =====
-- lifeos-powerdown-assurance-active.py, parts 2 and 6: which saving event is active, and who owns
-- the battery reserve.
use lifeos_platform.Prelude.{
  ℕ, String, Bool, true, false, ◌&&◌, not, Option, none, some, List, [], ◌∷◌, ◌++◌, leb, ltb,
  str_eq, if◌then◌else◌,
}
use lifeos_platform.Prelude.Float.{Float}

-- A joined event; a start or an end that is no ISO time is `none`.
pub record Event : Type 0 where
  pub id : Option String
  pub start : Option ℕ
  pub end : Option ℕ

pub record Dated : Type 0 where
  pub start : ℕ
  pub end : ℕ
  pub event : Event

pub record Found : Type 0 where
  pub active : Option Dated
  pub future : List Dated

-- One round of the loop over the joined events.
unfoldable pub sort_event : ℕ → Found → Event → Option ℕ → Option ℕ → Found
sort_event now f e none end = f
sort_event now f e (some s) none = f
sort_event now f e (some s) (some t) =
    let d : Dated = record { start = s; end = t; event = e } in
    if leb s now && ltb now t
    then record f { active = some d }
    else if ltb now s
    then record f { future = f.future ++ d ∷ [] }
    else f

unfoldable pub find_events : ℕ → Found → List Event → Found
find_events now f [] = f
find_events now f (e ∷ es) = find_events now (sort_event now f e e.start e.end) es

-- `future.sort(key=start)[0]`: the sort is stable, so the first of the earliest.
unfoldable pub earliest : Dated → List Dated → Dated
earliest d [] = d
earliest d (e ∷ es) = earliest (if ltb e.start d.start then e else d) es

unfoldable pub next_event : List Dated → Option Dated
next_event [] = none
next_event (d ∷ ds) = some (earliest d ds)

module _ (fl : Float) where
  open fl use {F, add, sub, mul, div, maximum, minimum, abs, lt, le, decimal, of_ℕ}

  -- The file of the controller's own state; the defaults of `internal.get` are those of `idle`.
  pub record Internal : Type 0 where
    pub event_id : Option String
    pub last_epoch : Option F
    pub last_import_w : Option F
    pub event_import_kwh : F
    pub saved_reserve_percent : Option F
    pub owns_reserve : Bool

  abbrev pub idle : Internal
  idle = record {
    event_id = none;
    last_epoch = none;
    last_import_w = none;
    event_import_kwh = of_ℕ 0;
    saved_reserve_percent = none;
    owns_reserve = false;
  }

  -- What a run has read: `active` is the identifier of the active event, if there is one.
  pub record Inputs : Type 0 where
    pub active : Option (Option String)
    pub epoch : F
    pub grid_import : Option F
    pub authoritative_fresh : Bool
    pub aligned_crosscheck_ok : Bool
    pub soc : Option F
    pub reserve_min : Option F
    pub reserve_now : Option F

  pub data Action : Type 0 where
    no_write_outside_event active_event_reserve_release post_event_reserve_restore : Action
    blocked_grid_stale blocked_not_trusted blocked_soc_low blocked_no_interface : Action

  -- The state that is saved, the action, and the value written to the reserve control.
  pub record Outcome : Type 0 where
    pub internal : Internal
    pub action : Action
    pub written : Option F

  abbrev pub same_id : Option String → Option String → Bool
  same_id none none = true
  same_id none (some b) = false
  same_id (some a) none = false
  same_id (some a) (some b) = str_eq a b

  -- `if previous_event_id != event_id`
  unfoldable pub enter_event : Internal → Option String → Option F → Internal
  enter_event s id reserve_now = if same_id s.event_id id then s else record s {
    event_import_kwh = of_ℕ 0;
    last_epoch = none;
    last_import_w = none;
    saved_reserve_percent = reserve_now;
    owns_reserve = false;
  }

  unfoldable pub integrate : F → Option F → Option F → F → Option F → F
  integrate total (some last_epoch) (some last_import) epoch (some grid_import) =
      let dt = minimum (maximum (sub epoch last_epoch) (of_ℕ 0)) (of_ℕ 90) in
      let avg = div (add (maximum last_import (of_ℕ 0)) (maximum grid_import (of_ℕ 0))) (of_ℕ 2) in
      add total (div (mul avg dt) (of_ℕ 3600000))
  integrate total _ _ epoch _ = total

  -- `soc > reserve_floor_percent`, with the margin of 2 percent
  unfoldable pub safe_soc : Option F → Option F → Bool
  safe_soc (some soc) (some reserve_min) = lt (add reserve_min (of_ℕ 2)) soc
  safe_soc _ _ = false

  unfoldable pub release : Internal → Option F → Option F → Outcome
  release s (some reserve_min) (some reserve_now) = record {
    internal = record s { owns_reserve = true };
    action = active_event_reserve_release;
    written =
        if lt (decimal 1 10) (abs (sub reserve_now reserve_min)) then some reserve_min else none;
  }
  release s _ _ = record { internal = s; action = blocked_no_interface; written = none }

  unfoldable pub run_active : Internal → Option String → Inputs → Outcome
  run_active s id i =
      let entered = enter_event s id i.reserve_now in
      let t = record entered {
        event_id = id;
        last_epoch = some i.epoch;
        last_import_w = i.grid_import;
        event_import_kwh =
            integrate entered.event_import_kwh entered.last_epoch entered.last_import_w i.epoch
              i.grid_import;
      } in
      if not i.authoritative_fresh
      then record { internal = t; action = blocked_grid_stale; written = none }
      else if not i.aligned_crosscheck_ok
      then record { internal = t; action = blocked_not_trusted; written = none }
      else if not (safe_soc i.soc i.reserve_min)
      then record { internal = t; action = blocked_soc_low; written = none }
      else release t i.reserve_min i.reserve_now

  unfoldable pub restore_reserve : Bool → Option F → Option F → Option F → Outcome
  restore_reserve true (some saved) (some reserve_now) (some reserve_min) =
      if le (abs (sub reserve_now reserve_min)) (decimal 1 2)
      then record { internal = idle; action = post_event_reserve_restore; written = some saved }
      else record { internal = idle; action = no_write_outside_event; written = none }
  restore_reserve _ _ _ _ = record {
    internal = idle;
    action = no_write_outside_event;
    written = none;
  }

  unfoldable pub by_event : Internal → Inputs → Option (Option String) → Outcome
  by_event s i none =
      restore_reserve s.owns_reserve s.saved_reserve_percent i.reserve_now i.reserve_min
  by_event s i (some id) = run_active s id i

  -- Part 6, from the saved state to the saved state.
  unfoldable pub control : Internal → Inputs → Outcome
  unfolding by_event
  control s i = by_event s i i.active
