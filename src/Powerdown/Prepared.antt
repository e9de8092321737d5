-- ===== src/Powerdown/Prepared.antt =====
-- What a report of READY by lifeos-powerdown-assurance-active.py rests on.
use mathlib.Core.List.{Memᴰ}
use lifeos_platform.Prelude.{◌≤◌, ◌≡◌, refl, arith, true, Option, none, some, length}
use lifeos_platform.Prelude.Float.{Float}
use lifeos_platform.Powerdown.Readiness.{
  ready, load_kwh, conservative_load_requirement, collect, required_battery_kwh, forecast_for,
  first_known, current_soc_kwh, usable_at_event_kwh, is_some, readiness, Telemetry, assess,
}
use lifeos_platform.Powerdown.Bounds.{IsMonotone, need, requirement-IsCovered}

module _ (fl : Float) (laws : IsMonotone fl) where
  open fl use {F, add, sub, mul, div, maximum, le, decimal, of_ℕ}

  -- What a charge leaves above the reserve and its margin, after the losses.
  abbrev pub left : F → F → F → F
  left charge capacity reserve_min =
      let reserve_kwh = mul (div (add reserve_min (of_ℕ 2)) (of_ℕ 100)) capacity in
      mul (maximum (sub charge reserve_kwh) (of_ℕ 0)) (decimal 92 100)

  -- The battery carries the next event.
  pub record IsPrepared (t : Telemetry fl) : Type 0 where
    pub hours : F
    pub charge : F
    pub capacity : F
    pub reserve_min : F
    pub next : t.next_event ≡ some hours
    pub charge_known :
        first_known fl
          (forecast_for fl t.next_event t.forecast)
          (current_soc_kwh fl t.soc t.capacity)
        ≡ some charge
    pub capacity_known : t.capacity ≡ some capacity
    pub reserve_known : t.reserve_min ≡ some reserve_min
    pub past_days :
        (x : F)
        → Memᴰ x (collect fl t.days_back)
        → le (need fl laws x) (left charge capacity reserve_min) ≡ true
    pub load_now :
        (w : F)
        → t.load_w ≡ some w
        → le (need fl laws (load_kwh fl hours w)) (left charge capacity reserve_min) ≡ true
    pub default_load :
        le (need fl laws (load_kwh fl hours (of_ℕ 700))) (left charge capacity reserve_min) ≡ true

  by_parts :
      (t : Telemetry fl) (n a c r : Option F)
      → length (collect fl t.days_back) ≤ 7
      → t.next_event ≡ n
      → first_known fl
          (forecast_for fl t.next_event t.forecast)
          (current_soc_kwh fl t.soc t.capacity)
        ≡ a
      → t.capacity ≡ c
      → t.reserve_min ≡ r
      → readiness fl
          (is_some fl n)
          (required_battery_kwh fl n t.active t.days_back t.load_w)
          (usable_at_event_kwh fl a c r)
        ≡ ready
      → IsPrepared t
  unfolding readiness required_battery_kwh usable_at_event_kwh
  by_parts t none a c r size e f g k h = absurd (ground arith)
  by_parts t (some hours) none c r size e f g k h = absurd (ground arith)
  by_parts t (some hours) (some charge) none r size e f g k h = absurd (ground arith)
  by_parts t (some hours) (some charge) (some capacity) none size e f g k h = absurd (ground arith)
  by_parts t (some hours) (some charge) (some capacity) (some reserve_min) size e f g k h =
      let past = collect fl t.days_back in
      let required = conservative_load_requirement fl past t.load_w hours in
      let enough : le required (left charge capacity reserve_min) ≡ true = ground arith in
      let covered = requirement-IsCovered fl laws past t.load_w hours (omega arith) in
      record {
        hours = hours;
        charge = charge;
        capacity = capacity;
        reserve_min = reserve_min;
        next = e;
        charge_known = f;
        capacity_known = g;
        reserve_known = k;
        past_days = λ x m. laws.le_trans _ required _ (covered.past_days x m) enough;
        load_now = λ w i. laws.le_trans _ required _ (covered.load_now w i) enough;
        default_load = laws.le_trans _ required _ covered.default_load enough;
      }

  -- With an order as that of numbers, and readings of at most seven past days: READY is reported only
  -- for a next event, where the charge forecast for it, or else the one now, less the reserve with its
  -- margin of 2 percent and less the losses, covers each of these with the safety factor and the
  -- losses: what each of the past days took, the load now over the event, if it is known, and a load
  -- of 700 W over the event.
  pub assess-IsPrepared :
      (t : Telemetry fl) → length (collect fl t.days_back) ≤ 7 → assess fl t ≡ ready → IsPrepared t
  unfolding assess
  assess-IsPrepared t size h = by_parts t _ _ _ _ size refl refl refl refl h
