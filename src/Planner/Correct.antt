-- ===== src/Planner/Correct.antt =====
-- The plan that `_optimise` of planner.py returns is a cheapest one.
use mathlib.Core.Path.{subst}
use mathlib.Core.List.{Memᴰ}
use lifeos_platform.Prelude.{
  ℕ, zero, suc, ◌≡◌, refl, Bool, true, false, Option, none, some, List, [], ◌∷◌, arith,
  if◌then◌else◌,
}
use lifeos_platform.Prelude.Float.{Float}
use lifeos_platform.Prelude.Exec.{Result, ok}
use lifeos_platform.Prelude.Outcome.{◌>>=◌, expect}
use lifeos_platform.Planner.Slots.{Error, Price, Forecast, Slot, match_slots}
use lifeos_platform.Planner.Dynamic.{
  Config, Place, Cell, flow, settled, zero_kwh, states_from, closest,
}
use lifeos_platform.Planner.Optimise.{
  Planned, Plan, states_of, states, start_of, percent_kwh, cost_lt, cheapest, cheapest_of,
  reverse_onto, plan_of, optimise,
}
use lifeos_platform.Planner.Trips.{Trip, depart, travel}
use lifeos_platform.Planner.Cells.{IsOrdered, Covers, Covers-finite}
use lifeos_platform.Planner.Tables.{table_of, run_slots_lem, IsCounted, cell_at}
use lifeos_platform.Planner.Optimal.{Way-Memᴰ, Way-Covers, Covers-IsTraced}

module _ (fl : Float) where
  open fl use {F, lt}

  closest-Memᴰ : (x : F) (p : Place fl) (ps : List (Place fl)) → Memᴰ (closest fl x p ps) (p ∷ ps)
  unfolding closest
  closest-Memᴰ x p [] = Memᴰ.head refl
  closest-Memᴰ x p (q ∷ qs) =
      let b = fl.lt (fl.abs (fl.sub q.state x)) (fl.abs (fl.sub p.state x)) in
      keep b (closest-Memᴰ x (if b then q else p) qs)
    where
      keep : (b : Bool) {r : Place fl} → Memᴰ r ((if b then q else p) ∷ qs) → Memᴰ r (p ∷ q ∷ qs)
      keep true m = Memᴰ.tail m
      keep false (Memᴰ.head e) = Memᴰ.head e
      keep false (Memᴰ.tail m) = Memᴰ.tail (Memᴰ.tail m)

  start_of-Memᴰ :
      (config : Config fl) (ps : List (Place fl)) (s : Place fl)
      → start_of fl config ps ≡ ok s
      → Memᴰ s ps
  start_of-Memᴰ config [] s h = absurd (ground arith)
  start_of-Memᴰ config (p ∷ ps) s h =
      let x = percent_kwh fl config config.start_soc in
      subst (λ q. Memᴰ q (p ∷ ps)) (ground arith) (closest-Memᴰ x p ps)

  cheapest-Memᴰ : (b : Cell fl) (cs : List (Cell fl)) → Memᴰ (cheapest fl b cs) (b ∷ cs)
  unfolding cheapest
  cheapest-Memᴰ b [] = Memᴰ.head refl
  cheapest-Memᴰ b (c ∷ cs) =
      let t = cost_lt fl c.cost b.cost in keep t (cheapest-Memᴰ (if t then c else b) cs)
    where
      keep : (t : Bool) {r : Cell fl} → Memᴰ r ((if t then c else b) ∷ cs) → Memᴰ r (b ∷ c ∷ cs)
      keep true m = Memᴰ.tail m
      keep false (Memᴰ.head e) = Memᴰ.head e
      keep false (Memᴰ.tail m) = Memᴰ.tail (Memᴰ.tail m)

  module _ (laws : IsOrdered fl) where
    lower : (a b : Option F) (x : F) → cost_lt fl a b ≡ true → Covers fl b x → Covers fl a x
    lower none b x h k = absurd (ground arith)
    lower (some a) none x h k = absurd k
    lower (some a) (some b) x h k = laws.le_trans a b x (laws.lt_asym a b h) k

    not_lower : (a b : Option F) (x : F) → cost_lt fl a b ≡ false → Covers fl a x → Covers fl b x
    not_lower none b x h k = absurd k
    not_lower (some a) none x h k = absurd (ground arith)
    not_lower (some a) (some b) x h k = laws.le_trans b a x h k

    cheapest-Covers :
        (b c : Cell fl) (cs : List (Cell fl)) (x : F)
        → Memᴰ c (b ∷ cs)
        → Covers fl c.cost x
        → Covers fl (cheapest fl b cs).cost x
    unfolding cheapest
    cheapest-Covers b c [] x (Memᴰ.head e) h = subst (λ (y : Cell fl). Covers fl y.cost x) e h
    cheapest-Covers b c [] x (Memᴰ.tail m) h = elim m [ ]
    cheapest-Covers b c (d ∷ ds) x m h =
        by (cost_lt fl d.cost b.cost) refl m
          (λ y k l. cheapest-Covers (if cost_lt fl d.cost b.cost then d else b) y ds x k l)
      where
        winner : Bool → Cell fl
        winner t = if t then d else b

        by :
            (t : Bool)
            → cost_lt fl d.cost b.cost ≡ t
            → Memᴰ c (b ∷ d ∷ ds)
            → ((y : Cell fl)
                → Memᴰ y (winner t ∷ ds)
                → Covers fl y.cost x
                → Covers fl (cheapest fl (winner t) ds).cost x)
            → Covers fl (cheapest fl (winner t) ds).cost x
        by true e (Memᴰ.head i) k =
            k d (Memᴰ.head refl)
              (lower d.cost b.cost x e (subst (λ (y : Cell fl). Covers fl y.cost x) i h))
        by true e (Memᴰ.tail (Memᴰ.head i)) k =
            k d (Memᴰ.head refl) (subst (λ (y : Cell fl). Covers fl y.cost x) i h)
        by true e (Memᴰ.tail (Memᴰ.tail n)) k = k c (Memᴰ.tail n) h
        by false e (Memᴰ.head i) k =
            k b (Memᴰ.head refl) (subst (λ (y : Cell fl). Covers fl y.cost x) i h)
        by false e (Memᴰ.tail (Memᴰ.head i)) k =
            k b (Memᴰ.head refl)
              (not_lower d.cost b.cost x e (subst (λ (y : Cell fl). Covers fl y.cost x) i h))
        by false e (Memᴰ.tail (Memᴰ.tail n)) k = k c (Memᴰ.tail n) h

  states_from-IsCounted :
      (config : Config fl) (places : List (Place fl)) (start : Place fl) (minimum step : F)
      (i n : ℕ)
      → IsCounted fl config places start i (states_from fl minimum step i n)
  unfolding states_from
  states_from-IsCounted config places start minimum step i zero = tt
  states_from-IsCounted config places start minimum step i (suc n) =
      (refl, states_from-IsCounted config places start minimum step (suc i) n)

  states-IsCounted :
      (whole_of : F → Option ℕ) (config : Config fl) (start : Place fl)
      → IsCounted fl config (states fl whole_of config) start 0 (states fl whole_of config)
  unfolding states
  states-IsCounted whole_of config start =
      by (
        whole_of (fl.div (fl.sub (percent_kwh fl config config.max_soc) minimum) config.state_step))
    where
      minimum : F
      minimum = percent_kwh fl config config.min_soc

      by :
          (o : Option ℕ)
          → IsCounted fl config
              (states fl whole_of config)
              start
              0
              (states_of fl minimum config.state_step o)
      by none = tt
      by (some count) =
          states_from-IsCounted config (states fl whole_of config) start minimum config.state_step 0
            (suc count)

  -- The cheapest cell of a table that has a cell with a cost.
  record IsLeast (cells : List (Cell fl)) : Type 0 where
    cell : Cell fl
    price : F
    returned : cheapest_of fl cells ≡ ok cell
    place : Memᴰ cell cells
    paid : cell.cost ≡ some price
    least : (c : Cell fl) (x : F) → Memᴰ c cells → Covers fl c.cost x → lt x price ≡ false

  cheapest_of-IsLeast :
      (laws : IsOrdered fl) (cells : List (Cell fl)) (c : Cell fl) (x : F)
      → Memᴰ c cells
      → Covers fl c.cost x
      → IsLeast cells
  cheapest_of-IsLeast laws [] c x m h = elim m [ ]
  cheapest_of-IsLeast laws (b ∷ cs) c x m h =
      let e = cheapest fl b cs in
      let (y, paid, bound) = Covers-finite fl e.cost x (cheapest-Covers laws b c cs x m h) in
      record {
        cell = e;
        price = y;
        returned = refl;
        place = cheapest-Memᴰ b cs;
        paid = paid;
        least = λ d z k l. subst (λ o. Covers fl o z) paid (cheapest-Covers laws b d cs z k l);
      }

  -- The battery may rest for half an hour: no change is within the charging power.
  pub record MayRest (config : Config fl) : Type 0 where
    pub no_loss : (x : F) → fl.le (zero_kwh fl) (fl.sub x x) ≡ true
    pub no_power :
        (x : F)
        → lt
            (fl.add (fl.mul config.charge_kw (fl.decimal 5 10)) (fl.decimal 1 1000000000))
            (fl.div (fl.sub x x) config.charge_eff)
          ≡ false

  record IsWay (config : Config fl) (places : List (Place fl)) (start : Place fl)
      (slots : List (Slot fl)) : Type 0 where
    price : F
    details : List (Planned fl)
    way : Trip fl config places start slots start price details

  resting :
      (config : Config fl) (places : List (Place fl)) (start : Place fl) (slots : List (Slot fl))
      → MayRest config
      → Memᴰ start places
      → IsWay config places start slots
  unfolding flow
  resting config places start [] r m = record { price = zero_kwh fl; details = []; way = depart }
  resting config places start (slot ∷ slots) r m =
      let rest = resting config places start slots r m in
      let x = start.state in
      let f = settled fl slot (fl.div (fl.sub x x) config.charge_eff) (zero_kwh fl) in
      let allowed : flow fl config slot x x ≡ some f = rw (r.no_loss x, r.no_power x) refl in
      record { price = _; details = _; way = travel slot start f rest.way m allowed }

  -- The plan is a trip through all slots, its details are those of the trip, and no trip through the
  -- slots is cheaper.
  pub record IsCheapest (config : Config fl) (places : List (Place fl)) (start : Place fl)
      (slots : List (Slot fl)) (plan : Plan fl) : Type 0 where
    pub details : List (Planned fl)
    pub way :
        Trip fl config places start
          (reverse_onto fl [] slots)
          plan.end
          plan.total_cost_pence
          details
    pub listed : plan.slots ≡ reverse_onto fl [] details
    pub least :
        (s : Place fl) (x : F) (ds : List (Planned fl))
        → Trip fl config places start (reverse_onto fl [] slots) s x ds
        → lt x plan.total_cost_pence ≡ false

  pub record Planning (config : Config fl) (places : List (Place fl)) (start : Place fl)
      (slots : List (Slot fl)) (r : Result Error (Plan fl)) : Type 0 where
    pub plan : Plan fl
    pub returned : r ≡ ok plan
    pub cheapest : IsCheapest config places start slots plan

-- Where the states are not empty, each price has a forecast and rates, and the battery may rest,
-- `_optimise` returns a plan. The plan is a trip of the battery from the starting state through the
-- slots, by changes within its power; its total is what the trip costs, added up slot by slot in the
-- floats of the program, its slots are the details of the trip, and no such trip costs less.
pub optimise-Planning :
    (fl : Float) (whole_of : fl.F → Option ℕ) (config : Config fl) (prices : List (Price fl))
    (forecasts : List (Forecast fl)) (start : Place fl) (slots : List (Slot fl))
    → IsOrdered fl
    → MayRest fl config
    → start_of fl config (states fl whole_of config) ≡ ok start
    → match_slots fl forecasts prices ≡ ok slots
    → Planning fl config
        (states fl whole_of config)
        start
        slots
        (optimise fl whole_of config prices forecasts)
unfolding optimise ◌>>=◌ expect
optimise-Planning fl whole_of config prices forecasts start slots laws rest h matched =
    let places = states fl whole_of config in
    let present = start_of-Memᴰ fl config places start h in
    let counted : IsCounted fl config places start 0 places =
      states-IsCounted fl whole_of config start in
    let done = reverse_onto fl [] slots in
    let table = table_of fl config places start done in
    let idle = resting fl config places start done rest present in
    let (c, m, e) = cell_at fl config places start done start present in
    let best =
      cheapest_of-IsLeast fl laws table c idle.price m
        (Way-Covers fl config places start present laws idle.way c m e) in
    let traced =
      Covers-IsTraced fl config places start present counted done best.cell best.price best.place
        best.paid in
    record {
      plan = plan_of fl config best.cell.place best.price (reverse_onto fl [] traced.details);
      returned =
          rw
            (
              h,
              matched,
              run_slots_lem fl config places start [] slots,
              best.returned,
              traced.traced,
              best.paid,
            )
            refl;
      cheapest = record {
        details = traced.details;
        way = traced.way;
        listed = refl;
        least = λ s x ds t.
            let (d, k, i) =
              cell_at fl config places start done s (Way-Memᴰ fl config places start present t) in
            best.least d x k (Way-Covers fl config places start present laws t d k i);
      };
    }
