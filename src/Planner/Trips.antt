-- ===== src/Planner/Trips.antt =====
-- The schedules that the planner of planner.py may choose from, and what one costs.
use mathlib.Core.List.{Memᴰ}
use lifeos_platform.Prelude.{◌≡◌, some, List, [], ◌∷◌}
use lifeos_platform.Prelude.Float.{Float}
use lifeos_platform.Planner.Slots.{Slot}
use lifeos_platform.Planner.Dynamic.{Config, Place, Flow, flow, detail_of, zero_kwh}
use lifeos_platform.Planner.Optimise.{Planned}

module _ (fl : Float) (config : Config fl) (places : List (Place fl)) (start : Place fl) where
  open fl use {F, add}

  -- A way through the slots, the last one first, that ends in a state with a cost, and its details,
  -- the last one first: from the starting state, by changes that half an hour allows.
  pub data Trip : List (Slot fl) → Place fl → F → List (Planned fl) → Type 0 where
    depart : Trip [] start (zero_kwh fl) []
    travel :
        {slots : List (Slot fl)} {p : Place fl} {c : F} {ds : List (Planned fl)}
        → (slot : Slot fl) (s : Place fl) (f : Flow fl) → Trip slots p c ds
        → Memᴰ s places
        → flow fl config slot p.state s.state ≡ some f
        → Trip (slot ∷ slots) s (add c f.slot_cost) (
            record { price = slot.price; detail = detail_of fl config slot p.state s.state f } ∷ ds)
