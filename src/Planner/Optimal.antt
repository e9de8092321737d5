-- ===== src/Planner/Optimal.antt =====
-- The tables of planner.py hold the cheapest trips, and the way back is one of them.
use mathlib.Core.Path.{subst}
use mathlib.Core.List.{Memᴰ}
use mathlib.Core.List.Memᴰ as Memᴰ
use lifeos_platform.Prelude.{
  ◌≡◌, refl, sym, ap, ◌∙◌, ◌⊎◌, inl, inr, true, false, Option, none, some, List, [], ◌∷◌, arith,
  ◌==◌, if◌then◌else◌, Bool-cases,
}
use lifeos_platform.Prelude.Float.{Float}
use lifeos_platform.Prelude.Exec.{ok}
use lifeos_platform.Prelude.Outcome.{◌>>=◌, expect}
use lifeos_platform.Planner.Slots.{Slot}
use lifeos_platform.Planner.Dynamic.{Config, Place, Cell, zero_kwh, flow, detail_of, blank}
use lifeos_platform.Planner.Optimise.{Planned, initial, parent_of, backtrack}
use lifeos_platform.Planner.Trips.{Trip, depart, travel}
use lifeos_platform.Planner.Cells.{IsOrdered, Covers, Covers-finite, best, best-place}
use lifeos_platform.Planner.Rounds.{best_new, IsLinked, IsReached, best-IsReached}
use lifeos_platform.Planner.Tables.{
  table_of, parents_of, IsCounted, table_of-Counted, parent_of_lem, same_place, step-Comes, cell_at,
  entry_of,
}

module _ (fl : Float) (config : Config fl) (places : List (Place fl)) (start : Place fl) where
  open fl use {F, add, lt}

  abbrev pub Way : List (Slot fl) → Place fl → F → List (Planned fl) → Type 0
  Way slots s x ds = Trip fl config places start slots s x ds

  module _ (present : Memᴰ start places) where
    pub Way-Memᴰ :
        {slots : List (Slot fl)} {s : Place fl} {x : F} {ds : List (Planned fl)}
        → Way slots s x ds
        → Memᴰ s places
    Way-Memᴰ depart = present
    Way-Memᴰ (travel slot s f t m e) = m

    module _ (laws : IsOrdered fl) where
      cheaper :
          (o : Option F) (y x c : F)
          → lt x y ≡ false
          → Covers fl o (add y c)
          → Covers fl o (add x c)
      cheaper none y x c h k = absurd k
      cheaper (some z) y x c h k = laws.le_trans z (add y c) (add x c) k (laws.add_mono y x c h)

      start_cost :
          (c : Cell fl)
          → Memᴰ c (initial fl start places)
          → c.place ≡ start
          → Covers fl c.cost (zero_kwh fl)
      unfolding initial
      start_cost c m e =
          let (p, k, i) = Memᴰ.of_map (entry_of fl config places start) places m in
          let same : p.index ≡ start.index =
            ap (λ (y : Cell fl). y.place.index) i ∙ ap (λ (y : Place fl). y.index) e in
          let test : (p.index == start.index) ≡ true = ground arith in
          subst (λ (y : Cell fl). Covers fl y.cost (zero_kwh fl)) i
            (rw test (laws.lt_irrefl (zero_kwh fl)))

      -- No trip to a place is cheaper than its cell.
      pub Way-Covers :
          {slots : List (Slot fl)} {s : Place fl} {x : F} {ds : List (Planned fl)}
          → Way slots s x ds
          → (c : Cell fl) → Memᴰ c (table_of fl config places start slots)
          → c.place ≡ s
          → Covers fl c.cost x
      Way-Covers depart c m e = start_cost c m e
      Way-Covers (travel {slots} {p} {c = x} slot s f t k h) c m e =
          let table = table_of fl config places start slots in
          let (q, place, i) = cell_at fl config places start slots p (Way-Memᴰ t) in
          let (y, paid, le) = Covers-finite fl q.cost x (Way-Covers t q place i) in
          let from = step-Comes fl config places start slot table c m in
          let b = blank fl config from.before in
          let to : b.place ≡ s =
            sym (best-place fl config slot table b)
            ∙ (ap (λ (z : Cell fl). z.place) (sym from.made) ∙ e) in
          let allowed : flow fl config slot q.place.state b.place.state ≡ some f =
            ap (λ (z : Place fl). flow fl config slot z.state b.place.state) i
            ∙ (ap (λ (z : Place fl). flow fl config slot p.state z.state) to ∙ h) in
          subst (λ (z : Cell fl). Covers fl z.cost (add x f.slot_cost)) (sym from.made)
            (cheaper (best fl config slot table b).cost y x f.slot_cost le
              (best_new fl config slot laws table q b y f place paid allowed))

    module _ (counted : IsCounted fl config places start 0 places) where
      -- The way back from a place leads along a trip with the cost of its cell.
      pub record IsTraced (slots : List (Slot fl)) (s : Place fl) (x : F) : Type 0 where
        pub details : List (Planned fl)
        pub way : Way slots s x details
        pub traced : backtrack fl slots (parents_of fl config places start slots) s ≡ ok details

      started :
          (c : Cell fl) (x : F)
          → Memᴰ c (initial fl start places)
          → c.cost ≡ some x
          → IsTraced [] c.place x
      unfolding initial backtrack
      started c x m e =
          let (p, k, i) = Memᴰ.of_map (entry_of fl config places start) places m in
          by p k (Bool-cases (p.index == start.index)) (ap (λ (y : Cell fl). y.place) i)
            (ap (λ (y : Cell fl). y.cost) i ∙ e)
        where
          by :
              (p : Place fl)
              → Memᴰ p places
              → ((p.index == start.index) ≡ true) ⊎ ((p.index == start.index) ≡ false)
              → p ≡ c.place
              → (if p.index == start.index then some (zero_kwh fl) else none) ≡ some x
              → IsTraced [] c.place x
          by p k (inl y) i h =
              let same : p ≡ start =
                same_place fl config places start 0 p start places counted k present
                  (ground arith) in
              let free : zero_kwh fl ≡ x = ground arith in
              record {
                details = [];
                way =
                    subst (λ s. Way [] s x []) (sym same ∙ i)
                      (subst (λ z. Way [] start z []) free depart);
                traced = refl;
              }
          by p k (inr n) i h = absurd (ground arith)

      linked :
          (slot : Slot fl) (slots : List (Slot fl)) (c : Cell fl) (x : F)
          → Memᴰ c (table_of fl config places start (slot ∷ slots))
          → c.cost ≡ some x
          → Memᴰ c.place places
          → (l : IsLinked fl config slot (table_of fl config places start slots) c)
          → IsTraced slots l.previous.place l.price
          → IsTraced (slot ∷ slots) c.place x
      unfolding backtrack ◌>>=◌ expect
      linked slot slots c x m e k l t =
          let d = detail_of fl config slot l.previous.place.state c.place.state l.change in
          let paid : add l.price l.change.slot_cost ≡ x = ground (arith, l.cost) in
          let table = table_of fl config places start (slot ∷ slots) in
          let back : parent_of fl c.place.index table ≡ some (l.previous.place, d) =
            parent_of_lem fl config places start 0 c table
              (table_of-Counted fl config places start counted (slot ∷ slots)) m
            ∙ l.parent in
          record {
            details = record { price = slot.price; detail = d } ∷ t.details;
            way =
                subst
                  (λ z.
                    Way (slot ∷ slots) c.place z
                      (record { price = slot.price; detail = d } ∷ t.details))
                  paid (travel slot c.place l.change t.way k l.allowed);
            traced = rw (back, t.traced) refl;
          }

      place_present :
          (slots : List (Slot fl)) (c : Cell fl)
          → Memᴰ c (table_of fl config places start slots)
          → Memᴰ c.place places
      unfolding initial
      place_present [] c m =
          let (p, k, i) = Memᴰ.of_map (entry_of fl config places start) places m in
          subst (λ q. Memᴰ q places) (ap (λ (y : Cell fl). y.place) i) k
      place_present (slot ∷ slots) c m =
          let from =
            step-Comes fl config places start slot (table_of fl config places start slots) c m in
          subst (λ q. Memᴰ q places)
            (sym (
              ap (λ (z : Cell fl). z.place) from.made
              ∙ best-place fl config slot (table_of fl config places start slots)
                  (blank fl config from.before)))
            (place_present slots from.before from.place)

      pub Covers-IsTraced :
          (slots : List (Slot fl)) (c : Cell fl) (x : F)
          → Memᴰ c (table_of fl config places start slots)
          → c.cost ≡ some x
          → IsTraced slots c.place x
      Covers-IsTraced [] c x m e = started c x m e
      Covers-IsTraced (slot ∷ slots) c x m e =
          let table = table_of fl config places start slots in
          let from = step-Comes fl config places start slot table c m in
          by (Covers-IsTraced slots) (
            subst (IsReached fl config slot table) (sym from.made) (
              best-IsReached fl config slot table table (blank fl config from.before) (λ p k. k)
                (inl refl)))
        where
          by :
              ((p : Cell fl) (y : F)
                → Memᴰ p (table_of fl config places start slots)
                → p.cost ≡ some y
                → IsTraced slots p.place y)
              → IsReached fl config slot (table_of fl config places start slots) c
              → IsTraced (slot ∷ slots) c.place x
          by rest (inl n) = absurd (ground (arith, n))
          by rest (inr l) =
              linked slot slots c x m e (place_present (slot ∷ slots) c m) l
                (rest l.previous l.price l.place l.paid)
