-- ===== src/Planner/Tables.antt =====
-- The tables of the dynamic programme in planner.py, and the trips that they stand for.
use mathlib.Core.Path.{subst}
use mathlib.Core.List.{Memᴰ}
use mathlib.Core.List.Memᴰ as Memᴰ
use lifeos_platform.Prelude.{
  ℕ, suc, ◌≤◌, ◌≡◌, refl, sym, ap, ◌∙◌, true, false, none, some, List, [], ◌∷◌, map, arith, ◌==◌,
  if◌then◌else◌,
}
use lifeos_platform.Prelude.Float.{Float}
use lifeos_platform.Planner.Slots.{Slot}
use lifeos_platform.Planner.Dynamic.{Config, Place, Cell, zero_kwh, blank, step, run_slots}
use lifeos_platform.Planner.Optimise.{initial, parent_of, reverse_onto}
use lifeos_platform.Planner.Cells.{Counted, Counted-le, Counted-map, best, best-place, step-eq-map}

module _ (fl : Float) (config : Config fl) (places : List (Place fl)) (start : Place fl) where
  open fl use {F, add, lt}

  -- The tables after these slots, the last slot first.
  abbrev pub table_of : List (Slot fl) → List (Cell fl)
  table_of [] = initial fl start places
  table_of (slot ∷ slots) = step fl config slot (table_of slots)

  abbrev pub parents_of : List (Slot fl) → List (List (Cell fl))
  parents_of [] = []
  parents_of (slot ∷ slots) = table_of (slot ∷ slots) ∷ parents_of slots

  pub run_slots_lem :
      (done slots : List (Slot fl))
      → run_slots fl config (table_of done) (parents_of done) slots
        ≡ (table_of (reverse_onto fl done slots), parents_of (reverse_onto fl done slots))
  unfolding run_slots reverse_onto
  run_slots_lem done [] = refl
  run_slots_lem done (slot ∷ slots) = run_slots_lem (slot ∷ done) slots

  abbrev pub IsCounted : ℕ → List (Place fl) → Type 0
  IsCounted n [] = Unit
  IsCounted n (p ∷ ps) = (p.index ≡ n) × IsCounted (suc n) ps

  IsCounted-le :
      (n : ℕ) (p : Place fl) (ps : List (Place fl)) → IsCounted n ps → Memᴰ p ps → n ≤ p.index
  IsCounted-le n p [] h m = elim m [ ]
  IsCounted-le n p (q ∷ qs) (h, hs) (Memᴰ.head e) = omega (arith, ap (λ (y : Place fl). y.index) e)
  IsCounted-le n p (q ∷ qs) (h, hs) (Memᴰ.tail m) = omega (arith, IsCounted-le (suc n) p qs hs m)

  -- A place is known by its index.
  pub same_place :
      (n : ℕ) (p q : Place fl) (ps : List (Place fl))
      → IsCounted n ps
      → Memᴰ p ps
      → Memᴰ q ps
      → p.index ≡ q.index
      → p ≡ q
  same_place n p q [] h m k e = elim m [ ]
  same_place n p q (x ∷ xs) (h, hs) (Memᴰ.head i) (Memᴰ.head j) e = i ∙ sym j
  same_place n p q (x ∷ xs) (h, hs) (Memᴰ.tail m) (Memᴰ.tail k) e =
      same_place (suc n) p q xs hs m k e
  same_place n p q (x ∷ xs) (h, hs) (Memᴰ.head i) (Memᴰ.tail k) e =
      absurd (omega (arith, IsCounted-le (suc n) q xs hs k, ap (λ (y : Place fl). y.index) i))
  same_place n p q (x ∷ xs) (h, hs) (Memᴰ.tail m) (Memᴰ.head j) e =
      absurd (omega (arith, IsCounted-le (suc n) p xs hs m, ap (λ (y : Place fl). y.index) j))

  abbrev pub entry_of : Place fl → Cell fl
  entry_of p = record {
    place = p;
    cost = if p.index == start.index then some (zero_kwh fl) else none;
    parent = none;
  }

  entries-Counted : (n : ℕ) (ps : List (Place fl)) → IsCounted n ps → Counted fl n (map entry_of ps)
  entries-Counted n [] h = tt
  entries-Counted n (p ∷ ps) (h, hs) = (h, entries-Counted (suc n) ps hs)

  module _ (counted : IsCounted 0 places) where
    pub table_of-Counted : (slots : List (Slot fl)) → Counted fl 0 (table_of slots)
    unfolding initial
    table_of-Counted [] = entries-Counted 0 places counted
    table_of-Counted (slot ∷ slots) =
        subst (Counted fl 0) (sym (step-eq-map fl config slot (table_of slots))) (
          Counted-map fl 0 (λ c. best fl config slot (table_of slots) (blank fl config c))
            (table_of slots) (λ c. best-place fl config slot (table_of slots) (blank fl config c))
            (table_of-Counted slots))

  pub parent_of_lem :
      (n : ℕ) (c : Cell fl) (cs : List (Cell fl))
      → Counted fl n cs
      → Memᴰ c cs
      → parent_of fl c.place.index cs ≡ c.parent
  unfolding parent_of
  parent_of_lem n c [] h m = elim m [ ]
  parent_of_lem n c (x ∷ xs) (h, hs) (Memᴰ.head e) =
      let same : x.place.index ≡ c.place.index = ap (λ (y : Cell fl). y.place.index) (sym e) in
      let test : (x.place.index == c.place.index) ≡ true = ground arith in
      rw test (ap (λ (y : Cell fl). y.parent) (sym e))
  parent_of_lem n c (x ∷ xs) (h, hs) (Memᴰ.tail m) =
      let after : suc n ≤ c.place.index = Counted-le fl (suc n) c xs hs m in
      let test : (x.place.index == c.place.index) ≡ false = ground arith in
      rw test (parent_of_lem (suc n) c xs hs m)

  -- A cell of a table comes from the one of its place in the table before.
  pub record Comes (slot : Slot fl) (cells : List (Cell fl)) (c : Cell fl) : Type 0 where
    pub before : Cell fl
    pub place : Memᴰ before cells
    pub made : c ≡ best fl config slot cells (blank fl config before)

  pub step-Comes :
      (slot : Slot fl) (cells : List (Cell fl)) (c : Cell fl)
      → Memᴰ c (step fl config slot cells)
      → Comes slot cells c
  step-Comes slot cells c m =
      let (b, k, e) =
        Memᴰ.of_map (λ x. best fl config slot cells (blank fl config x)) cells
          (subst (Memᴰ c) (step-eq-map fl config slot cells) m) in
      record { before = b; place = k; made = sym e }

  -- Every place has its cell in every table.
  pub cell_at :
      (slots : List (Slot fl)) (p : Place fl)
      → Memᴰ p places
      → (c : Cell fl) × Memᴰ c (table_of slots) × (c.place ≡ p)
  unfolding initial
  cell_at [] p m = (entry_of p, Memᴰ.map entry_of m, refl)
  cell_at (slot ∷ slots) p m =
      let (c, k, e) = cell_at slots p m in
      let g : Cell fl → Cell fl = λ x. best fl config slot (table_of slots) (blank fl config x) in
      (
        g c,
        subst (Memᴰ (g c)) (sym (step-eq-map fl config slot (table_of slots))) (Memᴰ.map g k),
        best-place fl config slot (table_of slots) (blank fl config c) ∙ e,
      )
