-- ===== src/Planner/Cells.antt =====
-- One table of the dynamic programme in planner.py: what a round does to one of its cells.
use mathlib.Core.List.{Memᴰ}
use lifeos_platform.Prelude.{
  ℕ, suc, ◌≤◌, ◌≡◌, refl, ap, ◌∙◌, inl, inr, true, false, not, Option, none, some, List, [], ◌∷◌,
  map, arith, Bool-cases,
}
use lifeos_platform.Prelude.Float.{Float}
use lifeos_platform.Planner.Slots.{Slot}
use lifeos_platform.Planner.Dynamic.{
  Config, Place, Flow, Cell, flow, no_better, improve, relax, relax_all, blank, step,
}

-- What holds of Python's floats other than NaN: the order is total, and a rounded sum is monotone.
pub record IsOrdered (fl : Float) : Type 0 where
  pub lt_irrefl : (a : fl.F) → fl.lt a a ≡ false
  pub lt_asym : (a b : fl.F) → fl.lt a b ≡ true → fl.lt b a ≡ false
  pub le_trans : (a b c : fl.F) → fl.lt b a ≡ false → fl.lt c b ≡ false → fl.lt c a ≡ false
  pub le_lt : (a b : fl.F) → fl.le a b ≡ not (fl.lt b a)
  pub add_mono : (a b c : fl.F) → fl.lt b a ≡ false → fl.lt (fl.add b c) (fl.add a c) ≡ false

module _ (fl : Float) where
  -- The cost is finite and at most `x`.
  abbrev pub Covers : Option fl.F → fl.F → Type 0
  Covers none x = ⊥
  Covers (some y) x = fl.lt x y ≡ false

  pub Covers-finite :
      (o : Option fl.F) (x : fl.F) → Covers o x → (y : fl.F) × (o ≡ some y) × (fl.lt x y ≡ false)
  Covers-finite none x h = absurd h
  Covers-finite (some y) x h = (y, refl, h)

  -- The indices count up from `n`.
  abbrev pub Counted : ℕ → List (Cell fl) → Type 0
  Counted n [] = Unit
  Counted n (c ∷ cs) = (c.place.index ≡ n) × Counted (suc n) cs

  pub Counted-le :
      (n : ℕ) (c : Cell fl) (cs : List (Cell fl)) → Counted n cs → Memᴰ c cs → n ≤ c.place.index
  Counted-le n c [] h m = elim m [ ]
  Counted-le n c (x ∷ xs) (h, hs) (Memᴰ.head e) =
      omega (arith, ap (λ (y : Cell fl). y.place.index) e)
  Counted-le n c (x ∷ xs) (h, hs) (Memᴰ.tail m) = omega (arith, Counted-le (suc n) c xs hs m)

  pub Counted-map :
      (n : ℕ) (g : Cell fl → Cell fl) (cs : List (Cell fl))
      → ((c : Cell fl) → (g c).place ≡ c.place)
      → Counted n cs
      → Counted n (map g cs)
  Counted-map n g [] k h = tt
  Counted-map n g (c ∷ cs) k (h, hs) =
      (ap (λ (p : Place fl). p.index) (k c) ∙ h, Counted-map (suc n) g cs k hs)

module _ (fl : Float) (config : Config fl) (slot : Slot fl) where
  open fl use {F, add, lt}

  pub relax-place :
      (p : Place fl) (o : Option F) (c : Cell fl) → (relax fl config slot p o c).place ≡ c.place
  unfolding relax
  relax-place p none c = refl
  relax-place p (some x) c = by (flow fl config slot p.state c.place.state)
    where
      by : (f : Option (Flow fl)) → (improve fl config slot p x c f).place ≡ c.place
      by none = refl
      by (some f) = elim (Bool-cases (no_better fl config c.cost (add x f.slot_cost))) [
        | inl y ↦ rw y
        | inr n ↦ rw n
      ]

  -- The rounds for the previous cells, seen by one cell of the next table.
  abbrev pub best : List (Cell fl) → Cell fl → Cell fl
  best [] c = c
  best (p ∷ ps) c = best ps (relax fl config slot p.place p.cost c)

  pub best-place : (ps : List (Cell fl)) (c : Cell fl) → (best ps c).place ≡ c.place
  best-place [] c = refl
  best-place (p ∷ ps) c =
      best-place ps (relax fl config slot p.place p.cost c) ∙ relax-place p.place p.cost c

  map_twice :
      (f g : Cell fl → Cell fl) (cs : List (Cell fl)) → map f (map g cs) ≡ map (λ c. f (g c)) cs
  map_twice f g [] = refl
  map_twice f g (c ∷ cs) = ap (λ l. f (g c) ∷ l) (map_twice f g cs)

  relax_all-eq-map :
      (ps next : List (Cell fl)) → relax_all fl config slot ps next ≡ map (best ps) next
  unfolding relax_all
  relax_all-eq-map [] [] = refl
  relax_all-eq-map [] (c ∷ cs) = ap (λ l. c ∷ l) (relax_all-eq-map [] cs)
  relax_all-eq-map (p ∷ ps) next =
      relax_all-eq-map ps (map (relax fl config slot p.place p.cost) next)
      ∙ map_twice (best ps) (relax fl config slot p.place p.cost) next

  pub step-eq-map :
      (cells : List (Cell fl))
      → step fl config slot cells ≡ map (λ c. best cells (blank fl config c)) cells
  unfolding step
  step-eq-map cells =
      relax_all-eq-map cells (map (blank fl config) cells)
      ∙ map_twice (best cells) (blank fl config) cells
