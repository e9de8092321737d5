-- ===== src/Planner/Rounds.antt =====
-- The cost and the parent of a cell in the dynamic programme of planner.py.
use mathlib.Core.Path.{subst}
use mathlib.Core.List.{Memᴰ}
use lifeos_platform.Prelude.{
  ◌≡◌, refl, sym, ap, ◌∙◌, ◌⊎◌, inl, inr, Bool, true, false, Option, none, some, List, [], ◌∷◌,
  arith, if◌then◌else◌, Bool-cases,
}
use lifeos_platform.Prelude.Float.{Float}
use lifeos_platform.Planner.Slots.{Slot}
use lifeos_platform.Planner.Dynamic.{
  Config, Place, Flow, Cell, flow, detail_of, no_better, improve, relax,
}
use lifeos_platform.Planner.Cells.{IsOrdered, Covers, best, relax-place}

module _ (fl : Float) (config : Config fl) (slot : Slot fl) where
  open fl use {F, add, lt, le}

  module _ (laws : IsOrdered fl) where
    kept_lt : (c x : F) → le c x ≡ true → lt x c ≡ false
    kept_lt c x h = ground (arith, laws.le_lt c x)

    replaced_lt : (c x : F) → le c x ≡ false → lt c x ≡ false
    replaced_lt c x h = laws.lt_asym x c (ground (arith, laws.le_lt c x))

    improve_old :
        (p : Place fl) (px : F) (c : Cell fl) (f : Option (Flow fl)) (x : F) (o : Option F)
        → c.cost ≡ o
        → Covers fl o x
        → Covers fl (improve fl config slot p px c f).cost x
    improve_old p px c none x o e h = subst (λ k. Covers fl k x) (sym e) h
    improve_old p px c (some f) x none e h = absurd h
    improve_old p px c (some f) x (some y) e h =
        let candidate = add px f.slot_cost in
        elim (Bool-cases (le y candidate)) [
          | inl b ↦ rw (e, b) h
          | inr b ↦ rw (e, b) (laws.le_trans candidate y x (replaced_lt y candidate b) h)
        ]

    improve_new :
        (p : Place fl) (px : F) (c : Cell fl) (f : Flow fl) (o : Option F)
        → c.cost ≡ o
        → Covers fl (improve fl config slot p px c (some f)).cost (add px f.slot_cost)
    improve_new p px c f none e = rw e (laws.lt_irrefl (add px f.slot_cost))
    improve_new p px c f (some y) e =
        let candidate = add px f.slot_cost in
        elim (Bool-cases (le y candidate)) [
          | inl b ↦ rw (e, b) (kept_lt y candidate b)
          | inr b ↦ rw (e, b) (laws.lt_irrefl candidate)
        ]

    relax_old :
        (p : Place fl) (o : Option F) (c : Cell fl) (x : F)
        → Covers fl c.cost x
        → Covers fl (relax fl config slot p o c).cost x
    unfolding relax
    relax_old p none c x h = h
    relax_old p (some px) c x h =
        improve_old p px c (flow fl config slot p.state c.place.state) x c.cost refl h

    relax_new :
        (p : Place fl) (o : Option F) (c : Cell fl) (px : F) (f : Flow fl)
        → o ≡ some px
        → flow fl config slot p.state c.place.state ≡ some f
        → Covers fl (relax fl config slot p o c).cost (add px f.slot_cost)
    unfolding relax
    relax_new p o c px f e g = rw (e, g) (improve_new p px c f c.cost refl)

    best_old :
        (ps : List (Cell fl)) (c : Cell fl) (x : F)
        → Covers fl c.cost x
        → Covers fl (best fl config slot ps c).cost x
    best_old [] c x h = h
    best_old (p ∷ ps) c x h =
        best_old ps (relax fl config slot p.place p.cost c) x (relax_old p.place p.cost c x h)

    -- No cheaper way leads from a previous cell to the cell.
    pub best_new :
        (ps : List (Cell fl)) (p c : Cell fl) (px : F) (f : Flow fl)
        → Memᴰ p ps
        → p.cost ≡ some px
        → flow fl config slot p.place.state c.place.state ≡ some f
        → Covers fl (best fl config slot ps c).cost (add px f.slot_cost)
    best_new [] p c px f m e g = elim m [ ]
    best_new (q ∷ qs) p c px f (Memᴰ.head i) e g =
        best_old qs (relax fl config slot q.place q.cost c) (add px f.slot_cost) (
          relax_new q.place q.cost c px f (ap (λ (y : Cell fl). y.cost) (sym i) ∙ e)
            (ap (λ (y : Cell fl). flow fl config slot y.place.state c.place.state) (sym i) ∙ g))
    best_new (q ∷ qs) p c px f (Memᴰ.tail m) e g =
        best_new qs p (relax fl config slot q.place q.cost c) px f m e (
          ap (λ (y : Place fl). flow fl config slot p.place.state y.state)
            (relax-place fl config slot q.place q.cost c)
          ∙ g)

  -- The cost of the cell is that of a previous cell and of a change that half an hour allows, and its
  -- parent is that cell with the details of the change.
  pub record IsLinked (ps : List (Cell fl)) (c : Cell fl) : Type 0 where
    pub previous : Cell fl
    pub price : F
    pub change : Flow fl
    pub place : Memᴰ previous ps
    pub paid : previous.cost ≡ some price
    pub allowed : flow fl config slot previous.place.state c.place.state ≡ some change
    pub cost : c.cost ≡ some (add price change.slot_cost)
    pub parent :
        c.parent
        ≡ some (previous.place, detail_of fl config slot previous.place.state c.place.state change)

  abbrev pub IsReached : List (Cell fl) → Cell fl → Type 0
  IsReached ps c = (c.cost ≡ none) ⊎ IsLinked ps c

  improve-IsReached :
      (ps : List (Cell fl)) (p c : Cell fl) (px : F) (o : Option (Flow fl))
      → Memᴰ p ps
      → p.cost ≡ some px
      → flow fl config slot p.place.state c.place.state ≡ o
      → IsReached ps c
      → IsReached ps (improve fl config slot p.place px c o)
  improve-IsReached ps p c px none m e g h = h
  improve-IsReached ps p c px (some f) m e g h =
      by (no_better fl config c.cost (add px f.slot_cost))
    where
      by :
          (b : Bool)
          → IsReached ps (
              if b then c else record c {
                cost = some (add px f.slot_cost);
                parent = some (p.place, detail_of fl config slot p.place.state c.place.state f);
              })
      by true = h
      by false = inr (record {
        previous = p;
        price = px;
        change = f;
        place = m;
        paid = e;
        allowed = g;
        cost = refl;
        parent = refl;
      })

  relax-IsReached :
      (ps : List (Cell fl)) (p c : Cell fl) (o : Option F)
      → Memᴰ p ps
      → p.cost ≡ o
      → IsReached ps c
      → IsReached ps (relax fl config slot p.place o c)
  unfolding relax
  relax-IsReached ps p c none m e h = h
  relax-IsReached ps p c (some px) m e h =
      improve-IsReached ps p c px (flow fl config slot p.place.state c.place.state) m e refl h

  pub best-IsReached :
      (all ps : List (Cell fl)) (c : Cell fl)
      → ((p : Cell fl) → Memᴰ p ps → Memᴰ p all)
      → IsReached all c
      → IsReached all (best fl config slot ps c)
  best-IsReached all [] c sub h = h
  best-IsReached all (p ∷ ps) c sub h =
      best-IsReached all ps (relax fl config slot p.place p.cost c) (λ q m. sub q (Memᴰ.tail m))
        (relax-IsReached all p c p.cost (sub p (Memᴰ.head refl)) refl h)
