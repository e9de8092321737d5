-- ===== src/Powerdown/Bounds.antt =====
-- Bounds on `conservative_load_requirement` of lifeos-powerdown-assurance-active.py.
use mathlib.Core.Path.{subst}
use mathlib.Core.List.{Memᴰ}
use lifeos_platform.Prelude.{
  ℕ, zero, suc, ◌≤◌, ◌≡◌, refl, sym, ap, ◌∙◌, inl, inr, arith, Bool, true, false, Option, some,
  List, [], ◌∷◌, ◌++◌, length, Bool-cases, if◌then◌else◌,
}
use lifeos_platform.Prelude.Float.{Float}
use lifeos_platform.Powerdown.Readiness.{
  insert_value, sort_values, nth, percentile_index, as_list, greatest, greatest_of, load_kwh,
  map_some, conservative_load_requirement,
}

-- What holds of Python's floats other than NaN: the order is total, `max` is an upper bound, and the
-- rounded product with a positive constant and quotient by one are monotone.
pub record IsMonotone (fl : Float) : Type 0 where
  pub le_refl : (a : fl.F) → fl.le a a ≡ true
  pub le_trans : (a b c : fl.F) → fl.le a b ≡ true → fl.le b c ≡ true → fl.le a c ≡ true
  pub le_of_lt : (a b : fl.F) → fl.lt a b ≡ true → fl.le a b ≡ true
  pub le_of_not_lt : (a b : fl.F) → fl.lt a b ≡ false → fl.le b a ≡ true
  pub maximum_left : (a b : fl.F) → fl.le a (fl.maximum a b) ≡ true
  pub maximum_right : (a b : fl.F) → fl.le b (fl.maximum a b) ≡ true
  pub mul_mono :
      (a b : fl.F)
      → fl.le a b ≡ true
      → fl.le (fl.mul a (fl.decimal 120 100)) (fl.mul b (fl.decimal 120 100)) ≡ true
  pub div_mono :
      (a b : fl.F)
      → fl.le a b ≡ true
      → fl.le (fl.div a (fl.decimal 92 100)) (fl.div b (fl.decimal 92 100)) ≡ true

module _ (fl : Float) where
  open fl use {F, add, sub, mul, div, maximum, lt, le, decimal, of_ℕ}

  abbrev pub Bounded : F → List F → Type 0
  Bounded b [] = Unit
  Bounded b (x ∷ xs) = (le x b ≡ true) × Bounded b xs

  Bounded-append : (b : F) (xs ys : List F) → Bounded b (xs ++ ys) → Bounded b xs × Bounded b ys
  Bounded-append b [] ys h = (tt, h)
  Bounded-append b (x ∷ xs) ys (h, rest) = let (p, q) = Bounded-append b xs ys rest in ((h, p), q)

  pub Bounded-Memᴰ : (b x : F) (xs : List F) → Bounded b xs → Memᴰ x xs → le x b ≡ true
  Bounded-Memᴰ b x [] h m = elim m [ ]
  Bounded-Memᴰ b x (y ∷ ys) (h, rest) (Memᴰ.head e) = subst (λ z. le z b ≡ true) (sym e) h
  Bounded-Memᴰ b x (y ∷ ys) (h, rest) (Memᴰ.tail m) = Bounded-Memᴰ b x ys rest m

  data IsLast : F → List F → Type 0 where
    one : (b : F) → IsLast b (b ∷ [])
    more : {b : F} {ys : List F} (x : F) → IsLast b ys → IsLast b (x ∷ ys)

  -- The last entry bounds all of them.
  abbrev Capped : List F → Type 0
  Capped xs = (b : F) × IsLast b xs × Bounded b xs

  abbrev CappedIfAny : List F → Type 0
  CappedIfAny [] = Unit
  CappedIfAny (x ∷ xs) = Capped (x ∷ xs)

  any-Capped : (xs : List F) → Capped xs → CappedIfAny xs
  any-Capped [] h = tt
  any-Capped (x ∷ xs) h = h

  Capped-tail : (x : F) (xs : List F) → Capped (x ∷ xs) → CappedIfAny xs
  Capped-tail x [] h = tt
  Capped-tail x (y ∷ ys) (b, more _ i, (h, rest)) = (b, i, rest)

  nth-IsLast :
      (b : F) (xs : List F) (k : ℕ) → IsLast b xs → length xs ≡ suc k → nth fl xs k ≡ some b
  nth-IsLast b [] k i e = elim i [ ]
  nth-IsLast b (x ∷ []) zero (one _) e = refl
  nth-IsLast b (x ∷ []) (suc k) i e = absurd (omega arith)
  nth-IsLast b (x ∷ []) zero (more _ i) e = elim i [ ]
  nth-IsLast b (x ∷ y ∷ ys) zero i e = absurd (omega arith)
  nth-IsLast b (x ∷ y ∷ ys) (suc k) (more _ i) e = nth-IsLast b (y ∷ ys) k i (omega arith)

  insert-Bounded :
      (b x : F) (ys : List F) → Bounded b (insert_value fl x ys) → (le x b ≡ true) × Bounded b ys
  unfolding insert_value
  insert-Bounded b x [] h = h
  insert-Bounded b x (y ∷ ys) h = by (lt y x) (insert_value fl x ys) (insert-Bounded b x ys) h
    where
      by :
          (c : Bool) (rest : List F)
          → (Bounded b rest → (le x b ≡ true) × Bounded b ys)
          → Bounded b (if c then y ∷ rest else x ∷ y ∷ ys)
          → (le x b ≡ true) × Bounded b (y ∷ ys)
      by true rest k (p, q) = let (u, v) = k q in (u, (p, v))
      by false rest k h = h

  length-insert : (x : F) (ys : List F) → length (insert_value fl x ys) ≡ suc (length ys)
  unfolding insert_value
  length-insert x [] = refl
  length-insert x (y ∷ ys) = elim (Bool-cases (lt y x)) [
    | inl h ↦ rw h (ap suc (length-insert x ys))
    | inr h ↦ rw h refl
  ]

  length-sort : (xs : List F) → length (sort_values fl xs) ≡ length xs
  unfolding sort_values
  length-sort [] = refl
  length-sort (x ∷ xs) = length-insert x (sort_values fl xs) ∙ ap suc (length-sort xs)

  sort-Bounded : (b : F) (xs : List F) → Bounded b (sort_values fl xs) → Bounded b xs
  unfolding sort_values
  sort-Bounded b [] h = tt
  sort-Bounded b (x ∷ xs) h =
      let (p, q) = insert-Bounded b x (sort_values fl xs) h in (p, sort-Bounded b xs q)

  last_index : (n : ℕ) → n ≤ 8 → percentile_index fl (suc n) ≡ n
  unfolding percentile_index
  last_index n h = omega arith

  module _ (laws : IsMonotone fl) where
    insert-Capped : (x : F) (ys : List F) → CappedIfAny ys → Capped (insert_value fl x ys)
    unfolding insert_value
    insert-Capped x [] h = (x, one x, (laws.le_refl x, tt))
    insert-Capped x (y ∷ ys) h = by (insert-Capped x ys (Capped-tail y ys h)) (lt y x) refl
      where
        by :
            Capped (insert_value fl x ys)
            → (c : Bool) → lt y x ≡ c
            → Capped (if c then y ∷ insert_value fl x ys else x ∷ y ∷ ys)
        by (b, i, r) true e =
            let (p, _) = insert-Bounded b x ys r in
            (b, more y i, (laws.le_trans y x b (laws.le_of_lt y x e) p, r))
        by rest false e =
            let (b, i, (p, r)) = h in
            (b, more x i, (laws.le_trans x y b (laws.le_of_not_lt y x e) p, (p, r)))

    sort-Capped : (x : F) (xs : List F) → Capped (sort_values fl (x ∷ xs))
    unfolding sort_values
    sort-Capped x [] = insert-Capped x [] tt
    sort-Capped x (y ∷ ys) =
        insert-Capped x (sort_values fl (y ∷ ys)) (any-Capped _ (sort-Capped y ys))

    greatest-Bounded :
        (x : F) (ys : List F) → (le x (greatest fl x ys) ≡ true) × Bounded (greatest fl x ys) ys
    unfolding greatest
    greatest-Bounded x [] = (laws.le_refl x, tt)
    greatest-Bounded x (y ∷ ys) =
        let m = maximum x y in
        let (p, q) = greatest-Bounded m ys in
        (
          laws.le_trans x m _ (laws.maximum_left x y) p,
          (laws.le_trans y m _ (laws.maximum_right x y) p, q),
        )

    greatest_of-Bounded :
        (xs : List F) (default : F)
        → Bounded (greatest_of fl xs default) xs × (le default (greatest_of fl xs default) ≡ true)
    greatest_of-Bounded [] default = (tt, laws.le_refl default)
    greatest_of-Bounded (x ∷ xs) default =
        let (p, q) = greatest-Bounded x (xs ++ default ∷ []) in
        let (u, (v, _)) = Bounded-append _ xs (default ∷ []) q in ((p, u), v)

    -- Of at most nine values, the percentile is the greatest.
    percentile-Bounded :
        (x : F) (xs : List F)
        → length (x ∷ xs) ≤ 9
        → (b : F) × (nth fl (sort_values fl (x ∷ xs)) (percentile_index fl (length (x ∷ xs)))
            ≡ some b)
          × Bounded b (x ∷ xs)
    percentile-Bounded x xs h =
        let (b, i, r) = sort-Capped x xs in
        let last = nth-IsLast b _ (length xs) i (length-sort (x ∷ xs)) in
        let index = last_index (length xs) (omega arith) in
        (b, ap (nth fl (sort_values fl (x ∷ xs))) index ∙ last, sort-Bounded b (x ∷ xs) r)

    -- With the safety factor, and what is lost on the way.
    abbrev pub need : F → F
    need x = div (mul x (decimal 120 100)) (decimal 92 100)

    need_mono : (a b : F) → le a b ≡ true → le (need a) (need b) ≡ true
    need_mono a b h = laws.div_mono _ _ (laws.mul_mono a b h)

    past_covered :
        (xs : List F) (b : F) (x : F)
        → length xs ≤ 9
        → Bounded b (as_list fl (nth fl (sort_values fl xs) (percentile_index fl (length xs))))
        → Memᴰ x xs
        → le x b ≡ true
    past_covered [] b x h c m = elim m [ ]
    past_covered (y ∷ ys) b x h c m =
        let (top, e, r) = percentile-Bounded y ys h in
        let (k, _) = subst (λ o. Bounded b (as_list fl o)) e c in
        laws.le_trans x top b (Bounded-Memᴰ top x (y ∷ ys) r m) k

    now_covered :
        (load : Option F) (hours b w : F)
        → load ≡ some w
        → Bounded b (as_list fl (map_some fl (load_kwh fl hours) load))
        → le (load_kwh fl hours w) b ≡ true
    now_covered load hours b w e c =
        (subst (λ o. Bounded b (as_list fl (map_some fl (load_kwh fl hours) o))) e c).0

    -- What the requirement covers.
    pub record IsCovered (past : List F) (load : Option F) (hours r : F) : Type 0 where
      pub past_days : (x : F) → Memᴰ x past → le (need x) r ≡ true
      pub load_now : (w : F) → load ≡ some w → le (need (load_kwh fl hours w)) r ≡ true
      pub default_load : le (need (load_kwh fl hours (of_ℕ 700))) r ≡ true

    pub requirement-IsCovered :
        (past : List F) (load : Option F) (hours : F)
        → length past ≤ 9
        → IsCovered past load hours (conservative_load_requirement fl past load hours)
    unfolding conservative_load_requirement
    requirement-IsCovered past load hours h =
        let day = nth fl (sort_values fl past) (percentile_index fl (length past)) in
        let known = as_list fl (map_some fl (load_kwh fl hours) load) in
        let (b, d) = greatest_of-Bounded (as_list fl day ++ known) (load_kwh fl hours (of_ℕ 700)) in
        let (p, q) = Bounded-append _ (as_list fl day) known b in
        record {
          past_days = λ x m. need_mono x _ (past_covered past _ x h p m);
          load_now = λ w e. need_mono _ _ (now_covered load hours _ w e q);
          default_load = need_mono _ _ d;
        }
