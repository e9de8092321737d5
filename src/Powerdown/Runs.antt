-- ===== src/Powerdown/Runs.antt =====
-- The runs of lifeos-powerdown-assurance-active.py during one event.
use mathlib.Core.Path.{subst}
use lifeos_platform.Prelude.{
  String, ◌≡◌, ◌∙◌, sym, refl, ap, Bool, true, false, ◌&&◌, ◌||◌, any, Option, none, some, List, [],
  ◌∷◌, arith, eq_refl, if◌then◌else◌,
}
use lifeos_platform.Prelude.Float.{Float}
use lifeos_platform.Powerdown.Reserve.{
  Internal, Inputs, same_id, enter_event, safe_soc, release, run_active, restore_reserve, by_event,
  control,
}

module _ (fl : Float) where
  open fl use {F, sub, abs, lt, le, add, decimal, of_ℕ}

  abbrev pub run_all : Internal fl → List (Inputs fl) → Internal fl
  run_all s [] = s
  run_all s (i ∷ is) = run_all (control fl s i).internal is

  abbrev pub AllIn : String → List (Inputs fl) → Type 0
  AllIn id [] = Unit
  AllIn id (i ∷ is) = (i.active ≡ some (some id)) × AllIn id is

  -- What the runs of one event leave alone.
  pub record IsSaved (id : String) (r : Option F) (s : Internal fl) : Type 0 where
    pub event : s.event_id ≡ some id
    pub saved : s.saved_reserve_percent ≡ r

  run-IsSaved :
      (s : Internal fl) (id : String) (i : Inputs fl) (r : Option F)
      → (enter_event fl s (some id) i.reserve_now).saved_reserve_percent ≡ r
      → IsSaved id r (run_active fl s (some id) i).internal
  unfolding run_active release
  run-IsSaved s id i r h = record { event = ground arith; saved = ground arith }

  same_event :
      (s : Internal fl) (id : String) (i : Inputs fl) (r : Option F)
      → IsSaved id r s
      → (enter_event fl s (some id) i.reserve_now).saved_reserve_percent ≡ r
  unfolding enter_event
  same_event s id i r h = rw h.event (simp eq_refl h.saved)

  pub event-IsSaved :
      (s : Internal fl) (id : String) (i : Inputs fl) (r : Option F) (a : Option (Option String))
      → a ≡ some (some id)
      → (enter_event fl s (some id) i.reserve_now).saved_reserve_percent ≡ r
      → IsSaved id r (by_event fl s i a).internal
  unfolding by_event
  event-IsSaved s id i r a e h =
      subst (λ a. IsSaved id r (by_event fl s i a).internal) (sym e) (run-IsSaved s id i r h)

  pub all-IsSaved :
      (s : Internal fl) (id : String) (is : List (Inputs fl)) (r : Option F)
      → AllIn id is
      → IsSaved id r s
      → IsSaved id r (run_all s is)
  unfolding control
  all-IsSaved s id [] r a h = h
  all-IsSaved s id (i ∷ is) r (a, rest) h =
      all-IsSaved (control fl s i).internal id is r rest
        (event-IsSaved s id i r i.active a (same_event s id i r h))

  pub new_event :
      (s : Internal fl) (id : String) (i : Inputs fl)
      → same_id fl s.event_id (some id) ≡ false
      → (enter_event fl s (some id) i.reserve_now).saved_reserve_percent ≡ i.reserve_now
  unfolding enter_event
  new_event s id i h = rw h

  -- A run whose meters are fresh and trusted, with a charge above the minimum and its margin, and a
  -- reserve that is known.
  abbrev pub charged : Option F → Option F → Bool
  charged (some soc) (some reserve_min) = lt (add reserve_min (of_ℕ 2)) soc
  charged _ _ = false

  abbrev pub known : Option F → Bool
  known none = false
  known (some x) = true

  abbrev pub may_release : Inputs fl → Bool
  may_release i =
      i.authoritative_fresh
      && (i.aligned_crosscheck_ok && (charged i.soc i.reserve_min && known i.reserve_now))

  run-owns_reserve :
      (s : Internal fl) (id : String) (i : Inputs fl) (m n soc : Option F)
      → i.reserve_min ≡ m
      → i.reserve_now ≡ n
      → i.soc ≡ soc
      → (run_active fl s (some id) i).internal.owns_reserve
        ≡ ((enter_event fl s (some id) i.reserve_now).owns_reserve || may_release i)
  unfolding run_active release safe_soc
  run-owns_reserve s id i (some m) (some n) (some soc) f g c = ground arith
  run-owns_reserve s id i (some m) none (some soc) f g c = ground arith
  run-owns_reserve s id i none n soc f g c = ground arith
  run-owns_reserve s id i (some m) n none f g c = ground arith

  pub event-owns_reserve :
      (s : Internal fl) (id : String) (i : Inputs fl) (a : Option (Option String))
      → a ≡ some (some id)
      → (by_event fl s i a).internal.owns_reserve
        ≡ ((enter_event fl s (some id) i.reserve_now).owns_reserve || may_release i)
  unfolding by_event
  event-owns_reserve s id i a e = rw e (run-owns_reserve s id i _ _ _ refl refl refl)

  still_owns :
      (s : Internal fl) (id : String) (i : Inputs fl)
      → s.event_id ≡ some id
      → (enter_event fl s (some id) i.reserve_now).owns_reserve ≡ s.owns_reserve
  unfolding enter_event
  still_owns s id i e = rw e (simp eq_refl)

  pub owns_nothing :
      (s : Internal fl) (id : String) (i : Inputs fl)
      → same_id fl s.event_id (some id) ≡ false
      → (enter_event fl s (some id) i.reserve_now).owns_reserve ≡ false
  unfolding enter_event
  owns_nothing s id i h = rw h refl

  pub all-owns_reserve :
      (s : Internal fl) (id : String) (is : List (Inputs fl)) (r : Option F)
      → AllIn id is
      → IsSaved id r s
      → (run_all s is).owns_reserve ≡ (s.owns_reserve || any may_release is)
  unfolding control
  all-owns_reserve s id [] r a h = ground arith
  all-owns_reserve s id (i ∷ is) r (a, rest) h =
      let t = (control fl s i).internal in
      let saved = event-IsSaved s id i r i.active a (same_event s id i r h) in
      let first = event-owns_reserve s id i i.active a in
      let kept = still_owns s id i h.event in
      let later = all-owns_reserve t id is r rest saved in
      later
      ∙ or_after t.owns_reserve s.owns_reserve (may_release i) (any may_release is)
          (first ∙ ap (λ b. b || may_release i) kept)
    where
      or_after : (x y b c : Bool) → x ≡ (y || b) → (x || c) ≡ (y || (b || c))
      or_after x y b c e = ground arith

  pub restore_after :
      (t : Internal fl) (id : String) (i : Inputs fl) (r n m : F)
      → IsSaved id (some r) t
      → i.active ≡ none
      → i.reserve_now ≡ some n
      → i.reserve_min ≡ some m
      → le (abs (sub n m)) (decimal 1 2) ≡ true
      → (control fl t i).written ≡ (if t.owns_reserve then some r else none)
  unfolding control by_event restore_reserve
  restore_after t id i r n m h a f g k = ground (arith, h.saved)
