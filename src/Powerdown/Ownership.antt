-- ===== src/Powerdown/Ownership.antt =====
-- What lifeos-powerdown-assurance-active.py writes to the battery reserve, and what it puts back.
use lifeos_platform.Prelude.{
  String, ◌≡◌, ◌∙◌, refl, ◌⊎◌, inl, inr, ap, Bool, true, false, ◌||◌, any, Option, none, some, List,
  ◌∷◌, arith, if◌then◌else◌,
}
use lifeos_platform.Prelude.Float.{Float}
use lifeos_platform.Powerdown.Reserve.{
  Internal, Inputs, same_id, safe_soc, release, run_active, restore_reserve, by_event, control,
}
use lifeos_platform.Powerdown.Runs.{
  run_all, AllIn, may_release, event-IsSaved, all-IsSaved, new_event, event-owns_reserve,
  owns_nothing, all-owns_reserve, restore_after,
}

module _ (fl : Float) where
  open fl use {F, sub, abs, lt, le, add, decimal, of_ℕ}

  -- The reserve is released: towards the minimum, in an active event, on fresh and trusted meters,
  -- with a charge that lies above the minimum and its margin.
  pub record IsRelease (i : Inputs fl) (v : F) : Type 0 where
    pub id : Option String
    pub now : F
    pub soc : F
    pub in_event : i.active ≡ some id
    pub fresh : i.authoritative_fresh ≡ true
    pub trusted : i.aligned_crosscheck_ok ≡ true
    pub charge : i.soc ≡ some soc
    pub charged : lt (add v (of_ℕ 2)) soc ≡ true
    pub to_minimum : i.reserve_min ≡ some v
    pub read : i.reserve_now ≡ some now
    pub changes : lt (decimal 1 10) (abs (sub now v)) ≡ true

  -- The reserve is put back: outside an event, by the owner, to what was saved, while nobody else
  -- has moved it away from the minimum.
  pub record IsRestore (s : Internal fl) (i : Inputs fl) (v : F) : Type 0 where
    pub now : F
    pub minimum : F
    pub no_event : i.active ≡ none
    pub owned : s.owns_reserve ≡ true
    pub saved : s.saved_reserve_percent ≡ some v
    pub read : i.reserve_now ≡ some now
    pub bounded : i.reserve_min ≡ some minimum
    pub untouched : le (abs (sub now minimum)) (decimal 1 2) ≡ true

  written-IsRelease :
      (s : Internal fl) (id : Option String) (i : Inputs fl) (v : F) (m n soc : Option F)
      → i.active ≡ some id
      → i.reserve_min ≡ m
      → i.reserve_now ≡ n
      → i.soc ≡ soc
      → (run_active fl s id i).written ≡ some v
      → IsRelease i v
  unfolding run_active release safe_soc
  written-IsRelease s id i v (some m) (some n) (some soc) a f g c h = record {
    id = id;
    now = n;
    soc = soc;
    in_event = a;
    fresh = ground arith;
    trusted = ground arith;
    charge = c;
    charged = ground arith;
    to_minimum = ground arith;
    read = g;
    changes = ground arith;
  }
  written-IsRelease s id i v none n soc a f g c h = absurd (ground arith)
  written-IsRelease s id i v (some m) none soc a f g c h = absurd (ground arith)
  written-IsRelease s id i v (some m) (some n) none a f g c h = absurd (ground arith)

  written-IsRestore :
      (s : Internal fl) (i : Inputs fl) (v : F) (b : Bool) (saved n m : Option F)
      → i.active ≡ none
      → s.owns_reserve ≡ b
      → s.saved_reserve_percent ≡ saved
      → i.reserve_now ≡ n
      → i.reserve_min ≡ m
      → (restore_reserve fl b saved n m).written ≡ some v
      → IsRestore s i v
  unfolding restore_reserve
  written-IsRestore s i v true (some saved) (some n) (some m) a o e f g h = record {
    now = n;
    minimum = m;
    no_event = a;
    owned = o;
    saved = ground arith;
    read = f;
    bounded = g;
    untouched = ground arith;
  }
  written-IsRestore s i v false saved n m a o e f g h = absurd (ground arith)
  written-IsRestore s i v true none n m a o e f g h = absurd (ground arith)
  written-IsRestore s i v true (some x) none m a o e f g h = absurd (ground arith)
  written-IsRestore s i v true (some x) (some n) none a o e f g h = absurd (ground arith)

  control_write :
      (s : Internal fl) (i : Inputs fl) (v : F) (a : Option (Option String))
      → i.active ≡ a
      → (by_event fl s i a).written ≡ some v
      → IsRelease i v ⊎ IsRestore s i v
  unfolding by_event
  control_write s i v none e h = inr (written-IsRestore s i v _ _ _ _ e refl refl refl refl h)
  control_write s i v (some id) e h = inl (written-IsRelease s id i v _ _ _ e refl refl refl h)

-- Every value that a run writes to the reserve control is the minimum, in an active event under all
-- of the guards, or the saved value, outside an event by the owner of an untouched reserve.
pub control-writes :
    (fl : Float) (s : Internal fl) (i : Inputs fl) (v : fl.F)
    → (control fl s i).written ≡ some v
    → IsRelease fl i v ⊎ IsRestore fl s i v
unfolding control
control-writes fl s i v h = control_write fl s i v i.active refl h

-- Runs during one event that was not active before: the run after it, which finds the reserve read
-- and untouched, writes back the reserve that the first run of the event had read if in a run of the
-- event the meters were fresh and trusted, the charge lay above the minimum and its margin, and the
-- reserve was known; it writes nothing if there was no such run.
pub event-restores :
    (fl : Float) (s : Internal fl) (id : String) (first : Inputs fl) (rest : List (Inputs fl))
    (last : Inputs fl) (r n m : fl.F)
    → same_id fl s.event_id (some id) ≡ false
    → AllIn fl id (first ∷ rest)
    → first.reserve_now ≡ some r
    → last.active ≡ none
    → last.reserve_now ≡ some n
    → last.reserve_min ≡ some m
    → fl.le (fl.abs (fl.sub n m)) (fl.decimal 1 2) ≡ true
    → (control fl (run_all fl s (first ∷ rest)) last).written
      ≡ (if any (may_release fl) (first ∷ rest) then some r else none)
unfolding control
event-restores fl s id first rest last r n m other (a, all) read inactive f g near =
    let saved =
      event-IsSaved fl s id first (some r) first.active a (new_event fl s id first other ∙ read) in
    let one = event-owns_reserve fl s id first first.active a in
    let new = owns_nothing fl s id first other in
    let later = all-owns_reserve fl (control fl s first).internal id rest (some r) all saved in
    let owns : (run_all fl s (first ∷ rest)).owns_reserve ≡ any (may_release fl) (first ∷ rest) =
      later
      ∙ ap (λ b. b || any (may_release fl) rest) (one ∙ ap (λ b. b || may_release fl first) new) in
    restore_after fl (run_all fl s (first ∷ rest)) id last r n m
      (all-IsSaved fl (control fl s first).internal id rest (some r) all saved) inactive f g near
    ∙ ap (λ b. if b then some r else none) owns
