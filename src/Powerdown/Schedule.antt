-- ===== src/Powerdown/Schedule.antt =====
-- Which event lifeos-powerdown-assurance-active.py takes as active, and which as the next one.
use mathlib.Core.Path.{subst}
use lifeos_platform.Prelude.{
  ◌∙◌, ℕ, ◌++◌, ◌≤◌, ◌<◌, ◌≡◌, refl, sym, ap, ◌⊎◌, inl, inr, true, false, ◌&&◌, Option, none, some,
  List, [], ◌∷◌, arith, ltb, leb, if◌then◌else◌, Bool-cases,
}
use lifeos_platform.Powerdown.Reserve.{
  Event, Dated, Found, sort_event, find_events, earliest, next_event,
}

abbrev pub nothing_found : Found
nothing_found = record { active = none; future = [] }

abbrev pub IsJoined : Event → List Event → Type 0
IsJoined e [] = ⊥
IsJoined e (x ∷ xs) = (x ≡ e) ⊎ IsJoined e xs

-- Some event of the list starts at `s`.
abbrev Starts : ℕ → List Dated → Type 0
Starts s [] = ⊥
Starts s (d ∷ ds) = (d.start ≡ s) ⊎ Starts s ds

abbrev AllAfter : ℕ → List Dated → Type 0
AllAfter now [] = Unit
AllAfter now (d ∷ ds) = (now < d.start) × AllAfter now ds

earliest-le_head : (d : Dated) (ds : List Dated) → (earliest d ds).start ≤ d.start
unfolding earliest
earliest-le_head d [] = omega arith
earliest-le_head d (e ∷ es) =
    ground (arith, earliest-le_head (if ltb e.start d.start then e else d) es)

earliest-le : (d : Dated) (ds : List Dated) (s : ℕ) → Starts s (d ∷ ds) → (earliest d ds).start ≤ s
unfolding earliest
earliest-le d ds s (inl h) = ground (arith, earliest-le_head d ds)
earliest-le d [] s (inr h) = absurd h
earliest-le d (e ∷ es) s (inr (inl h)) =
    ground (arith, earliest-le_head (if ltb e.start d.start then e else d) es)
earliest-le d (e ∷ es) s (inr (inr h)) =
    earliest-le (if ltb e.start d.start then e else d) es s (inr h)

earliest_after :
    (now : ℕ) (d : Dated) (ds : List Dated) → AllAfter now (d ∷ ds) → now < (earliest d ds).start
unfolding earliest
earliest_after now d [] (h, r) = h
earliest_after now d (e ∷ es) (h, (k, r)) =
    earliest_after now (if ltb e.start d.start then e else d) es
      (elim (Bool-cases (ltb e.start d.start)) [ inl y ↦ rw y (k, r) | inr n ↦ rw n (h, r) ])

Starts-append_left : (s : ℕ) (ds es : List Dated) → Starts s ds → Starts s (ds ++ es)
Starts-append_left s [] es h = absurd h
Starts-append_left s (d ∷ ds) es (inl h) = inl h
Starts-append_left s (d ∷ ds) es (inr h) = inr (Starts-append_left s ds es h)

Starts-snoc : (ds : List Dated) (d : Dated) → Starts d.start (ds ++ d ∷ [])
Starts-snoc [] d = inl refl
Starts-snoc (x ∷ ds) d = inr (Starts-snoc ds d)

AllAfter-snoc :
    (now : ℕ) (ds : List Dated) (d : Dated)
    → AllAfter now ds
    → now < d.start
    → AllAfter now (ds ++ d ∷ [])
AllAfter-snoc now [] d h k = (k, tt)
AllAfter-snoc now (x ∷ ds) d (h, r) k = (h, AllAfter-snoc now ds d r k)

module _ (now : ℕ) where
  sort-AllAfter :
      (f : Found) (e : Event) (s t : Option ℕ)
      → AllAfter now f.future
      → AllAfter now (sort_event now f e s t).future
  unfolding sort_event
  sort-AllAfter f e none t h = h
  sort-AllAfter f e (some s) none h = h
  sort-AllAfter f e (some s) (some t) h = elim (Bool-cases (leb s now && ltb now t)) [
    | inl a ↦ rw a h
    | inr n ↦ rw n (elim (Bool-cases (ltb now s)) [
      | inl l ↦ rw l (AllAfter-snoc now f.future _ h (ground arith))
      | inr g ↦ rw g h
    ])
  ]

  sort-Starts :
      (f : Found) (e : Event) (s t : Option ℕ) (u : ℕ)
      → Starts u f.future
      → Starts u (sort_event now f e s t).future
  unfolding sort_event
  sort-Starts f e none t u h = h
  sort-Starts f e (some s) none u h = h
  sort-Starts f e (some s) (some t) u h = elim (Bool-cases (leb s now && ltb now t)) [
    | inl a ↦ rw a h
    | inr n ↦ rw n (elim (Bool-cases (ltb now s)) [
      | inl l ↦ rw l (Starts-append_left u f.future _ h)
      | inr g ↦ rw g h
    ])
  ]

  sort-Starts_new :
      (f : Found) (e : Event) (s t : ℕ)
      → now < s
      → Starts s (sort_event now f e (some s) (some t)).future
  unfolding sort_event
  sort-Starts_new f e s t h =
      let late : (leb s now && ltb now t) ≡ false = ground arith in
      let future : ltb now s ≡ true = ground arith in
      rw late (rw future (Starts-snoc f.future (record { start = s; end = t; event = e })))

  find-AllAfter :
      (f : Found) (es : List Event)
      → AllAfter now f.future
      → AllAfter now (find_events now f es).future
  unfolding find_events
  find-AllAfter f [] h = h
  find-AllAfter f (e ∷ es) h =
      find-AllAfter (sort_event now f e e.start e.end) es (sort-AllAfter f e e.start e.end h)

  find-Starts :
      (f : Found) (es : List Event) (u : ℕ)
      → Starts u f.future
      → Starts u (find_events now f es).future
  unfolding find_events
  find-Starts f [] u h = h
  find-Starts f (e ∷ es) u h =
      find-Starts (sort_event now f e e.start e.end) es u (sort-Starts f e e.start e.end u h)

  find-Starts_new :
      (f : Found) (es : List Event) (e : Event) (s t : ℕ)
      → IsJoined e es
      → e.start ≡ some s
      → e.end ≡ some t
      → now < s
      → Starts s (find_events now f es).future
  unfolding find_events
  find-Starts_new f [] e s t h a b l = absurd h
  find-Starts_new f (x ∷ es) e s t (inl h) a b l =
      find-Starts (sort_event now f x x.start x.end) es s
        (subst2 (ap (λ (q : Event). q.start) h ∙ a) (ap (λ (q : Event). q.end) h ∙ b))
    where
      subst2 :
          x.start ≡ some s → x.end ≡ some t → Starts s (sort_event now f x x.start x.end).future
      subst2 p q =
          subst (λ (a : Option ℕ). Starts s (sort_event now f x a x.end).future) (sym p)
            (subst (λ (b : Option ℕ). Starts s (sort_event now f x (some s) b).future) (sym q)
              (sort-Starts_new f x s t l))
  find-Starts_new f (x ∷ es) e s t (inr h) a b l =
      find-Starts_new (sort_event now f x x.start x.end) es e s t h a b l

next_bounds :
    (now : ℕ) (ds : List Dated) (d : Dated)
    → AllAfter now ds
    → next_event ds ≡ some d
    → (now < d.start) × ((s : ℕ) → Starts s ds → d.start ≤ s)
unfolding next_event
next_bounds now [] d a h = absurd (ground arith)
next_bounds now (x ∷ ds) d a h =
    let same : earliest x ds ≡ d = ground arith in
    (
      subst (λ q. now < q.start) same (earliest_after now x ds a),
      λ s k. subst (λ q. q.start ≤ s) same (earliest-le x ds s k),
    )

-- The next event starts after now, and no joined event with a start and an end that starts after
-- now starts before it.
pub next_event-earliest :
    (now : ℕ) (es : List Event) (d : Dated)
    → next_event (find_events now nothing_found es).future ≡ some d
    → (now < d.start)
      × ((e : Event) (s t : ℕ)
          → IsJoined e es
          → e.start ≡ some s
          → e.end ≡ some t
          → now < s
          → d.start ≤ s)
next_event-earliest now es d h =
    let (after, least) = next_bounds now _ d (find-AllAfter now nothing_found es tt) h in
    (after, λ e s t j a b l. least s (find-Starts_new now nothing_found es e s t j a b l))
