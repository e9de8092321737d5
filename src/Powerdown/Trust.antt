-- ===== src/Powerdown/Trust.antt =====
-- When the cross-check of lifeos-powerdown-assurance-active.py trusts the meters.
use lifeos_platform.Prelude.{
  ℕ, suc, ◌≤◌, ◌≡◌, refl, Bool, true, false, List, [], ◌∷◌, ◌++◌, arith, length,
}
use lifeos_platform.Prelude.Float.{Float}
use lifeos_platform.Powerdown.CrossCheck.{
  Reading, Entry, CrossState, current_crosscheck_good, last_entries, count_run, entry, observe,
  observe_all, no_samples,
}

-- The trust after runs with these verdicts, the newest first: that of the last two runs in a row
-- that agree, and none before there are such runs.
abbrev pub settled_trust : List Bool → Bool
settled_trust [] = false
settled_trust (x ∷ []) = false
settled_trust (true ∷ true ∷ r) = true
settled_trust (false ∷ false ∷ r) = false
settled_trust (true ∷ false ∷ r) = settled_trust (false ∷ r)
settled_trust (false ∷ true ∷ r) = settled_trust (true ∷ r)

-- How many verdicts at the head are `b`.
abbrev streak : Bool → List Bool → ℕ
streak b [] = 0
streak true (true ∷ r) = suc (streak true r)
streak true (false ∷ r) = 0
streak false (false ∷ r) = suc (streak false r)
streak false (true ∷ r) = 0

module _ (fl : Float) where
  abbrev pub newest_first : List Bool → List (Reading fl) → List Bool
  newest_first h [] = h
  newest_first h (r ∷ rs) = newest_first (current_crosscheck_good fl r ∷ h) rs

  record Agrees (s : CrossState fl) (h : List Bool) : Type 0 where
    trust : s.trusted ≡ settled_trust h
    good : s.good_runs ≡ streak true h
    bad : s.bad_runs ≡ streak false h

  count_run-Agrees :
      (b : Bool) (s : CrossState fl) (h : List Bool)
      → Agrees s h
      → Agrees (count_run fl b s) (b ∷ h)
  unfolding count_run
  count_run-Agrees true s [] a = ground arith
  count_run-Agrees true s (true ∷ h) a = ground arith
  count_run-Agrees true s (false ∷ h) a = ground arith
  count_run-Agrees false s [] a = ground arith
  count_run-Agrees false s (true ∷ h) a = ground arith
  count_run-Agrees false s (false ∷ h) a = ground arith

  observe_all-Agrees :
      (s : CrossState fl) (h : List Bool) (rs : List (Reading fl))
      → Agrees s h
      → Agrees (observe_all fl s rs) (newest_first h rs)
  unfolding observe_all observe
  observe_all-Agrees s h [] a = a
  observe_all-Agrees s h (r ∷ rs) a =
      let b = count_run-Agrees (current_crosscheck_good fl r) s h a in
      observe_all-Agrees (observe fl s r) (current_crosscheck_good fl r ∷ h) rs
        (record { trust = b.trust; good = b.good; bad = b.bad })

-- After any runs from no samples, the meters are trusted exactly if the last two consecutive runs
-- that agreed were both good.
pub observe_all-trusted :
    (fl : Float) (rs : List (Reading fl))
    → (observe_all fl (no_samples fl) rs).trusted ≡ settled_trust (newest_first fl [] rs)
observe_all-trusted fl rs =
    (observe_all-Agrees fl (no_samples fl) [] rs
      (record { trust = refl; good = refl; bad = refl })).trust

last_entries-length :
    (fl : Float) (n : ℕ) (es : List (Entry fl)) → length (last_entries fl n es) ≤ n
last_entries-length fl n [] = omega arith
last_entries-length fl n (e ∷ es) = ground (arith, last_entries-length fl n es)

-- The history on disk never grows past 40 entries, whatever was there before.
pub observe-history :
    (fl : Float) (s : CrossState fl) (r : Reading fl) → length (observe fl s r).history ≤ 40
unfolding observe
observe-history fl s r =
    last_entries-length fl 40
      (s.history ++ entry fl r (count_run fl (current_crosscheck_good fl r) s).trusted ∷ [])
