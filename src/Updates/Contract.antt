-- ===== src/Updates/Contract.antt =====
-- engineer/managed_updates.py: versions, risk, regression and the proof of a rollback.
use Prim.Native.String.{compare}
use Prim.Native.Nat.{Ordering}
use lifeos_platform.Prelude.{
  ℕ, String, Bool, true, false, ◌&&◌, ◌||◌, not, Option, none, some, List, [], ◌∷◌, ◌++◌, ltb,
  str_eq, is_text, all, any, is_empty, ◌==◌, if◌then◌else◌,
}
use lifeos_platform.Prelude.Exec.{Result, ok, err}
use lifeos_platform.Prelude.Outcome.{◌>>=◌, ◌>>◌, require, expect}

-- The three numbers of a semantic version.
pub record Version : Type 0 where
  pub major : ℕ
  pub minor : ℕ
  pub patch : ℕ

-- Python's `re` and `str`: the groups of SEMVER, a match of DIGEST, `upper`, `lower` with a test
-- for a part (`term.lower() in notes.lower()`), and the texts joined.
pub record Texts : Type 0 where
  pub semver : String → Option Version
  pub is_digest : String → Bool
  pub upper : String → String
  pub mentions : String → String → Bool
  pub starts_with : String → String → Bool
  pub concat : String → String → String

-- `ContractError`, and the error of a missing key.
pub data Error : Type 0 where
  contract_error key_error : Error

-- A field that `get` defaults to the empty text is a text.
pub record Release : Type 0 where
  pub version : Option String
  pub prerelease : Bool
  pub release_notes : String
  pub digest : String
  pub source : String

-- The results of checks by their names; the value of a check that is there is taken as a text.
abbrev pub Results : Type 0
Results = String → Option String

abbrev pub regression_checks : List String
regression_checks =
    "ha_api" ∷ "predbat_plan" ∷ "predbat_entities" ∷ "energy_telemetry" ∷ "power_signs"
    ∷ "predbat_sanity_service" ∷ "forecast_services" ∷ "tariff_provenance" ∷ "power_down_assurance"
    ∷ "mqtt" ∷ "lifeos_energy" ∷ "systemd_failures" ∷ "git_runtime_alignment" ∷ "secret_scan" ∷ []

abbrev pub pre_update_checks : List String
pre_update_checks =
    "installed_candidate_versions" ∷ "container_health_start_time" ∷ "git_alignment"
    ∷ "systemd_units" ∷ "ha_api" ∷ "predbat_status" ∷ "energy_telemetry" ∷ "predbat_sanity"
    ∷ "power_down_assurance" ∷ "mqtt" ∷ "backup" ∷ "rollback_plan" ∷ []

-- The comparison of triples.
unfoldable pub version_lt : Version → Version → Bool
version_lt a b =
    ltb a.major b.major
    || (a.major == b.major && (ltb a.minor b.minor || (a.minor == b.minor && ltb a.patch b.patch)))

unfoldable pub required_checks : Results → List String → Result Error (Unit {0})
required_checks results [] = ok tt
required_checks results (name ∷ names) =
    if has (results name) then required_checks results names else err contract_error
  where
    has : Option String → Bool
    has none = false
    has (some t) = true

pub data Disposition : Type 0 where
  shadow_review accepted watch rollback_required escalate_rollback_unproven rolled_back :
      Disposition

pub data Risk : Type 0 where
  routine escalate : Risk

-- `sorted(set(reasons))`
unfoldable pub insert_once : String → List String → List String
insert_once x [] = x ∷ []
insert_once x (y ∷ ys) =
    let rest = insert_once x ys in
    elim (compare x y) [ Ordering.lt ↦ x ∷ y ∷ ys | Ordering.eq ↦ y ∷ ys | Ordering.gt ↦ y ∷ rest ]

unfoldable pub sorted_set : List String → List String
unfolding insert_once
sorted_set [] = []
sorted_set (x ∷ xs) = insert_once x (sorted_set xs)

-- The value of "rollback_proof"; the regression in it is `none` where it is no dictionary.
pub data Proof : Type 0 where
  no_dict : Proof
  dict : (restored_digest : Option String) (regression : Option Results) → Proof

module _ (py : Texts) where
  unfoldable pub version : String → Result Error Version
  version value = expect (py.semver value) contract_error

  unfoldable pub release_version : Release → Result Error Version
  unfolding version
  release_version r = do value ← expect r.version key_error; version value

  unfoldable pub stable : List Release → List Release
  stable [] = []
  stable (r ∷ rs) = let rest = stable rs in if r.prerelease then rest else r ∷ rest

  -- `max` keeps the first of the greatest.
  unfoldable pub newest : Release → Version → List Release → Result Error Release
  newest best v [] = ok best
  newest best v (r ∷ rs) = do
    w ← release_version r
    if version_lt v w then newest r w rs else newest best v rs

  unfoldable pub newest_of : List Release → Result Error Release
  newest_of [] = err contract_error
  newest_of (r ∷ rs) = do v ← release_version r; newest r v rs

  unfoldable pub coalesce : List Release → Result Error Release
  coalesce releases = newest_of (stable releases)

  abbrev pub term_reasons : String → List String → List String
  term_reasons notes [] = []
  term_reasons notes (t ∷ ts) =
      if py.mentions notes t
      then py.concat "release_term:" t ∷ term_reasons notes ts
      else term_reasons notes ts

  unfoldable pub reasons_of : String → Version → Version → String → List String → List String
  reasons_of target old new notes terms =
      (if version_lt old new then [] else "candidate_not_newer" ∷ [])
      ++ (term_reasons notes terms
          ++ (if str_eq target "home-assistant-core" && not (new.major == old.major)
              then "home_assistant_major_change" ∷ []
              else []))

  unfoldable pub classify_risk :
      String → String → Release → List String → Result Error (Risk × List String)
  unfolding reasons_of sorted_set
  classify_risk target installed candidate terms = do
    old ← version installed
    new ← release_version candidate
    let reasons = reasons_of target old new candidate.release_notes terms
    ok ((if is_empty reasons then routine else escalate), sorted_set reasons)

  -- `str(results[name]).upper() == value`
  abbrev pub reads : Results → String → String → Bool
  reads results value name = is_text (Option_map (results name)) value
    where
      Option_map : Option String → Option String
      Option_map none = none
      Option_map (some t) = some (py.upper t)

  abbrev pub known : Results → String → Bool
  known results name =
      reads results "PASS" name || (reads results "WATCH" name || reads results "FAIL" name)

  -- The text, and the flag that is false in every return of the source.
  unfoldable pub disposition : Results → Bool → Result Error (Disposition × Bool)
  disposition regression rollback_safe = do
    required_checks regression regression_checks
    require (all (known regression) regression_checks) contract_error
    ok (
      if any (reads regression "FAIL") regression_checks
          then (if rollback_safe then rollback_required else escalate_rollback_unproven)
          else if any (reads regression "WATCH") regression_checks
          then watch
          else accepted,
      false,
    )

  unfoldable pub prove_rollback : Proof → String → Result Error (Unit {0})
  prove_rollback no_dict installed_digest = err contract_error
  prove_rollback (dict restored_digest regression) installed_digest = do
    require (is_text restored_digest installed_digest) contract_error
    results ← expect regression contract_error
    required_checks results regression_checks
    require (all (reads results "PASS") regression_checks) contract_error
