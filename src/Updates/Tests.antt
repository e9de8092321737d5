-- ===== src/Updates/Tests.antt =====
-- The review of an update of predbat.
use mathlib.Core.List.{Memᴰ}
use lifeos_platform.Prelude.{
  ℕ, String, ◌≡◌, refl, true, false, Option, none, some, List, [], ◌∷◌, str_eq, if◌then◌else◌,
}
use lifeos_platform.Prelude.Exec.{Result, ok, err}
use lifeos_platform.Prelude.Outcome.{◌>>=◌, require, expect}
use lifeos_platform.Updates.Contract.{
  Version, Texts, Release, Results, version, release_version, version_lt, stable, newest, newest_of,
  coalesce, required_checks, reasons_of, sorted_set, classify_risk, disposition, prove_rollback,
  dict, rolled_back, shadow_review, Error, contract_error, routine,
}
use lifeos_platform.Updates.Packet.{
  Target, Policy, target_of, load_policy, Observation, Packet, regressed, settle, may_deploy,
  build_packet,
}
use lifeos_platform.Updates.Newest.{IsLatest, coalesce-IsLatest, coalesce_version}
use lifeos_platform.Updates.Deploy.{IsDeployable, build_packet-IsDeployable}
use lifeos_platform.Updates.Rollback.{IsProven, build_packet-IsProven}

abbrev v : ℕ → ℕ → ℕ → Version
v a b c = record { major = a; minor = b; patch = c }

abbrev semver : String → Option Version
semver s =
    if str_eq s "v1.0.0"
    then some (v 1 0 0)
    else if str_eq s "1.0.0"
    then some (v 1 0 0)
    else if str_eq s "1.1.0"
    then some (v 1 1 0)
    else none

abbrev py : Texts
py = record {
  semver = semver;
  is_digest = λ s. true;
  upper = λ s. s;
  mentions = λ notes term. false;
  starts_with = λ s t. true;
  concat = λ a b. b;
}

abbrev release : String → Release
release n = record {
  version = some n;
  prerelease = false;
  release_notes = "";
  digest = n;
  source = "https://github.com/springfall2008/batpred";
}

abbrev early : Release
early = record (release "2.0.0b1") { prerelease = true }

abbrev releases : List Release
releases = release "1.0.0" ∷ release "1.1.0" ∷ early ∷ []

coalesce-IsLatest_example : IsLatest py (release "1.1.0") releases
unfolding coalesce stable newest_of newest release_version version version_lt ◌>>=◌ expect
coalesce-IsLatest_example = coalesce-IsLatest py releases (release "1.1.0") refl

abbrev backwards : List Release
backwards = early ∷ release "1.1.0" ∷ release "1.0.0" ∷ []

Memᴰ-backwards : {x a b c : Release} → Memᴰ x (a ∷ b ∷ c ∷ []) → Memᴰ x (c ∷ b ∷ a ∷ [])
Memᴰ-backwards (Memᴰ.head e) = Memᴰ.tail (Memᴰ.tail (Memᴰ.head e))
Memᴰ-backwards (Memᴰ.tail (Memᴰ.head e)) = Memᴰ.tail (Memᴰ.head e)
Memᴰ-backwards (Memᴰ.tail (Memᴰ.tail (Memᴰ.head e))) = Memᴰ.head e
Memᴰ-backwards (Memᴰ.tail (Memᴰ.tail (Memᴰ.tail m))) = elim m [ ]

coalesce_version_example :
    release_version py (release "1.1.0") ≡ release_version py (release "1.1.0")
unfolding coalesce stable newest_of newest release_version version version_lt ◌>>=◌ expect
coalesce_version_example =
    coalesce_version py releases backwards (release "1.1.0") (release "1.1.0")
      (λ x. (λ m. Memᴰ-backwards m, λ m. Memᴰ-backwards m)) refl refl

-- Of two releases with one version, the first of the list is selected.
first_of_equals : coalesce py (release "v1.0.0" ∷ release "1.0.0" ∷ []) ≡ ok (release "v1.0.0")
unfolding coalesce stable newest_of newest release_version version version_lt ◌>>=◌ expect
first_of_equals = refl

first_of_equals_reversed :
    coalesce py (release "1.0.0" ∷ release "v1.0.0" ∷ []) ≡ ok (release "1.0.0")
unfolding coalesce stable newest_of newest release_version version version_lt ◌>>=◌ expect
first_of_equals_reversed = refl

abbrev policy : Policy
policy = record {
  mode = "managed";
  targets = λ t.
      if str_eq t "predbat"
      then some (record { enabled = true; auto_update = true; risk_terms = some ("breaking" ∷ []) })
      else none;
}

abbrev all_pass : Results
all_pass name = some "PASS"

abbrev one_fails : Results
one_fails name = if str_eq name "mqtt" then some "FAIL" else some "PASS"

abbrev before_update : Observation
before_update = record {
  target = "predbat";
  releases = releases;
  installed_version = some "1.0.0";
  installed_digest = "old";
  pre_update = all_pass;
  regression = none;
  rollback_safe = true;
  rollback_proof = none;
}

abbrev after_rollback : Observation
after_rollback = record before_update {
  regression = some one_fails;
  rollback_proof = some (dict (some "old") (some all_pass));
}

abbrev packet_of : Observation → Result Error Packet
packet_of o = build_packet py policy o

abbrev reviewed : Packet
reviewed = record {
  mode = "managed";
  target = "predbat";
  installed_version = "1.0.0";
  installed_digest = "old";
  candidate = release "1.1.0";
  coalesced_release_count = 3;
  risk = routine;
  risk_reasons = [];
  automatic_deploy_allowed = true;
  final_disposition = shadow_review;
  rollback_executed = false;
}

build_packet-IsDeployable_example : IsDeployable py policy before_update reviewed
unfolding build_packet coalesce stable newest_of newest release_version version version_lt ◌>>=◌
    expect require required_checks classify_risk reasons_of sorted_set regressed settle may_deploy
build_packet-IsDeployable_example =
    build_packet-IsDeployable py policy before_update reviewed refl refl

abbrev undone : Packet
undone = record reviewed { final_disposition = rolled_back; rollback_executed = true }

build_packet-IsProven_example : IsProven py after_rollback
unfolding build_packet coalesce stable newest_of newest release_version version version_lt ◌>>=◌
    expect require required_checks classify_risk reasons_of sorted_set regressed disposition settle
    prove_rollback may_deploy
build_packet-IsProven_example = build_packet-IsProven py policy after_rollback undone refl refl

abbrev predbat : Target
predbat = record { enabled = true; auto_update = false; risk_terms = none }

loads :
    load_policy (record { mode = some "shadow"; targets = ("predbat", predbat) ∷ [] })
    ≡ ok (record { mode = "shadow"; targets = target_of (("predbat", predbat) ∷ []) })
unfolding load_policy require expect ◌>>=◌
loads = refl

rejects_mode :
    load_policy (record { mode = some "automatic"; targets = ("predbat", predbat) ∷ [] })
    ≡ err contract_error
unfolding load_policy require expect ◌>>=◌
rejects_mode = refl

rejects_no_targets :
    load_policy (record { mode = some "managed"; targets = [] }) ≡ err contract_error
unfolding load_policy require expect ◌>>=◌
rejects_no_targets = refl
