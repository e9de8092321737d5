-- ===== src/Updates/Packet.antt =====
-- engineer/managed_updates.py: `load_policy` and `build_packet`.
use lifeos_platform.Prelude.{
  ℕ, String, Bool, true, false, ◌&&◌, ◌||◌, not, Option, none, some, List, [], ◌∷◌, str_eq, all,
  is_empty, length, if◌then◌else◌,
}
use lifeos_platform.Prelude.Exec.{Result, ok, err}
use lifeos_platform.Prelude.Outcome.{◌>>=◌, ◌>>◌, require, expect}
use lifeos_platform.Updates.Contract.{
  Texts, Error, contract_error, key_error, Release, Results, pre_update_checks, required_checks,
  Disposition, shadow_review, rollback_required, rolled_back, Risk, routine, escalate, coalesce,
  classify_risk, reads, disposition, Proof, prove_rollback,
}

pub record Target : Type 0 where
  pub enabled : Bool
  pub auto_update : Bool
  pub risk_terms : Option (List String)

-- The parsed policy file: its mode, and its targets, empty where the key is missing.
pub record Document : Type 0 where
  pub mode : Option String
  pub targets : List (String × Target)

pub record Policy : Type 0 where
  pub mode : String
  pub targets : String → Option Target

unfoldable pub target_of : List (String × Target) → String → Option Target
target_of [] name = none
target_of ((key, target) ∷ rest) name =
    let other = target_of rest name in if str_eq key name then some target else other

-- A mode of another type than text is not one of the two, and counts as missing.
unfoldable pub load_policy : Document → Result Error Policy
load_policy d = do
  mode ← expect d.mode contract_error
  require (str_eq mode "shadow" || str_eq mode "managed") contract_error
  require (not (is_empty d.targets)) contract_error
  ok (record { mode = mode; targets = target_of d.targets })

pub record Observation : Type 0 where
  pub target : String
  pub releases : List Release
  pub installed_version : Option String
  pub installed_digest : String
  pub pre_update : Results
  pub regression : Option Results
  pub rollback_safe : Bool
  pub rollback_proof : Option Proof

-- What the packet says that is computed, the digest of its own text aside.
pub record Packet : Type 0 where
  pub mode : String
  pub target : String
  pub installed_version : String
  pub installed_digest : String
  pub candidate : Release
  pub coalesced_release_count : ℕ
  pub risk : Risk
  pub risk_reasons : List String
  pub automatic_deploy_allowed : Bool
  pub final_disposition : Disposition
  pub rollback_executed : Bool

abbrev pub enabled_target : Option Target → Result Error Target
enabled_target none = err contract_error
enabled_target (some t) = if t.enabled then ok t else err contract_error

abbrev pub is_routine : Risk → Bool
is_routine routine = true
is_routine escalate = false

abbrev pub is_rollback_required : Disposition → Bool
is_rollback_required rollback_required = true
is_rollback_required _ = false

module _ (py : Texts) where
  open py use {is_digest, starts_with}

  unfoldable pub regressed : Option Results → Bool → Result Error (Disposition × Bool)
  regressed none rollback_safe = ok (shadow_review, false)
  regressed (some results) rollback_safe = disposition py results rollback_safe

  unfoldable pub settle :
      Disposition × Bool → Option Proof → String → Result Error (Disposition × Bool)
  settle final none installed_digest = ok final
  settle (final, executed) (some proof) installed_digest = do
    require (is_rollback_required final) contract_error
    prove_rollback py proof installed_digest
    ok (rolled_back, true)

  unfoldable pub may_deploy : Policy → Target → Risk → Results → Bool
  may_deploy policy target risk pre =
      str_eq policy.mode "managed"
      && (target.auto_update && (is_routine risk && all (reads py pre "PASS") pre_update_checks))

  unfoldable pub build_packet : Policy → Observation → Result Error Packet
  build_packet policy o = do
    target ← enabled_target (policy.targets o.target)
    candidate ← coalesce py o.releases
    installed ← expect o.installed_version key_error
    require (is_digest o.installed_digest && is_digest candidate.digest) contract_error
    terms ← expect target.risk_terms key_error
    judged ← classify_risk py o.target installed candidate terms
    required_checks o.pre_update pre_update_checks
    outcome ← regressed o.regression o.rollback_safe
    final ← settle outcome o.rollback_proof o.installed_digest
    require (starts_with candidate.source "https://") contract_error
    ok (record {
      mode = policy.mode;
      target = o.target;
      installed_version = installed;
      installed_digest = o.installed_digest;
      candidate = candidate;
      coalesced_release_count = length o.releases;
      risk = judged.0;
      risk_reasons = judged.1;
      automatic_deploy_allowed = may_deploy policy target judged.0 o.pre_update;
      final_disposition = final.0;
      rollback_executed = final.1;
    })
