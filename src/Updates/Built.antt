-- ===== src/Updates/Built.antt =====
-- What a packet of engineer/managed_updates.py rests on.
use lifeos_platform.Prelude.{String, ◌≡◌, refl, Bool, true, ◌&&◌, Option, none, some, List, arith}
use lifeos_platform.Prelude.Exec.{ok}
use lifeos_platform.Prelude.Outcome.{
  Ensures, >>=-Ensures, ok-Ensures, require-returns, expect-returns,
}
use lifeos_platform.Updates.Contract.{
  Texts, pre_update_checks, required_checks, Disposition, coalesce, classify_risk,
}
use lifeos_platform.Updates.Packet.{
  Target, Policy, Observation, Packet, enabled_target, regressed, settle, may_deploy, build_packet,
}

module _ (py : Texts) where
  -- The steps of `build_packet` that led to the packet.
  pub record IsBuilt (policy : Policy) (o : Observation) (packet : Packet) : Type 0 where
    pub target : Target
    pub terms : List String
    pub before : Disposition × Bool
    pub listed : policy.targets o.target ≡ some target
    pub enabled : target.enabled ≡ true
    pub risk_terms : target.risk_terms ≡ some terms
    pub selected : coalesce py o.releases ≡ ok packet.candidate
    pub installed : o.installed_version ≡ some packet.installed_version
    pub digests : (py.is_digest o.installed_digest && py.is_digest packet.candidate.digest) ≡ true
    pub judged :
        classify_risk py o.target packet.installed_version packet.candidate terms
        ≡ ok (packet.risk, packet.risk_reasons)
    pub checked : required_checks o.pre_update pre_update_checks ≡ ok tt
    pub tested : regressed py o.regression o.rollback_safe ≡ ok before
    pub settled :
        settle py before o.rollback_proof o.installed_digest
        ≡ ok (packet.final_disposition, packet.rollback_executed)
    pub source : py.starts_with packet.candidate.source "https://" ≡ true
    pub deploys :
        packet.automatic_deploy_allowed ≡ may_deploy py policy target packet.risk o.pre_update

  enabled-target :
      (o : Option Target) (t : Target) → enabled_target o ≡ ok t → (o ≡ some t) × (t.enabled ≡ true)
  enabled-target none t h = absurd (ground arith)
  enabled-target (some s) t h = ground arith

  pub build_packet-IsBuilt :
      (policy : Policy) (o : Observation) (packet : Packet)
      → build_packet py policy o ≡ ok packet
      → IsBuilt policy o packet
  unfolding build_packet
  build_packet-IsBuilt policy o packet h =
      let steps : Ensures (IsBuilt policy o) (build_packet py policy o) =
        (>>=-Ensures _ _ λ target e1. >>=-Ensures _ _ λ candidate e2.
          >>=-Ensures _ _ λ installed e3. >>=-Ensures _ _ λ u4 e4. >>=-Ensures _ _ λ terms e5.
            >>=-Ensures _ _ λ judged e6. >>=-Ensures _ _ λ u7 e7. >>=-Ensures _ _ λ outcome e8.
              >>=-Ensures _ _ λ final e9. >>=-Ensures _ _ λ u10 e10. ok-Ensures _ (record {
                target = target;
                terms = terms;
                before = outcome;
                listed = (enabled-target _ target e1).0;
                enabled = (enabled-target _ target e1).1;
                risk_terms = expect-returns _ _ terms e5;
                selected = e2;
                installed = expect-returns _ _ installed e3;
                digests = require-returns _ _ u4 e4;
                judged = e6;
                checked = e7;
                tested = e8;
                settled = e9;
                source = require-returns _ _ u10 e10;
                deploys = refl;
              })) in
      steps.holds packet h
