-- ===== src/Updates/Deploy.antt =====
-- When engineer/managed_updates.py lets an update be deployed by itself.
use lifeos_platform.Prelude.{
  String, ◌≡◌, refl, sym, ◌∙◌, inl, inr, Bool, true, false, ◌&&◌, not, some, List, [], ◌∷◌, ◌++◌,
  arith, str_eq, all, any, is_empty, ◌==◌, if◌then◌else◌, Bool-cases,
}
use lifeos_platform.Prelude.Exec.{ok}
use lifeos_platform.Prelude.Outcome.{Ensures, >>=-Ensures, ok-Ensures}
use lifeos_platform.Updates.Contract.{
  Version, version_lt, Texts, Release, release_version, version, Results, pre_update_checks, Risk,
  routine, escalate, term_reasons, reasons_of, classify_risk, reads,
}
use lifeos_platform.Updates.Packet.{
  Target, Policy, Observation, Packet, is_routine, may_deploy, build_packet,
}
use lifeos_platform.Updates.Newest.{IsLatest, coalesce-IsLatest}
use lifeos_platform.Updates.Built.{build_packet-IsBuilt}

module _ (py : Texts) where
  -- An update that is newer, mentions no term of the policy, and is no major change of Home
  -- Assistant.
  pub record IsRoutine (target installed : String) (candidate : Release) (terms : List String)
      : Type 0 where
    pub old : Version
    pub new : Version
    pub from : version py installed ≡ ok old
    pub to : release_version py candidate ≡ ok new
    pub newer : version_lt old new ≡ true
    pub quiet : any (py.mentions candidate.release_notes) terms ≡ false
    pub minor : (str_eq target "home-assistant-core" && not (new.major == old.major)) ≡ false

  quiet-terms :
      (notes : String) (terms : List String)
      → term_reasons py notes terms ≡ []
      → any (py.mentions notes) terms ≡ false
  quiet-terms notes [] h = refl
  quiet-terms notes (t ∷ ts) h = elim (Bool-cases (py.mentions notes t)) [
    | inl y ↦ absurd (ground arith)
    | inr n ↦ rw n (quiet-terms notes ts (ground arith))
  ]

  append-nil : (xs ys : List String) → xs ++ ys ≡ [] → (xs ≡ []) × (ys ≡ [])
  append-nil [] ys h = (refl, h)
  append-nil (x ∷ xs) ys h = absurd (ground arith)

  routine-nil : (xs : List String) → (if is_empty xs then routine else escalate) ≡ routine → xs ≡ []
  routine-nil [] h = refl
  routine-nil (x ∷ xs) h = absurd (ground arith)

  classify_risk-IsRoutine :
      (target installed : String) (candidate : Release) (terms : List String)
      → Ensures
          (λ (q : Risk × List String). q.0 ≡ routine → IsRoutine target installed candidate terms)
          (classify_risk py target installed candidate terms)
  unfolding classify_risk reasons_of
  classify_risk-IsRoutine target installed candidate terms = >>=-Ensures _ _ λ old e1.
      >>=-Ensures _ _ λ new e2. ok-Ensures _ λ h.
        let notes = candidate.release_notes in
        let a : List String = if version_lt old new then [] else "candidate_not_newer" ∷ [] in
        let c : List String =
          if str_eq target "home-assistant-core" && not (new.major == old.major)
          then "home_assistant_major_change" ∷ []
          else [] in
        let nothing : a ++ (term_reasons py notes terms ++ c) ≡ [] = routine-nil _ h in
        let (p, q) = append-nil a _ nothing in
        let (r, s) = append-nil (term_reasons py notes terms) c q in
        record {
          old = old;
          new = new;
          from = e1;
          to = e2;
          newer = ground arith;
          quiet = quiet-terms notes terms r;
          minor = ground arith;
        }

module _ (py : Texts) where
  -- What allows an update without a person.
  pub record IsDeployable (policy : Policy) (o : Observation) (packet : Packet) : Type 0 where
    pub target : Target
    pub terms : List String
    pub managed : str_eq policy.mode "managed" ≡ true
    pub listed : policy.targets o.target ≡ some target
    pub enabled : target.enabled ≡ true
    pub risk_terms : target.risk_terms ≡ some terms
    pub automatic : target.auto_update ≡ true
    pub latest : IsLatest py packet.candidate o.releases
    pub is_routine_update : IsRoutine py o.target packet.installed_version packet.candidate terms
    pub digests : (py.is_digest o.installed_digest && py.is_digest packet.candidate.digest) ≡ true
    pub checked : all (reads py o.pre_update "PASS") pre_update_checks ≡ true
    pub secure : py.starts_with packet.candidate.source "https://" ≡ true

  may_deploy_lem :
      (policy : Policy) (target : Target) (risk : Risk) (pre : Results)
      → may_deploy py policy target risk pre ≡ true
      → (str_eq policy.mode "managed" ≡ true)
        × (target.auto_update ≡ true)
        × (risk ≡ routine)
        × (all (reads py pre "PASS") pre_update_checks ≡ true)
  unfolding may_deploy
  may_deploy_lem policy target risk pre h = parts _ _ risk _ h
    where
      parts :
          (a b : Bool) (r : Risk) (c : Bool)
          → (a && (b && (is_routine r && c))) ≡ true
          → (a ≡ true) × (b ≡ true) × (r ≡ routine) × (c ≡ true)
      parts true true routine true h = (refl, refl, refl, refl)
      parts true true routine false h = absurd (ground arith)
      parts true true escalate c h = absurd (ground arith)
      parts true false r c h = absurd (ground arith)
      parts false b r c h = absurd (ground arith)

-- A packet that allows the automatic deployment does so in managed mode, for an enabled target that
-- is updated automatically, of the newest stable release of those observed, which is newer than what
-- is installed, mentions none of the target's terms of risk, is no major change of Home Assistant, and comes with
-- digests and an HTTPS source, after every check before the update has passed.
pub build_packet-IsDeployable :
    (py : Texts) (policy : Policy) (o : Observation) (packet : Packet)
    → build_packet py policy o ≡ ok packet
    → packet.automatic_deploy_allowed ≡ true
    → IsDeployable py policy o packet
build_packet-IsDeployable py policy o packet h allowed =
    let b = build_packet-IsBuilt py policy o packet h in
    let (m, a, r, c) =
      may_deploy_lem py policy b.target packet.risk o.pre_update (sym b.deploys ∙ allowed) in
    record {
      target = b.target;
      terms = b.terms;
      managed = m;
      listed = b.listed;
      enabled = b.enabled;
      risk_terms = b.risk_terms;
      automatic = a;
      latest = coalesce-IsLatest py o.releases packet.candidate b.selected;
      is_routine_update =
          (classify_risk-IsRoutine py o.target packet.installed_version packet.candidate
              b.terms).holds
            (packet.risk, packet.risk_reasons) b.judged r;
      digests = b.digests;
      checked = c;
      secure = b.source;
    }
