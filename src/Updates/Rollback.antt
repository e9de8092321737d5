-- ===== src/Updates/Rollback.antt =====
-- When engineer/managed_updates.py reports an update as rolled back.
use lifeos_platform.Prelude.{
  String, ◌≡◌, refl, ap, ◌∙◌, Bool, true, false, Option, none, some, arith, is_text, all, any,
  if◌then◌else◌,
}
use lifeos_platform.Prelude.Exec.{ok}
use lifeos_platform.Prelude.Outcome.{
  Ensures, >>=-Ensures, ok-Ensures, require-returns, expect-returns,
}
use lifeos_platform.Updates.Contract.{
  Texts, contract_error, Results, regression_checks, Disposition, accepted, watch,
  rollback_required, escalate_rollback_unproven, rolled_back, reads, disposition, Proof, no_dict,
  dict, prove_rollback,
}
use lifeos_platform.Updates.Packet.{
  Policy, Observation, Packet, is_rollback_required, regressed, settle, build_packet,
}
use lifeos_platform.Updates.Built.{build_packet-IsBuilt}

module _ (py : Texts) where
  -- The regression failed, a rollback was safe, and there is a proof that the digest from before
  -- was restored and that every check of the regression passed after it.
  pub record IsProven (o : Observation) : Type 0 where
    pub before : Results
    pub restored : Option String
    pub after : Results
    pub tested : o.regression ≡ some before
    pub failed : any (reads py before "FAIL") regression_checks ≡ true
    pub safe : o.rollback_safe ≡ true
    pub proof : o.rollback_proof ≡ some (dict restored (some after))
    pub same : is_text restored o.installed_digest ≡ true
    pub passed : all (reads py after "PASS") regression_checks ≡ true

  -- How a disposition came about before the proof of a rollback is looked at.
  record IsUnsettled (o : Option Results) (safe : Bool) (d : Disposition) : Type 0 where
    unproven :
        is_rollback_required d ≡ true
        → (r : Results) × (o ≡ some r)
          × (any (reads py r "FAIL") regression_checks ≡ true)
          × (safe ≡ true)
    other : ¬ (d ≡ rolled_back)

  abbrev final_of : Bool → Bool → Bool → Disposition
  final_of failed safe watching =
      if failed
      then (if safe then rollback_required else escalate_rollback_unproven)
      else if watching
      then watch
      else accepted

  rollback-final_of :
      (f s w : Bool) → is_rollback_required (final_of f s w) ≡ true → (f ≡ true) × (s ≡ true)
  rollback-final_of true true w h = (refl, refl)
  rollback-final_of true false w h = absurd (ground arith)
  rollback-final_of false s true h = absurd (ground arith)
  rollback-final_of false s false h = absurd (ground arith)

  rolled-final_of : (f s w : Bool) → ¬ (final_of f s w ≡ rolled_back)
  rolled-final_of true true w h = ground arith
  rolled-final_of true false w h = ground arith
  rolled-final_of false s true h = ground arith
  rolled-final_of false s false h = ground arith

  regressed-IsUnsettled :
      (o : Option Results) (safe : Bool)
      → Ensures (λ (q : Disposition × Bool). IsUnsettled o safe q.0) (regressed py o safe)
  unfolding regressed disposition
  regressed-IsUnsettled none safe =
      ok-Ensures _ (record { unproven = λ h. absurd (ground arith); other = λ h. ground arith })
  regressed-IsUnsettled (some r) safe = >>=-Ensures _ _ λ u e1. >>=-Ensures _ _ λ v e2.
      ok-Ensures _ (record {
        unproven = λ h. let (f, s) = rollback-final_of _ safe _ h in (r, refl, f, s);
        other = rolled-final_of _ safe _;
      })

  proof-IsProven :
      (o : Observation) (proof : Proof) (before : Results)
      → o.rollback_proof ≡ some proof
      → o.regression ≡ some before
      → any (reads py before "FAIL") regression_checks ≡ true
      → o.rollback_safe ≡ true
      → Ensures (λ (_ : Unit {0}). IsProven o) (prove_rollback py proof o.installed_digest)
  unfolding prove_rollback
  proof-IsProven o no_dict before p t f s = record { holds = λ u h. absurd (ground arith) }
  proof-IsProven o (dict restored regression) before p t f s = >>=-Ensures _ _ λ u e1.
      >>=-Ensures _ _ λ after e2. >>=-Ensures _ _ λ v e3. record {
        holds = λ w h. record {
          before = before;
          restored = restored;
          after = after;
          tested = t;
          failed = f;
          safe = s;
          proof =
              p
              ∙ ap (λ r. some (dict restored r))
                  (expect-returns regression contract_error after e2);
          same = require-returns _ _ u e1;
          passed = require-returns _ _ w h;
        };
      }

  settle-IsProven :
      (o : Observation) (before : Disposition × Bool) (proof : Option Proof)
      → IsUnsettled o.regression o.rollback_safe before.0
      → o.rollback_proof ≡ proof
      → Ensures
          (λ (q : Disposition × Bool). q.0 ≡ rolled_back → IsProven o)
          (settle py before proof o.installed_digest)
  unfolding settle
  settle-IsProven o (d, x) none u p = ok-Ensures _ λ h. absurd (u.other h)
  settle-IsProven o (d, x) (some proof) u p = >>=-Ensures _ _ λ v e1. >>=-Ensures _ _ λ w e2.
      ok-Ensures _ λ h.
        let (before, t, f, s) = u.unproven (require-returns _ _ v e1) in
        (proof-IsProven o proof before p t f s).holds w e2

-- A packet that reports ROLLED_BACK rests on a regression of which a check failed while a rollback
-- was safe, and on a proof that the digest from before the update was restored and that every check
-- of the regression passed after that.
pub build_packet-IsProven :
    (py : Texts) (policy : Policy) (o : Observation) (packet : Packet)
    → build_packet py policy o ≡ ok packet
    → packet.final_disposition ≡ rolled_back
    → IsProven py o
build_packet-IsProven py policy o packet h rolled =
    let b = build_packet-IsBuilt py policy o packet h in
    let u = (regressed-IsUnsettled py o.regression o.rollback_safe).holds b.before b.tested in
    (settle-IsProven py o b.before o.rollback_proof u refl).holds _ b.settled rolled
