-- ===== src/Agent/Contract.antt =====
-- When `milestone_decision` passes or blocks a milestone (governor/autonomous_agent.py).
use lifeos_platform.Prelude.{
  String, ◌≡◌, refl, arith, ◌↔◌, Bool, true, false, Option, none, some, List, [], ◌∷◌, contains,
  is_empty, if◌then◌else◌,
}
use lifeos_platform.Agent.Decision.{
  Texts, Outcome, pass, retry, blocked, Verdict, or_text, outcome_of, incomplete_contract_states,
  is_generic, is_incomplete, incomplete_fields, decide, milestone_decision,
}

module _ (py : Texts) where
  -- The evidence has a value for the field, and not one that says that it is not complete.
  abbrev pub Complete : String → String → Type 0
  Complete evidence field =
      (value : String) × (py.contract_value evidence field ≡ some value)
      × (contains incomplete_contract_states (py.underscored (py.upper (py.strip value))) ≡ false)

  abbrev pub AllComplete : String → List String → Type 0
  AllComplete evidence [] = Unit {0}
  AllComplete evidence (field ∷ fields) = Complete evidence field × AllComplete evidence fields

  complete_if :
      (o : Option String)
      → is_incomplete py o ≡ false
      → (value : String) × (o ≡ some value)
        × (contains incomplete_contract_states (py.underscored (py.upper (py.strip value))) ≡ false)
  complete_if none h = absurd (ground arith)
  complete_if (some value) h = (value, refl, h)

  incomplete_if :
      (evidence field : String)
      → Complete evidence field
      → is_incomplete py (py.contract_value evidence field) ≡ false
  incomplete_if evidence field (value, e, h) = rw e h

  is_empty-kept :
      (b : Bool) (field : String) (rest : List String)
      → (is_empty (if b then field ∷ rest else rest) ≡ true
          ↔ ((b ≡ false) × (is_empty rest ≡ true)))
  is_empty-kept true field rest = ground arith
  is_empty-kept false field rest = ground arith

  incomplete_fields-AllComplete :
      (evidence : String) (fields : List String)
      → (is_empty (incomplete_fields py evidence fields) ≡ true ↔ AllComplete evidence fields)
  unfolding incomplete_fields
  incomplete_fields-AllComplete evidence [] = (λ _. tt, λ _. refl)
  incomplete_fields-AllComplete evidence (field ∷ fields) =
      let (there, back) = incomplete_fields-AllComplete evidence fields in
      let (kept, keep) =
        is_empty-kept (is_incomplete py (py.contract_value evidence field)) field _ in
      (
        λ h. (complete_if _ (kept h).0, there (kept h).1),
        λ (c, cs). keep (incomplete_if evidence field c, back cs),
      )

  decide-cases :
      (incomplete : List String) (o : Outcome) (reason next evidence : String)
      → let d = decide py incomplete o reason next evidence in
        (d.iteration_result ≡ o)
        × (d.milestone_result ≡ pass ↔ ((o ≡ pass) × (is_empty incomplete ≡ true)))
        × (d.milestone_result ≡ blocked ↔ ((o ≡ blocked) × (is_generic py reason ≡ false)))
  decide-cases incomplete pass reason next evidence = ground arith
  decide-cases incomplete retry reason next evidence = ground arith
  decide-cases incomplete blocked reason next evidence = ground arith

  -- A milestone passes exactly if the verdict is PASS and the evidence has a complete value for every
  -- mandatory field, and is blocked exactly if the verdict is BLOCKED for a reason that is not
  -- generic; the iteration's own result is the verdict's.
  pub milestone_decision-Complete :
      (fields : List String) (v : Verdict) (evidence : String)
      → let d = milestone_decision py fields v evidence in
        let said = outcome_of (py.upper (or_text v.verdict "RETRY")) in
        (d.iteration_result ≡ said)
        × (d.milestone_result ≡ pass ↔ ((said ≡ pass) × AllComplete evidence fields))
        × (d.milestone_result ≡ blocked
            ↔ ((said ≡ blocked) × (is_generic py (or_text v.reason "") ≡ false)))
  unfolding milestone_decision
  milestone_decision-Complete fields v evidence =
      let (same, (passes, pass_if), blocks) =
        decide-cases (incomplete_fields py evidence fields)
          (outcome_of (py.upper (or_text v.verdict "RETRY"))) (or_text v.reason "")
          (or_text v.next_instruction "") evidence in
      let (there, back) = incomplete_fields-AllComplete evidence fields in
      (same, (λ h. ((passes h).0, there (passes h).1), λ (e, cs). pass_if (e, back cs)), blocks)
