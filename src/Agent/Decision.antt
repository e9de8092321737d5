-- ===== src/Agent/Decision.antt =====
-- governor/autonomous_agent.py: `milestone_decision` and `builder_route`.
use lifeos_platform.Prelude.{
  ℕ, String, Bool, true, ◌||◌, not, Option, none, some, List, [], ◌∷◌, any, is_empty, contains,
  str_eq, if◌then◌else◌,
}

-- Python's str methods and re: `strip`, `upper`, `lower`, whether a text contains another, `join` by
-- a comma, `+`; `_contract_value`, the last value of `field = value` in the evidence, and the text
-- with each run of spaces and dashes replaced by an underscore; the last and the first characters;
-- a number in decimal.
pub record Texts : Type 0 where
  pub strip : String → String
  pub upper : String → String
  pub lower : String → String
  pub mentions : String → String → Bool
  pub join : List String → String
  pub concat : String → String → String
  pub contract_value : String → String → Option String
  pub underscored : String → String
  pub last : ℕ → String → String
  pub first : ℕ → String → String
  pub decimal : ℕ → String

pub data Outcome : Type 0 where
  pass retry blocked : Outcome

-- The verdict of an iteration; a key that is missing, or null, is `none`.
pub record Verdict : Type 0 where
  pub verdict : Option String
  pub reason : Option String
  pub next_instruction : Option String

pub record Decision : Type 0 where
  pub iteration_result : Outcome
  pub milestone_result : Outcome
  pub reason : String
  pub next_instruction : String

abbrev pub or_text : Option String → String → String
or_text none t = t
or_text (some s) t = if str_eq s "" then t else s

-- `verdict not in {"PASS", "RETRY", "BLOCKED"}` counts as RETRY.
abbrev pub outcome_of : String → Outcome
outcome_of v = if str_eq v "PASS" then pass else if str_eq v "BLOCKED" then blocked else retry

abbrev pub external_markers : List String
external_markers =
    "credential" ∷ "hardware" ∷ "physical" ∷ "policy" ∷ "authorization" ∷ "authorisation"
    ∷ "consent" ∷ []

abbrev pub actionable_markers : List String
actionable_markers =
    "engineering" ∷ "deployment" ∷ "implementation" ∷ "current gap" ∷ "further engineering"
    ∷ "further deployment" ∷ "missing evidence" ∷ "not yet satisfied" ∷ "not satisfied"
    ∷ "requires repair" ∷ []

abbrev pub incomplete_contract_states : List String
incomplete_contract_states =
    "PENDING" ∷ "NOT_STARTED" ∷ "NOT_IMPLEMENTED" ∷ "NOT_VERIFIED" ∷ "NOT_ATTEMPTED" ∷ "UNKNOWN"
    ∷ "INCOMPLETE" ∷ []

module _ (py : Texts) where
  open py use {strip, upper, lower, mentions, join, concat, contract_value, underscored}

  unfoldable pub is_generic : String → Bool
  is_generic reason =
      let lower_reason = lower (strip reason) in
      str_eq (strip reason) ""
      || (mentions lower_reason "without providing a structured reason"
          || (mentions lower_reason "genuine user-only blocker"
              || (mentions lower_reason "user-only blocker exists"
                  || (mentions lower_reason "cannot resolve itself"
                      || (any (mentions lower_reason) actionable_markers
                          || not (any (mentions lower_reason) external_markers))))))

  -- A field without a value, or with one that says that it is not complete.
  abbrev pub is_incomplete : Option String → Bool
  is_incomplete none = true
  is_incomplete (some value) =
      contains incomplete_contract_states (underscored (upper (strip value)))

  unfoldable pub incomplete_fields : String → List String → List String
  incomplete_fields evidence [] = []
  incomplete_fields evidence (field ∷ fields) =
      let rest = incomplete_fields evidence fields in
      if is_incomplete (contract_value evidence field) then field ∷ rest else rest

  abbrev pub decide : List String → Outcome → String → String → String → Decision
  decide incomplete retry reason next evidence = record {
    iteration_result = retry;
    milestone_result = retry;
    reason = reason;
    next_instruction = next;
  }
  decide incomplete blocked reason next evidence =
      if is_generic reason
      then record {
        iteration_result = blocked;
        milestone_result = retry;
        reason = "BLOCKED verdict lacked a concrete evidenced external boundary";
        next_instruction =
            "Continue autonomously: repair actionable engineering gaps or provide specific evidence of the exact external/user-only boundary.";
      }
      else record {
        iteration_result = blocked;
        milestone_result = blocked;
        reason = reason;
        next_instruction = next;
      }
  decide incomplete pass reason next evidence =
      if is_empty incomplete
      then record {
        iteration_result = pass;
        milestone_result = pass;
        reason = reason;
        next_instruction = next;
      }
      else record {
        iteration_result = pass;
        milestone_result = retry;
        reason = concat "mandatory milestone contract is incomplete: " (join incomplete);
        next_instruction =
            concat "Continue with the next useful phase and provide completed evidence for: "
              (join incomplete);
      }

  unfoldable pub milestone_decision : List String → Verdict → String → Decision
  unfolding incomplete_fields is_generic
  milestone_decision mandatory_final_fields v evidence =
      decide (incomplete_fields evidence mandatory_final_fields)
        (outcome_of (upper (or_text v.verdict "RETRY"))) (or_text v.reason "")
        (or_text v.next_instruction "") evidence

-- The builder of a route, where the local one may be unavailable.
pub data Route : Type 0 where
  normal local : Route

unfoldable pub builder_route :
    String → Option String → String → Option String → Route × Option String
builder_route privacy dispatch_builder builder local_builder =
    if str_eq privacy "local-only"
    then (local, local_builder)
    else if str_eq (or_text dispatch_builder "normal") "normal"
    then (normal, some builder)
    else (local, local_builder)
