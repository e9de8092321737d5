-- ===== src/Jobs/Terminal.antt =====
-- governor/job_records.py: `_terminal_outcome`, the reason why a repair loop stopped.
use lifeos_platform.Prelude.{
  ℕ, String, Bool, true, false, ◌||◌, not, Option, none, some, List, [], ◌∷◌, length, str_eq,
  if◌then◌else◌,
}

-- Python's `str`: `upper`, and whether the lower-cased text contains another.
pub record Texts : Type 0 where
  pub upper : String → String
  pub lower_contains : String → String → Bool

pub data Kind : Type 0 where
  pass repeated_failure iteration_limit blocked non_terminal : Kind

-- What is read of a job; each iteration by its failure signature.
pub record Job : Type 0 where
  pub status : Option String
  pub stage : Option String
  pub blocked_reason : Option String
  pub failure_reason : Option String
  pub last_failure_signature : Option String
  pub iterations : List (Option String)

pub record Outcome : Type 0 where
  pub kind : Kind
  pub terminal : Bool
  pub retry_allowed : Bool
  pub reason : String
  pub iteration_count : ℕ
  pub last_failure_signature : Option String

-- `value or other`: an empty text counts as missing.
abbrev pub or_option : Option String → Option String → Option String
or_option none other = other
or_option (some s) other = if str_eq s "" then other else some s

abbrev pub or_text : Option String → String → String
or_text none t = t
or_text (some s) t = if str_eq s "" then t else s

abbrev pub last_of : List (Option String) → Option String
last_of [] = none
last_of (x ∷ []) = x
last_of (x ∷ y ∷ xs) = last_of (y ∷ xs)

abbrev pub is_non_terminal : Kind → Bool
is_non_terminal non_terminal = true
is_non_terminal _ = false

module _ (py : Texts) where
  open py use {upper, lower_contains}

  abbrev pub reason_of : Job → String
  reason_of job = or_text (or_option job.blocked_reason job.failure_reason) ""

  abbrev pub status_of : Job → String
  status_of job = upper (or_text job.status "UNKNOWN")

  unfoldable pub kind_of : String → String → String → Kind × Bool
  kind_of status stage reason =
      if str_eq status "PASS"
      then (pass, false)
      else if lower_contains reason "repeated deterministic failure"
          || str_eq stage "blocked_repeated_failure"
      then (repeated_failure, false)
      else if lower_contains reason "maximum iterations reached"
      then (iteration_limit, false)
      else if str_eq status "BLOCKED"
      then (blocked, false)
      else (non_terminal, true)

  unfoldable pub terminal_outcome : Job → Outcome
  unfolding kind_of
  terminal_outcome job =
      let k = kind_of (status_of job) (or_text job.stage "unknown") (reason_of job) in
      record {
        kind = k.0;
        terminal = not (is_non_terminal k.0);
        retry_allowed = k.1;
        reason = reason_of job;
        iteration_count = length job.iterations;
        last_failure_signature = or_option (last_of job.iterations) job.last_failure_signature;
      }
