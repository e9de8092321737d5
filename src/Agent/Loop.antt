-- ===== src/Agent/Loop.antt =====
-- governor/autonomous_agent.py: `_execute_job_locked`, the bounded loop of a job.
use lifeos_platform.Prelude.{
  ℕ, zero, suc, String, Bool, true, false, Option, none, some, List, [], ◌∷◌, ◌++◌, str_eq,
  if◌then◌else◌,
}
use lifeos_platform.Prelude.Exec.{Result, ok, err, Exec, pure, gets, attempt, ◌>>=◌, ◌>>◌}
use lifeos_platform.Agent.Decision.{
  Texts, Outcome, pass, retry, blocked, Verdict, Decision, or_text, milestone_decision,
}

pub data Status : Type 0 where
  queued running passed is_blocked failed : Status

pub record Iteration : Type 0 where
  pub iteration : ℕ
  pub builder_rc : ℕ
  pub evidence : String
  pub verification : Verdict
  pub iteration_result : Outcome
  pub milestone_result : Outcome
  pub failure_signature : Option String

-- What is read and written of a job, apart from its times, the label `engineering_loop` and the answer
-- of the record's publication. `deployment` is the status of the answer.
pub record Job : Type 0 where
  pub id : String
  pub status : Status
  pub stage : String
  pub stage_detail : Option String
  pub blocked_reason : Option String
  pub next_instruction : Option String
  pub iterations : List Iteration
  pub mandatory_final_fields : List String
  pub deploy_engineer_runtime : Bool
  pub deployment : Option (Option String)
  pub is_completed : Bool

pub record Handoff : Type 0 where
  pub deployment_operation : Option String
  pub payload : String

pub record Build : Type 0 where
  pub rc : ℕ
  pub evidence : String
  pub handoff : Handoff

-- An exception, by the name of its type and its text.
pub record Exception : Type 0 where
  pub kind : String
  pub text : String

-- The functions that the loop calls, by what the n-th call of any of them answers: builders, git,
-- the runtime, the verifier and the brokers, which may also raise.
pub record Gates : Type 0 where
  pub saves : ℕ → Bool
  pub run_builder : ℕ → Job → ℕ → Option String → Result Exception Build
  pub apply_and_publish_patch : ℕ → Job → ℕ → Handoff → Result Exception String
  pub run_runtime : ℕ → Job → Handoff → Result Exception String
  pub suppress_unpublished_runtime_instructions : String → String
  pub verify_canonical_assertions : ℕ → Job → Result Exception (Option Bool × String)
  pub independent_verify : ℕ → Job → ℕ → String → Option Bool → Result Exception Verdict
  pub failure_signature : String → Verdict → Option String
  pub request_bounded_deployment : ℕ → Job → String → Result Exception (Option String)
  pub publish_record : ℕ → Job → Result Exception (Unit {0})

-- The job in memory, its file, and the number of calls.
pub record World : Type 0 where
  pub job : Job
  pub saved : Job
  pub calls : ℕ

abbrev pub Method : Type 0 → Type 0
Method A = Exec World Exception A

abbrev pub operation_of : Bool → Handoff → Option String
operation_of true handoff = some "deploy-engineer-runtime"
operation_of false handoff = handoff.deployment_operation

abbrev pub is_pass : Option String → Bool
is_pass none = false
is_pass (some s) = str_eq s "PASS"

module _ (py : Texts) (gates : Gates) where
  open py use {strip, mentions, concat, last, first, decimal}

  abbrev pub next : World → World
  next w = record w { calls = suc w.calls }

  unfoldable pub call : {A : Type 0} → (ℕ → Job → Result Exception A) → Method A
  call f w = (f w.calls w.job, next w)

  unfoldable pub set_job : (Job → Job) → Method (Unit {0})
  set_job f w = (ok tt, record w { job = f w.job })

  -- The file is written whole, through a temporary one, or stays as it was.
  unfoldable pub save : Method (Unit {0})
  save w =
      if gates.saves w.calls
      then (ok tt, record (next w) { saved = w.job })
      else (err (record { kind = "OSError"; text = "" }), next w)

  unfoldable pub set_stage : String → String → Method (Unit {0})
  set_stage stage detail = do
    set_job (λ job. record job {
      stage = stage;
      stage_detail = if str_eq detail "" then none else some (first 1000 detail);
    })
    save

  unfoldable pub finish_job : String → String → Method (Unit {0})
  finish_job stage detail = do
    set_stage stage detail
    call (λ n job. gates.publish_record n job)
    save

  abbrev pub built : Result Exception Build → Build
  built (ok b) = b
  built (err e) = record {
    rc = 255;
    evidence = concat "builder exception: " (concat e.kind (concat ": " e.text));
    handoff = record { deployment_operation = none; payload = "" };
  }

  abbrev pub verified : Result Exception Verdict → Verdict
  verified (ok v) = v
  verified (err e) = record {
    verdict = some "RETRY";
    reason = some (concat "local verifier unavailable: " e.kind);
    next_instruction = some "Retry independent verification after local verifier recovery.";
  }

  unfoldable pub evidence_of : String → String → String → String → String
  evidence_of build publication runtime canonical = last 26000 (
      concat "ENGINEERING_LOOP=ots-owned\\nBUILD_EVIDENCE:\\n" (
        concat (last 12000 build) (
          concat "\\n\\nPUBLICATION_EVIDENCE:\\n" (
            concat (last 7000 publication) (
              concat "\\n\\n"
                (concat runtime (concat "\\nINDEPENDENT_CANONICAL_EVIDENCE:\\n" canonical)))))))

  unfoldable pub complete : Method (Unit {0})
  complete = do
    set_job (λ job. record job { status = passed; is_completed = true })
    finish_job "complete" "independent acceptance gate passed OTS result"

  unfoldable pub block : String → Method (Unit {0})
  block reason = do
    set_job (λ job. record job {
      status = is_blocked;
      blocked_reason = some reason;
      is_completed = true;
    })
    finish_job "blocked" reason

  unfoldable pub deploy : String → Method (Unit {0})
  deploy operation = do
    set_stage "deployment" "Governor approved bounded deployment gate"
    answer ← call (λ n job. gates.request_bounded_deployment n job operation)
    set_job (λ job. record job { deployment = some answer })
    if is_pass answer
        then complete
        else block "bounded runtime deployment was not approved or failed"

  -- An empty operation counts as none.
  abbrev pub deploy_if : Option String → Method (Unit {0})
  deploy_if none = complete
  deploy_if (some operation) = if str_eq operation "" then complete else deploy operation

  unfoldable pub give_up : String → Method (Unit {0})
  give_up reason = do
    set_job
        (λ job. record job { status = failed; blocked_reason = some reason; is_completed = true })
    finish_job "acceptance_failed" reason

  abbrev pub feedback_of : Decision → String
  feedback_of d =
      or_text (some d.next_instruction)
        (or_text (some (strip d.reason)) "Continue toward independently verifiable acceptance.")

  -- What follows the decision; `again` is the next round, if there is one.
  abbrev pub conclude :
      Handoff → Decision → Option (String → Method (Unit {0})) → Outcome → Method (Unit {0})
  conclude handoff d again pass = do
    deploys ← gets (λ w. w.job.deploy_engineer_runtime)
    deploy_if (operation_of deploys handoff)
  conclude handoff d again blocked =
      block (or_text (some (strip d.reason)) "concrete external boundary reported")
  conclude handoff d none retry = do
    set_job (λ job. record job { next_instruction = some (feedback_of d) })
    give_up (or_text (some (strip d.reason)) "bounded acceptance retries exhausted")
  conclude handoff d (some again) retry = do
    set_job (λ job. record job { next_instruction = some (feedback_of d) })
    save
    again (feedback_of d)

  -- A round up to its decision, with what it appends to the iterations.
  unfoldable pub work : ℕ → Option String → Method (Handoff × Decision)
  work iteration verifier_feedback = do
    set_stage "builder"
        (concat "OTS agent iteration " (concat (decimal iteration) " owns plan/edit/test/debug"))
    tried ← attempt (call (λ n job. gates.run_builder n job iteration verifier_feedback))
    let build = built tried
    set_stage "publication" "Governor bounded publication gate"
    publication ← call (λ n job. gates.apply_and_publish_patch n job iteration build.handoff)
    set_stage "runtime" "Governor bounded runtime/evidence gate"
    runtime ← call (λ n job. gates.run_runtime n job build.handoff)
    let build_evidence =
        if mentions runtime "RUNTIME_ARTIFACT_PUBLISHED=FAIL"
        then gates.suppress_unpublished_runtime_instructions build.evidence
        else build.evidence
    canonical ← call (λ n job. gates.verify_canonical_assertions n job)
    let evidence = evidence_of build_evidence publication runtime canonical.1
    set_stage "verifier" "independent local acceptance gate"
    reviewed ←
        attempt (call (λ n job. gates.independent_verify n job iteration evidence canonical.0))
    let verdict = verified reviewed
    fields ← gets (λ w. w.job.mandatory_final_fields)
    let d = milestone_decision py fields verdict evidence
    set_job (λ job. record job {
      iterations =
          job.iterations
          ++ record {
            iteration = iteration;
            builder_rc = build.rc;
            evidence = evidence;
            verification = verdict;
            iteration_result = d.iteration_result;
            milestone_result = d.milestone_result;
            failure_signature = gates.failure_signature evidence verdict;
          }
            ∷ [];
    })
    pure (build.handoff, d)

  -- The rounds that are left, from an iteration on; the last of them has no next one.
  unfoldable pub rounds : ℕ → ℕ → Option String → Method (Unit {0})
  rounds zero iteration feedback = do
    (handoff, d) ← work iteration feedback
    conclude handoff d none d.milestone_result
  rounds (suc left) iteration feedback = do
    (handoff, d) ← work iteration feedback
    conclude handoff d (some (λ text. rounds left (suc iteration) (some text))) d.milestone_result

  abbrev pub loop : ℕ → Method (Unit {0})
  loop zero = pure tt
  loop (suc left) = rounds left 1 none

  -- `LIFEOS_ACCEPTANCE_RETRY_LIMIT` is `max_iterations`.
  unfoldable pub execute_job : ℕ → Method (Unit {0})
  execute_job max_iterations = do
    saved ← gets (λ w. w.saved)
    set_job (λ _. record saved { status = running })
    loop max_iterations
