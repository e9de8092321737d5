-- ===== src/Agent/Ended.antt =====
-- How a job of `_execute_job_locked` may end (governor/autonomous_agent.py).
use lifeos_platform.Prelude.{
  ℕ, suc, ◌≤◌, ◌≡◌, Bool, true, false, Option, some, ◌⊎◌, List, [], ◌∷◌, ◌++◌, length, String,
  str_eq,
}
use lifeos_platform.Prelude.Exec.{Result, ok, err}
use lifeos_platform.Agent.Decision.{Texts, pass, retry, blocked, milestone_decision}
use lifeos_platform.Agent.Loop.{
  Status, queued, running, passed, is_blocked, failed, Iteration, Job, Gates, World, Exception,
  Handoff, built, is_pass,
}

-- What the loop decides by: a job without its stage and its texts.
pub record Core : Type 0 where
  pub status : Status
  pub iterations : List Iteration
  pub fields : List String
  pub deploys : Bool
  pub deployment : Option (Option String)
  pub is_completed : Bool

abbrev pub core : Job → Core
core job = record {
  status = job.status;
  iterations = job.iterations;
  fields = job.mandatory_final_fields;
  deploys = job.deploy_engineer_runtime;
  deployment = job.deployment;
  is_completed = job.is_completed;
}

abbrev pub Retried : List Iteration → Type 0
Retried [] = Unit {0}
Retried (x ∷ xs) = (x.milestone_result ≡ retry) × Retried xs

-- What is to be deployed after a passed milestone: the engineer's runtime where the job says so, and
-- else what the builder's handoff asks for.
abbrev pub Asked : Bool → Handoff → String → Type 0
Asked deploys handoff operation =
    ((deploys ≡ true) × (operation ≡ "deploy-engineer-runtime"))
    ⊎ ((deploys ≡ false)
        × (handoff.deployment_operation ≡ some operation)
        × (str_eq operation "" ≡ false))

module _ (py : Texts) (gates : Gates) where
  -- The handoff is the builder's in the round of the iteration.
  abbrev pub Handed : Iteration → Handoff → Type 0
  Handed x handoff =
      (n : ℕ) × (job : Job) × (feedback : Option String) × ((built py gates
          (gates.run_builder n job x.iteration feedback)).handoff
        ≡ handoff)

  -- The broker's answer to the operation was kept, and was a pass or not.
  abbrev pub Deployed : Core → String → Bool → Type 0
  Deployed c operation is_passed =
      (answer : Option String) × (n : ℕ) × (job : Job) × (gates.request_bounded_deployment n job
          operation
        ≡ ok answer)
      × (c.deployment ≡ some answer)
      × (is_pass answer ≡ is_passed)

  -- The status against the last iteration: `count` rounds of at most `max_iterations` were run.
  abbrev pub Explained : ℕ → ℕ → Core → Iteration → Status → Type 0
  Explained max_iterations count c last queued = ⊥
  Explained max_iterations count c last running = ⊥
  Explained max_iterations count c last passed =
      (last.milestone_result ≡ pass)
      × ((handoff : Handoff) × Handed last handoff
          × ((operation : String) → Asked c.deploys handoff operation → Deployed c operation true))
  Explained max_iterations count c last is_blocked =
      (last.milestone_result ≡ blocked)
      ⊎ ((last.milestone_result ≡ pass)
          × ((handoff : Handoff) × Handed last handoff
              × ((operation : String) × Asked c.deploys handoff operation
                  × Deployed c operation false)))
  Explained max_iterations count c last failed =
      (last.milestone_result ≡ retry) × (count ≡ max_iterations)

  -- An iteration's result is the milestone decision on its verdict and its evidence.
  abbrev pub Judged : List String → Iteration → Type 0
  Judged fields x =
      x.milestone_result ≡ (milestone_decision py fields x.verification x.evidence).milestone_result

  pub record Ended (old : List Iteration) (max_iterations : ℕ) (c : Core) : Type 0 where
    pub earlier : List Iteration
    pub last : Iteration
    pub appended : c.iterations ≡ old ++ (earlier ++ last ∷ [])
    pub retried : Retried earlier
    pub judged : Judged c.fields last
    pub bounded : suc (length earlier) ≤ max_iterations
    pub completed : c.is_completed ≡ true
    pub explained : Explained max_iterations (suc (length earlier)) c last c.status

  -- The job has ended, and its file says so.
  abbrev pub EndedWell : List Iteration → ℕ → World → Type 0
  EndedWell old max_iterations w = Ended old max_iterations (core w.job) × (w.saved ≡ w.job)

module _ (R : Type 0) where
  -- `R` holds if the call raises.
  abbrev pub Raises : {A : Type 0} → Result Exception A → Type 0
  Raises (ok a) = Unit {0}
  Raises (err e) = R

  -- `R` holds if a call outside the loop's `try` blocks raises.
  pub record Answers (gates : Gates) : Type 0 where
    pub saved : (n : ℕ) → gates.saves n ≡ false → R
    pub published :
        (n : ℕ) (job : Job) (i : ℕ) (h : Handoff) → Raises (gates.apply_and_publish_patch n job i h)
    pub ran : (n : ℕ) (job : Job) (h : Handoff) → Raises (gates.run_runtime n job h)
    pub asserted : (n : ℕ) (job : Job) → Raises (gates.verify_canonical_assertions n job)
    pub deployed :
        (n : ℕ) (job : Job) (o : String) → Raises (gates.request_bounded_deployment n job o)
    pub recorded : (n : ℕ) (job : Job) → Raises (gates.publish_record n job)
