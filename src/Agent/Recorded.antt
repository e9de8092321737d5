-- ===== src/Agent/Recorded.antt =====
-- What the published record says of a job that the loop has ended: governor/autonomous_agent.py
-- together with `_terminal_outcome` of governor/job_records.py.
use lifeos_platform.Prelude.{
  ℕ, suc, String, ◌≡◌, ◌⊎◌, inl, inr, refl, arith, true, none, some, map, length,
}
use lifeos_platform.Prelude.Exec.{ok}
use lifeos_platform.Jobs.Terminal as Terminal
use lifeos_platform.Jobs.Terminal.{terminal_outcome}
use lifeos_platform.Agent.Decision.{Texts}
use lifeos_platform.Agent.Loop.{
  Status, queued, running, passed, is_blocked, failed, Iteration, Job, Gates, World, execute_job,
}
use lifeos_platform.Agent.Ended.{core, Explained}
use lifeos_platform.Agent.Correct.{execute_job-EndedWell}

abbrev pub text_of : Status → String
text_of queued = "QUEUED"
text_of running = "RUNNING"
text_of passed = "PASS"
text_of is_blocked = "BLOCKED"
text_of failed = "FAILED"

-- The keys that `_terminal_outcome` reads; the loop never writes `failure_reason` or
-- `last_failure_signature`.
unfoldable pub recorded : Job → Terminal.Job
recorded job = record {
  status = some (text_of job.status);
  stage = some job.stage;
  blocked_reason = job.blocked_reason;
  failure_reason = none;
  last_failure_signature = none;
  iterations = map (λ x. x.failure_signature) job.iterations;
}

-- `str.upper` on the statuses.
pub record Upper (texts : Terminal.Texts) : Type 0 where
  pub of_pass : texts.upper "PASS" ≡ "PASS"
  pub of_blocked : texts.upper "BLOCKED" ≡ "BLOCKED"

module _ (texts : Terminal.Texts) (upper : Upper texts) where
  passed_terminal :
      (job : Job) → job.status ≡ passed → (terminal_outcome texts (recorded job)).terminal ≡ true
  unfolding recorded terminal_outcome Terminal.kind_of
  passed_terminal job e = rw (e, upper.of_pass) refl

  blocked_terminal :
      (job : Job)
      → job.status ≡ is_blocked
      → (terminal_outcome texts (recorded job)).terminal ≡ true
  unfolding recorded terminal_outcome Terminal.kind_of
  blocked_terminal job e = rw (e, upper.of_blocked) (ground arith)

  -- Where `str.upper` leaves the statuses as they are and the loop returned, with a limit of at least
  -- one, the record of the job says that it has stopped, unless the job failed.
  pub execute_job_recorded :
      (py : Texts) (gates : Gates) (n : ℕ) (w t : World)
      → execute_job py gates (suc n) w ≡ (ok tt, t)
      → (t.job.status ≡ failed) ⊎ ((terminal_outcome texts (recorded t.job)).terminal ≡ true)
  execute_job_recorded py gates n w t e =
      let (ended, _) = execute_job-EndedWell py gates n w t e in
      by (suc (length ended.earlier)) ended.last t.job.status refl ended.explained
    where
      by :
          (k : ℕ) (x : Iteration) (s : Status)
          → t.job.status ≡ s
          → Explained py gates (suc n) k (core t.job) x s
          → (t.job.status ≡ failed) ⊎ ((terminal_outcome texts (recorded t.job)).terminal ≡ true)
      by k x queued e h = absurd h
      by k x running e h = absurd h
      by k x passed e h = inr (passed_terminal t.job e)
      by k x is_blocked e h = inr (blocked_terminal t.job e)
      by k x failed e h = inl e
