-- ===== src/Agent/Correct.antt =====
-- How `_execute_job_locked` ends a job (governor/autonomous_agent.py).
use lifeos_platform.Prelude.{ℕ, suc, ◌≡◌, refl, sym, arith, []}
use mathlib.Core.List.{append-nil}
use lifeos_platform.Prelude.Exec.{Result, ok, err}
use lifeos_platform.Prelude.Post.{Post, Post_ok, >>=-Post, gets-Post, After}
use lifeos_platform.Agent.Decision.{Texts}
use lifeos_platform.Agent.Loop.{Gates, World, Exception, execute_job}
use lifeos_platform.Agent.Ended.{EndedWell, Raises, Answers}
use lifeos_platform.Agent.Rules.{set_job_makes}
use lifeos_platform.Agent.Rounds.{rounds_end}

module _ (py : Texts) (gates : Gates) where
  execute_job_ends :
      (R : Type 0) (answers : Answers R gates) (n : ℕ) (w : World)
      → Post
          (λ (_ : Unit {0}) t. EndedWell py gates w.saved.iterations (suc n) t)
          (λ _. R)
          (execute_job py gates (suc n) w)
  unfolding execute_job
  execute_job_ends R answers n w = gets-Post _ _ w (
      >>=-Post _ _ _ (set_job_makes R py gates answers _ w _ refl) λ _ t e.
        rounds_end R py gates answers w.saved.iterations (suc n) n 1 _ t _ [] e (sym (append-nil _))
          tt (omega arith))

  any_Raises : {A : Type 0} (r : Result Exception A) → Raises (Unit {0}) r
  any_Raises (ok a) = tt
  any_Raises (err e) = tt

  -- Nothing is asked of the calls.
  unasked : Answers (Unit {0}) gates
  unasked = record {
    saved = λ n h. tt;
    published = λ n job i h. any_Raises _;
    ran = λ n job h. any_Raises _;
    asserted = λ n job. any_Raises _;
    deployed = λ n job o. any_Raises _;
    recorded = λ n job. any_Raises _;
  }

  -- If the loop returns, with a limit of at least one, the job has ended and its file says so: the
  -- rounds that were run, at most the limit, are appended to its iterations; all but the last were
  -- retried; the last one's result is the milestone decision on its verdict and its evidence; and the
  -- job passed only if that is PASS and every deployment that the job or the handoff of the last round's
  -- builder asks for was requested and passed, is blocked only if that is BLOCKED or such a deployment
  -- did not pass, and failed only after a last RETRY at the limit.
  pub execute_job-EndedWell :
      (n : ℕ) (w t : World)
      → execute_job py gates (suc n) w ≡ (ok tt, t)
      → EndedWell py gates w.saved.iterations (suc n) t
  execute_job-EndedWell n w t e = Post_ok (execute_job_ends (Unit {0}) unasked n w) e

  -- If no save, gate or broker outside the loop's `try` blocks raises, the loop returns, whatever the
  -- builder and the verifier do, and the job has ended.
  pub execute_job_returns :
      (n : ℕ) (w : World)
      → Answers ⊥ gates
      → (t : World) × (execute_job py gates (suc n) w ≡ (ok tt, t))
        × EndedWell py gates w.saved.iterations (suc n) t
  execute_job_returns n w answers = split _ refl (execute_job_ends ⊥ answers n w).holds
    where
      split :
          (p : Result Exception (Unit {0}) × World)
          → execute_job py gates (suc n) w ≡ p
          → After (λ (_ : Unit {0}) t. EndedWell py gates w.saved.iterations (suc n) t) (λ _. ⊥) p
          → (t : World) × (execute_job py gates (suc n) w ≡ (ok tt, t))
            × EndedWell py gates w.saved.iterations (suc n) t
      split (ok a, t) e h = (t, e, h)
      split (err x, t) e h = absurd h
