-- ===== src/Agent/Rules.antt =====
-- What the steps of the loop keep of a job.
use lifeos_platform.Prelude.{ℕ, suc, ◌≡◌, refl, ap, Bool, true, false, String, if◌then◌else◌}
use lifeos_platform.Prelude.Exec.{Result, ok, err}
use lifeos_platform.Prelude.Post.{Post, >>=-Post, Post-weaken, After}
use lifeos_platform.Agent.Decision.{Texts}
use lifeos_platform.Agent.Loop.{
  Status, passed, is_blocked, failed, Job, Gates, World, Exception, call, set_job, save, set_stage,
  finish_job, complete, block, give_up,
}
use lifeos_platform.Agent.Ended.{Core, core, Raises, Answers}

abbrev pub with_status : Status → Core → Core
with_status s c = record c { status = s; is_completed = true }

module _ (R : Type 0) (py : Texts) (gates : Gates) (answers : Answers R gates) where
  -- `c` is left of the job, and, in `Written`, the file has it too.
  abbrev pub Is : {A : Type 0} → Core → A → World → Type 0
  Is c a t = core t.job ≡ c

  abbrev pub Written : {A : Type 0} → Core → A → World → Type 0
  Written c a t = (core t.job ≡ c) × (t.saved ≡ t.job)

  pub call_keeps :
      {A : Type 0} (f : ℕ → Job → Result Exception A) (w : World) (c : Core)
      → core w.job ≡ c
      → ((n : ℕ) (job : Job) → Raises R (f n job))
      → Post (Is c) (λ _. R) (call py gates f w)
  unfolding call
  call_keeps {A} f w c e r = record { holds = split (f w.calls w.job) (r w.calls w.job) }
    where
      split :
          (o : Result Exception A)
          → Raises R o
          → After (Is c) (λ _. R) (o, record w { calls = suc w.calls })
      split (ok a) h = e
      split (err x) h = h

  -- The answer is the one of some call.
  pub call_answers :
      {A : Type 0} (f : ℕ → Job → Result Exception A) (w : World) (c : Core)
      → core w.job ≡ c
      → ((n : ℕ) (job : Job) → Raises R (f n job))
      → Post
          (λ a (t : World). (core t.job ≡ c) × ((n : ℕ) × (job : Job) × (f n job ≡ ok a)))
          (λ _. R)
          (call py gates f w)
  unfolding call
  call_answers {A} f w c e r = record { holds = split (f w.calls w.job) refl (r w.calls w.job) }
    where
      split :
          (o : Result Exception A)
          → f w.calls w.job ≡ o
          → Raises R o
          → After
              (λ a (t : World). (core t.job ≡ c) × ((n : ℕ) × (job : Job) × (f n job ≡ ok a)))
              (λ _. R)
              (o, record w { calls = suc w.calls })
      split (ok a) g h = (e, (w.calls, w.job, g))
      split (err x) g h = h

  save_writes :
      (w : World) (c : Core) → core w.job ≡ c → Post (Written c) (λ _. R) (save py gates w)
  unfolding save
  save_writes w c e = split (gates.saves w.calls) (answers.saved w.calls)
    where
      split :
          (b : Bool)
          → (b ≡ false → R)
          → Post {E = Exception}
              (Written c)
              (λ _. R)
              (if b then (ok tt, record w { calls = suc w.calls; saved = w.job }) else (
                err (record { kind = "OSError"; text = "" }),
                record w { calls = suc w.calls },
              ))
      split true h = record { holds = (e, refl) }
      split false h = record { holds = h refl }

  pub set_job_makes :
      (f : Job → Job) (w : World) (c : Core)
      → core (f w.job) ≡ c
      → Post {E = Exception} (Is c) (λ _. R) (set_job py gates f w)
  unfolding set_job
  set_job_makes f w c e = record { holds = e }

  pub save_keeps : (w : World) (c : Core) → core w.job ≡ c → Post (Is c) (λ _. R) (save py gates w)
  save_keeps w c e = Post-weaken (save_writes w c e) (λ a t h. h.0) λ t h. h

  pub set_stage_keeps :
      (stage detail : String) (w : World) (c : Core)
      → core w.job ≡ c
      → Post (Is c) (λ _. R) (set_stage py gates stage detail w)
  unfolding set_stage
  set_stage_keeps stage detail w c e =
      >>=-Post _ _ _ (set_job_makes _ w c e) λ a t h. save_keeps t c h

  finish_job_writes :
      (stage detail : String) (w : World) (c : Core)
      → core w.job ≡ c
      → Post (Written c) (λ _. R) (finish_job py gates stage detail w)
  unfolding finish_job
  finish_job_writes stage detail w c e =
      >>=-Post _ _ _ (set_stage_keeps stage detail w c e)
        λ _ t h. >>=-Post _ _ _ (call_keeps _ t c h answers.recorded) λ _ u k. save_writes u c k

  pub complete_writes :
      (w : World) (c : Core)
      → core w.job ≡ c
      → Post (Written (with_status passed c)) (λ _. R) (complete py gates w)
  unfolding complete
  complete_writes w c e =
      >>=-Post _ _ _ (set_job_makes _ w _ (ap (with_status passed) e))
        λ _ t h. finish_job_writes _ _ t _ h

  pub block_writes :
      (reason : String) (w : World) (c : Core)
      → core w.job ≡ c
      → Post (Written (with_status is_blocked c)) (λ _. R) (block py gates reason w)
  unfolding block
  block_writes reason w c e =
      >>=-Post _ _ _ (set_job_makes _ w _ (ap (with_status is_blocked) e))
        λ _ t h. finish_job_writes _ _ t _ h

  pub give_up_writes :
      (reason : String) (w : World) (c : Core)
      → core w.job ≡ c
      → Post (Written (with_status failed c)) (λ _. R) (give_up py gates reason w)
  unfolding give_up
  give_up_writes reason w c e =
      >>=-Post _ _ _ (set_job_makes _ w _ (ap (with_status failed) e))
        λ _ t h. finish_job_writes _ _ t _ h
