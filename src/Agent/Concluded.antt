-- ===== src/Agent/Concluded.antt =====
-- What follows the last round of a job (governor/autonomous_agent.py).
use lifeos_platform.Prelude.{
  ℕ, suc, ◌≤◌, ◌≡◌, refl, sym, ap, arith, Bool, true, false, Option, none, some, inl, inr, String,
  str_eq, List, [], ◌∷◌, ◌++◌, length,
}
use mathlib.Core.Path.{subst}
use lifeos_platform.Prelude.Exec.{ok}
use lifeos_platform.Prelude.Post.{Post, >>=-Post, gets-Post, if-Post, Post-weaken}
use lifeos_platform.Agent.Decision.{Texts, Outcome, pass, retry, blocked, Decision}
use lifeos_platform.Agent.Loop.{
  Iteration, Job, Gates, World, Handoff, Method, operation_of, is_pass, complete, block, deploy,
  deploy_if, give_up, feedback_of, conclude,
}
use lifeos_platform.Agent.Ended.{
  Core, core, Retried, Asked, Handed, Explained, Judged, Ended, EndedWell, Answers,
}
use lifeos_platform.Agent.Rules.{
  Written, call_answers, set_job_makes, save_keeps, set_stage_keeps, complete_writes, block_writes,
  give_up_writes,
}

Asked-same :
    (deploys : Bool) (handoff : Handoff) (a b : String)
    → Asked deploys handoff a
    → Asked deploys handoff b
    → a ≡ b
Asked-same deploys handoff a b h k = ground arith

abbrev with_deployment : Option String → Core → Core
with_deployment answer c = record c { deployment = some answer }

module _ (R : Type 0) (py : Texts) (gates : Gates) (answers : Answers R gates)
    (old : List Iteration) (max_iterations : ℕ) where
  -- The iterations, where the last round has been judged and those before it have been retried.
  pub record Concluding (earlier : List Iteration) (last : Iteration) (iterations : List Iteration)
      (fields : List String) : Type 0 where
    pub appended : iterations ≡ old ++ (earlier ++ last ∷ [])
    pub retried : Retried earlier
    pub judged : Judged py gates fields last
    pub bounded : suc (length earlier) ≤ max_iterations

  ends :
      {A : Type 0} {earlier : List Iteration} {last : Iteration} (c : Core) (a : A) (t : World)
      → Concluding earlier last c.iterations c.fields
      → c.is_completed ≡ true
      → Explained py gates max_iterations (suc (length earlier)) c last c.status
      → Written R py gates answers c a t
      → EndedWell py gates old max_iterations t
  ends {earlier = earlier} {last = last} c a t h done why (e, f) = (
    subst (Ended py gates old max_iterations) (sym e) (record {
      earlier = earlier;
      last = last;
      appended = h.appended;
      retried = h.retried;
      judged = h.judged;
      bounded = h.bounded;
      completed = done;
      explained = why;
    }),
    f,
  )

  abbrev pub Ends : {A : Type 0} → A → World → Type 0
  Ends a t = EndedWell py gates old max_iterations t

  module _ (earlier : List Iteration) (last : Iteration) (c : Core)
      (h : Concluding earlier last c.iterations c.fields) (handoff : Handoff)
      (given : Handed py gates last handoff) where
    deploy-Ends :
        (operation : String) (w : World)
        → Asked c.deploys handoff operation
        → core w.job ≡ c
        → last.milestone_result ≡ pass
        → Post Ends (λ _. R) (deploy py gates operation w)
    unfolding deploy
    deploy-Ends operation w wanted e p =
        let request_of : (o : String)
            → Asked c.deploys handoff o
            → (answer : Option String) (n : ℕ) (job : Job)
            → gates.request_bounded_deployment n job operation ≡ ok answer
            → gates.request_bounded_deployment n job o ≡ ok answer =
          λ o asked answer n job r.
            subst (λ x. gates.request_bounded_deployment n job x ≡ ok answer)
              (Asked-same c.deploys handoff operation o wanted asked) r in
        >>=-Post _ _ _ (set_stage_keeps R py gates answers _ _ w c e) λ _ t f.
          >>=-Post _ _ _
            (call_answers R py gates answers _ t c f (λ n job. answers.deployed n job operation))
            λ answer u (g, (n, job, request)).
              >>=-Post _ _ _
                (set_job_makes R py gates answers _ u _ (ap (with_deployment answer) g))
                λ _ v k.
                  if-Post (is_pass answer) _ _ v
                    (λ yes.
                      Post-weaken (complete_writes R py gates answers v _ k)
                        (λ a z. ends _ a z h refl (
                          p,
                          (
                            handoff,
                            given,
                            (λ o asked. (
                              answer,
                              n,
                              job,
                              request_of o asked answer n job request,
                              refl,
                              yes,
                            )),
                          ),
                        ))
                        λ z r. r)
                    (λ no.
                      Post-weaken (block_writes R py gates answers _ v _ k)
                        (λ a z. ends _ a z h refl (
                          inr (
                            p,
                            (
                              handoff,
                              given,
                              (operation, wanted, (answer, n, job, request, refl, no)),
                            ),
                          )))
                        λ z r. r)

    complete-Ends :
        (w : World)
        → core w.job ≡ c
        → last.milestone_result ≡ pass
        → ((operation : String) → Asked c.deploys handoff operation → ⊥)
        → Post Ends (λ _. R) (complete py gates w)
    complete-Ends w e p off =
        Post-weaken (complete_writes R py gates answers w c e)
          (λ a z. ends _ a z h refl (p, (handoff, given, (λ o asked. absurd (off o asked)))))
          λ z r. r

    pub deploy_if-Ends :
        (deploys : Bool) (w : World)
        → core w.job ≡ c
        → last.milestone_result ≡ pass
        → c.deploys ≡ deploys
        → Post Ends (λ _. R) (deploy_if py gates (operation_of deploys handoff) w)
    deploy_if-Ends true w e p d = deploy-Ends "deploy-engineer-runtime" w (inl (d, refl)) e p
    deploy_if-Ends false w e p d = by handoff.deployment_operation refl
      where
        by :
            (o : Option String)
            → handoff.deployment_operation ≡ o
            → Post Ends (λ _. R) (deploy_if py gates o w)
        by none g = complete-Ends w e p λ operation asked. ground arith
        by (some operation) g =
            if-Post (str_eq operation "") _ _ w
              (λ blank. complete-Ends w e p λ o asked. ground arith)
              λ filled. deploy-Ends operation w (inr (d, g, filled)) e p

    block-Ends :
        (reason : String) (w : World)
        → core w.job ≡ c
        → last.milestone_result ≡ blocked
        → Post Ends (λ _. R) (block py gates reason w)
    block-Ends reason w e p =
        Post-weaken (block_writes R py gates answers reason w c e)
          (λ a z. ends _ a z h refl (inl p)) λ z r. r

    give_up-Ends :
        (reason : String) (w : World)
        → core w.job ≡ c
        → last.milestone_result ≡ retry
        → suc (length earlier) ≡ max_iterations
        → Post Ends (λ _. R) (give_up py gates reason w)
    give_up-Ends reason w e p m =
        Post-weaken (give_up_writes R py gates answers reason w c e)
          (λ a z. ends _ a z h refl (p, m)) λ z r. r

    -- Without a next round the limit has been reached; a next round ends the job.
    abbrev pub Continues : Decision → Option (String → Method (Unit {0})) → Type 0
    Continues d none = suc (length earlier) ≡ max_iterations
    Continues d (some next) =
        (t : World)
        → last.milestone_result ≡ retry
        → core t.job ≡ c
        → Post Ends (λ _. R) (next (feedback_of py gates d) t)

    pub conclude-Ends :
        (d : Decision) (again : Option (String → Method (Unit {0}))) (o : Outcome) (w : World)
        → core w.job ≡ c
        → last.milestone_result ≡ o
        → Continues d again
        → Post Ends (λ _. R) (conclude py gates handoff d again o w)
    conclude-Ends d again pass w e p k =
        gets-Post _ _ w
          (deploy_if-Ends w.job.deploy_engineer_runtime w e p (sym (ap Core.deploys e)))
    conclude-Ends d again blocked w e p k = block-Ends _ w e p
    conclude-Ends d none retry w e p k =
        >>=-Post _ _ _ (set_job_makes R py gates answers _ w c e) λ _ t f. give_up-Ends _ t f p k
    conclude-Ends d (some next) retry w e p k =
        >>=-Post _ _ _ (set_job_makes R py gates answers _ w c e)
          λ _ t f. >>=-Post _ _ _ (save_keeps R py gates answers t c f) λ _ u g. k u p g
