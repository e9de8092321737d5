-- ===== src/Agent/Rounds.antt =====
-- The rounds of the loop up to the end of the job (governor/autonomous_agent.py).
use lifeos_platform.Prelude.{
  ℕ, zero, suc, ◌+◌, ◌≤◌, ◌≡◌, refl, ap, ◌∙◌, arith, Option, none, some, String, List, [], ◌∷◌,
  ◌++◌, length,
}
use mathlib.Core.List.{append_assoc}
use lifeos_platform.Prelude.Exec.{Result, attempt}
use lifeos_platform.Prelude.Post.{Post, >>=-Post, gets-Post, pure-Post}
use lifeos_platform.Agent.Decision.{Texts, Verdict, retry, Decision, milestone_decision}
use lifeos_platform.Agent.Loop.{
  Iteration, Job, Gates, World, Exception, Handoff, built, call, work, rounds,
}
use lifeos_platform.Agent.Ended.{Core, core, Retried, Judged, Handed, EndedWell, Answers}
use lifeos_platform.Agent.Rules.{call_keeps, set_job_makes, set_stage_keeps}
use lifeos_platform.Agent.Concluded.{Concluding, conclude-Ends}

abbrev with_iteration : Iteration → Core → Core
with_iteration x c = record c { iterations = c.iterations ++ x ∷ [] }

pub Retried-snoc :
    (xs : List Iteration) (x : Iteration)
    → Retried xs
    → x.milestone_result ≡ retry
    → Retried (xs ++ x ∷ [])
Retried-snoc [] x h e = (e, tt)
Retried-snoc (y ∷ ys) x (d, h) e = (d, Retried-snoc ys x h e)

pub length-snoc : (xs : List Iteration) (x : Iteration) → length (xs ++ x ∷ []) ≡ suc (length xs)
length-snoc [] x = refl
length-snoc (y ∷ ys) x = ap suc (length-snoc ys x)

module _ (R : Type 0) (py : Texts) (gates : Gates) (answers : Answers R gates) where
  attempt_keeps :
      {A : Type 0} (f : ℕ → Job → Result Exception A) (w : World) (c : Core)
      → core w.job ≡ c
      → Post {E = Exception}
          (λ r (t : World). (core t.job ≡ c) × ((n : ℕ) × (job : Job) × (f n job ≡ r)))
          (λ _. R)
          (attempt (call py gates f) w)
  unfolding attempt call
  attempt_keeps f w c e = record { holds = (e, (w.calls, w.job, refl)) }

  decided :
      {fields fields' : List String} (v : Verdict) (evidence : String)
      → fields ≡ fields'
      → (milestone_decision py fields v evidence).milestone_result
        ≡ (milestone_decision py fields' v evidence).milestone_result
  decided v evidence e = ap (λ fs. (milestone_decision py fs v evidence).milestone_result) e

  -- A round appends one iteration, judged by the milestone decision, and changes nothing else.
  abbrev pub Worked : Core → Handoff × Decision → World → Type 0
  Worked c (handoff, d) t =
      (x : Iteration) × (core t.job ≡ with_iteration x c)
      × (x.milestone_result ≡ d.milestone_result)
      × Judged py gates c.fields x
      × Handed py gates x handoff

  work_judges :
      (iteration : ℕ) (feedback : Option String) (w : World) (c : Core)
      → core w.job ≡ c
      → Post (Worked c) (λ _. R) (work py gates iteration feedback w)
  unfolding work
  work_judges iteration feedback w c e =
      >>=-Post _ _ _ (set_stage_keeps R py gates answers _ _ w c e) λ _ a ea.
        >>=-Post _ _ _ (attempt_keeps _ a c ea) λ tried b (eb, (n, job, run)).
          >>=-Post _ _ _ (set_stage_keeps R py gates answers _ _ b c eb) λ _ d ed.
            >>=-Post _ _ _
              (call_keeps R py gates answers _ d c ed (λ n job. answers.published n job _ _))
              λ publication f ef.
                >>=-Post _ _ _ (set_stage_keeps R py gates answers _ _ f c ef) λ _ g eg.
                  >>=-Post _ _ _
                    (call_keeps R py gates answers _ g c eg (λ n job. answers.ran n job _))
                    λ runtime h eh.
                      >>=-Post _ _ _ (call_keeps R py gates answers _ h c eh answers.asserted)
                        λ canonical i ei.
                          >>=-Post _ _ _ (set_stage_keeps R py gates answers _ _ i c ei) λ _ j ej.
                            >>=-Post _ _ _ (attempt_keeps _ j c ej) λ reviewed k (ek, _).
                              gets-Post _ _ k (
                                >>=-Post _ _ _
                                  (set_job_makes R py gates answers _ k _
                                    (ap (with_iteration _) ek))
                                  λ _ l el. pure-Post _ l (
                                    _,
                                    el,
                                    refl,
                                    decided _ _ (ap Core.fields ek),
                                    (n, job, feedback, ap (λ r. (built py gates r).handoff) run),
                                  ))

  module _ (old : List Iteration) (max_iterations : ℕ) where
    concluding :
        {iterations : List Iteration} {fields : List String} (earlier : List Iteration)
        (x : Iteration)
        → iterations ≡ old ++ earlier
        → Retried earlier
        → Judged py gates fields x
        → suc (length earlier) ≤ max_iterations
        → Concluding R py gates answers old max_iterations earlier x (iterations ++ x ∷ []) fields
    concluding earlier x i h j b = record {
      appended = ap (λ xs. xs ++ x ∷ []) i ∙ append_assoc old earlier (x ∷ []);
      retried = h;
      judged = j;
      bounded = b;
    }

    -- The rounds that are left end the job, where those before them have been retried.
    pub rounds_end :
        (left iteration : ℕ) (feedback : Option String) (w : World) (c : Core)
        (earlier : List Iteration)
        → core w.job ≡ c
        → c.iterations ≡ old ++ earlier
        → Retried earlier
        → length earlier + suc left ≡ max_iterations
        → Post
            (λ (_ : Unit {0}) t. EndedWell py gates old max_iterations t)
            (λ _. R)
            (rounds py gates left iteration feedback w)
    unfolding rounds
    rounds_end zero iteration feedback w c earlier e i h m =
        >>=-Post _ _ _ (work_judges iteration feedback w c e) λ (handoff, d) t (x, f, g, j, given).
          conclude-Ends R py gates answers old max_iterations earlier x _
            (concluding earlier x i h j (omega arith)) handoff given d none d.milestone_result t f g
            (omega arith)
    rounds_end (suc left) iteration feedback w c earlier e i h m =
        >>=-Post _ _ _ (work_judges iteration feedback w c e) λ (handoff, d) t (x, f, g, j, given).
          conclude-Ends R py gates answers old max_iterations earlier x _
            (concluding earlier x i h j (omega arith)) handoff given d
            (some (λ text. rounds py gates left (suc iteration) (some text))) d.milestone_result t f
            g
            λ u r k.
              rounds_end left (suc iteration) _ u _ (earlier ++ x ∷ []) k
                (ap (λ xs. xs ++ x ∷ []) i ∙ append_assoc old earlier (x ∷ []))
                (Retried-snoc earlier x h r) (rw (length-snoc earlier x) (omega arith))
