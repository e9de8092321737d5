-- ===== src/Agent/Tests.antt =====
-- Runs of the loop on small jobs, and the examples of its theorems.
use lifeos_platform.Prelude.{
  ℕ, String, ◌≡◌, refl, ◌⊎◌, true, false, none, some, [], ◌∷◌, str_eq, ◌==◌, arith, if◌then◌else◌,
  ◌↔◌,
}
use lifeos_platform.Prelude.Exec.{ok, err, attempt, try_except, ◌>>=◌}
use lifeos_platform.Prelude.Post.{Post}
use lifeos_platform.Agent.Patch as Patch
use lifeos_platform.Agent.Patch.{
  Shell, Answer, git_status, command, commit_and_push, apply_at_origin_main, publish_patch,
  apply_and_publish_patch, applied, cloud_authored,
}
use lifeos_platform.Agent.Published.{Honest, apply_and_publish_patch-Honest}
use lifeos_platform.Jobs.Terminal as Terminal
use lifeos_platform.Agent.Decision.{
  Texts, pass, blocked, Verdict, milestone_decision, incomplete_fields, is_generic,
}
use lifeos_platform.Agent.Contract.{AllComplete, milestone_decision-Complete}
use lifeos_platform.Agent.Loop.{
  Status, queued, running, passed, is_blocked, failed, Job, Gates, World, execute_job, set_job,
  rounds, work, set_stage, save, call, evidence_of, complete, finish_job, block, deploy, give_up,
}
use lifeos_platform.Agent.Ended.{Answers, EndedWell}
use lifeos_platform.Agent.Correct.{execute_job-EndedWell, execute_job_returns}
use lifeos_platform.Agent.Recorded.{Upper, recorded, execute_job_recorded}

-- Texts as they are; every field's value is PASS.
abbrev plain_texts : Texts
plain_texts = record {
  strip = λ s. s;
  upper = λ s. s;
  lower = λ s. s;
  mentions = λ s t. str_eq s t;
  join = λ ss. "";
  concat = λ s t. t;
  contract_value = λ evidence field. some "PASS";
  underscored = λ s. s;
  last = λ n s. s;
  first = λ n s. s;
  decimal = λ n. "1";
}

abbrev record_texts : Terminal.Texts
record_texts = record { upper = λ s. s; lower_contains = λ s t. false }

abbrev record_texts_upper : Upper record_texts
record_texts_upper = record { of_pass = refl; of_blocked = refl }

abbrev verdict_of : String → Verdict
verdict_of v = record { verdict = some v; reason = some "credential"; next_instruction = none }

-- The builder raises; the verifier answers by the iteration; all else succeeds.
abbrev gates : (ℕ → Verdict) → Gates
gates verdicts = record {
  saves = λ n. true;
  run_builder = λ n job i feedback. err (record { kind = "OSError"; text = "" });
  apply_and_publish_patch = λ n job i handoff. ok "";
  run_runtime = λ n job handoff. ok "";
  suppress_unpublished_runtime_instructions = λ s. s;
  verify_canonical_assertions = λ n job. ok (none, "");
  independent_verify = λ n job i evidence canonical. ok (verdicts i);
  failure_signature = λ evidence v. none;
  request_bounded_deployment = λ n job operation. ok (some "PASS");
  publish_record = λ n job. ok tt;
}

abbrev retrying : ℕ → Verdict
retrying n = verdict_of "RETRY"

-- The second iteration passes.
abbrev second : ℕ → Verdict
second n = if n == 2 then verdict_of "PASS" else verdict_of "RETRY"

abbrev job : Job
job = record {
  id = "0123456789ab";
  status = queued;
  stage = "queued";
  stage_detail = none;
  blocked_reason = none;
  next_instruction = none;
  iterations = [];
  mandatory_final_fields = "LIVE" ∷ [];
  deploy_engineer_runtime = true;
  deployment = none;
  is_completed = false;
}

abbrev start : World
start = record { job = job; saved = job; calls = 0 }

abbrev status_after : (ℕ → Verdict) → ℕ → Status
status_after verdicts limit = (execute_job plain_texts (gates verdicts) limit start).1.job.status

-- The second iteration passes, and the job is deployed.
passes : status_after second 3 ≡ passed
unfolding execute_job set_job rounds work set_stage save call milestone_decision incomplete_fields
    is_generic evidence_of complete finish_job block deploy give_up ◌>>=◌ attempt
passes = refl

-- After the third there is no further round.
fails : status_after retrying 3 ≡ failed
unfolding execute_job set_job rounds work set_stage save call milestone_decision incomplete_fields
    is_generic evidence_of complete finish_job block deploy give_up ◌>>=◌ attempt
fails = refl

blocks : status_after (λ n. verdict_of "BLOCKED") 3 ≡ is_blocked
unfolding execute_job set_job rounds work set_stage save call milestone_decision incomplete_fields
    is_generic evidence_of complete finish_job block deploy give_up ◌>>=◌ attempt
blocks = refl

-- Without a round the job stays where it was put.
stays : status_after second 0 ≡ running
unfolding execute_job set_job rounds work set_stage save call milestone_decision incomplete_fields
    is_generic evidence_of complete finish_job block deploy give_up ◌>>=◌ attempt
stays = refl

abbrev after_second : World
after_second = (execute_job plain_texts (gates second) 3 start).1

returned : execute_job plain_texts (gates second) 3 start ≡ (ok tt, after_second)
unfolding execute_job set_job rounds work set_stage save call milestone_decision incomplete_fields
    is_generic evidence_of complete finish_job block deploy give_up ◌>>=◌ attempt
returned = refl

execute_job-EndedWell_example : EndedWell plain_texts (gates second) [] 3 after_second
execute_job-EndedWell_example =
    execute_job-EndedWell plain_texts (gates second) 2 start after_second returned

quiet : Answers ⊥ (gates second)
quiet = record {
  saved = λ n h. absurd (ground arith);
  published = λ n job i h. tt;
  ran = λ n job h. tt;
  asserted = λ n job. tt;
  deployed = λ n job o. tt;
  recorded = λ n job. tt;
}

execute_job_returns_example :
    (t : World) × (execute_job plain_texts (gates second) 3 start ≡ (ok tt, t))
    × EndedWell plain_texts (gates second) [] 3 t
execute_job_returns_example = execute_job_returns plain_texts (gates second) 2 start quiet

milestone_decision-Complete_example :
    let d = milestone_decision plain_texts ("LIVE" ∷ []) (verdict_of "PASS") "LIVE=PASS" in
    (d.iteration_result ≡ pass)
    × (d.milestone_result ≡ pass
        ↔ ((pass ≡ pass) × AllComplete plain_texts "LIVE=PASS" ("LIVE" ∷ [])))
    × (d.milestone_result ≡ blocked
        ↔ ((pass ≡ blocked) × (is_generic plain_texts "credential" ≡ false)))
milestone_decision-Complete_example =
    milestone_decision-Complete plain_texts ("LIVE" ∷ []) (verdict_of "PASS") "LIVE=PASS"

execute_job_recorded_example :
    (after_second.job.status ≡ failed)
    ⊎ ((Terminal.terminal_outcome record_texts (recorded after_second.job)).terminal ≡ true)
execute_job_recorded_example =
    execute_job_recorded record_texts record_texts_upper plain_texts (gates second) 2 start
      after_second returned

abbrev after_give_up : World
after_give_up = (give_up plain_texts (gates second) "the tests fail" start).1

gave_up : give_up plain_texts (gates second) "the tests fail" start ≡ (ok tt, after_give_up)
unfolding execute_job set_job rounds work set_stage save call milestone_decision incomplete_fields
    is_generic evidence_of complete finish_job block deploy give_up ◌>>=◌ attempt
gave_up = refl

-- Every call succeeds and prints `x`; the status is empty.
abbrev shell : Shell
shell = record {
  run = λ n c. ok "x";
  strip = λ s. if str_eq s "x" then "" else s;
  splitlines = λ s. s ∷ [];
  b64decode = λ s. ok (record { content = s; size = 10 });
}

abbrev clean : Patch.World
clean = record { calls = 0; ran = [] }

pushes :
    (apply_and_publish_patch shell "local-only" (some "local") (some "diff") clean).0
    ≡ ok (applied "" ("x" ∷ []))
unfolding apply_and_publish_patch publish_patch apply_at_origin_main commit_and_push command ◌>>=◌
    try_except
pushes = refl

withholds :
    apply_and_publish_patch shell "local-only" (some "normal") (some "diff") clean
    ≡ (ok cloud_authored, clean)
unfolding apply_and_publish_patch publish_patch apply_at_origin_main commit_and_push command ◌>>=◌
    try_except
withholds = refl

apply_and_publish_patch-Honest_example :
    Post
      (λ a (t : Patch.World). Honest shell [] "local-only" (some "local") (some "diff") a t.ran)
      (λ t. t.ran ≡ git_status ∷ [])
      (apply_and_publish_patch shell "local-only" (some "local") (some "diff") clean)
apply_and_publish_patch-Honest_example =
    apply_and_publish_patch-Honest shell "local-only" (some "local") (some "diff") clean
