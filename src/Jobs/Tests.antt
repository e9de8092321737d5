-- ===== src/Jobs/Tests.antt =====
-- Publications in which everything succeeds, and one in which the last command of git does not end.
use lifeos_platform.Prelude.{String, ◌≡◌, refl, true, false, none, some, [], ◌∷◌, str_eq}
use lifeos_platform.Prelude.Exec.{ok, raise_if, try_except, ◌>>=◌}
use lifeos_platform.Prelude.Keyed.{update}
use lifeos_platform.Jobs.Publication.{
  is_published, is_unpublished, Command, add, diff, commit, push, rev_parse, Exit, raised, code,
  command_error, published, unpublished, World, Platform, mkdir, write_record, command,
  commit_changes, push_record, withdraw, publish_in_checkout, publish_record,
}
use lifeos_platform.Jobs.Honest.{IsHonest}
use lifeos_platform.Jobs.Staging.{IsUntouched, publish_record-IsHonest, publish_record-IsUntouched}
use lifeos_platform.Jobs.Terminal.{Texts, Job, kind_of, terminal_outcome}

abbrev code_of : Command → Exit
code_of diff = code 1
code_of _ = code 0

abbrev calm : Platform
calm = record {
  valid_id = λ id. true;
  runtime_state = false;
  makes = λ n. true;
  writes = λ n. true;
  leaves = λ n. none;
  git = λ n c. code_of c;
  head = λ n. "0f3c";
}

abbrev start : World
start = record { record_of = λ id. none; staged_of = λ id. none; ran = []; calls = 0 }

abbrev job : String
job = "job-1"

abbrev after : Platform → World
after os = (publish_record os job start).1

publish_record-IsHonest_example : IsHonest job start (published (some "0f3c")) (after calm)
unfolding publish_record publish_in_checkout mkdir write_record push_record command commit_changes
    raise_if try_except ◌>>=◌
publish_record-IsHonest_example =
    publish_record-IsHonest calm job start (after calm) (published (some "0f3c")) refl

abbrev hardened : Platform
hardened = record calm { runtime_state = true }

publish_record-IsUntouched_example :
    IsUntouched hardened start (publish_record hardened job start).1
publish_record-IsUntouched_example = publish_record-IsUntouched hardened job start refl

abbrev slow_rev_parse : Command → Exit
slow_rev_parse rev_parse = raised
slow_rev_parse c = code_of c

-- The push has succeeded, and yet the answer and the record say that it has not.
withdrawn_after_push : publish_record (record calm { git = λ n c. slow_rev_parse c }) job start ≡ (
  ok (unpublished command_error),
  record {
    record_of = update (update (λ id. none) job (some is_published)) job (some is_unpublished);
    staged_of = λ id. none;
    ran = (push, 0) ∷ (commit, 0) ∷ (diff, 1) ∷ (add, 0) ∷ [];
    calls = 8;
  },
)
unfolding publish_record publish_in_checkout mkdir write_record push_record command commit_changes
    withdraw raise_if try_except ◌>>=◌
withdrawn_after_push = refl

abbrev plain : Texts
plain = record { upper = λ s. s; lower_contains = λ s t. str_eq s t }

abbrev running : Job
running = record {
  status = some "RUNNING";
  stage = none;
  blocked_reason = some "";
  failure_reason = none;
  last_failure_signature = none;
  iterations = some "e1" ∷ [];
}

running_goes_on : (terminal_outcome plain running).retry_allowed ≡ true
unfolding terminal_outcome kind_of
running_goes_on = refl

-- A job whose retries are exhausted ends as FAILED, and is recorded as open to a retry.
failed_goes_on :
    (terminal_outcome plain (record running {
      status = some "FAILED";
      stage = some "acceptance_failed";
      blocked_reason = some "evidence missing";
    })).retry_allowed
    ≡ true
unfolding terminal_outcome kind_of
failed_goes_on = refl
