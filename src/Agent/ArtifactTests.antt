-- ===== src/Agent/ArtifactTests.antt =====
-- Runs of a job's script.
use lifeos_platform.Prelude.{String, ◌≡◌, refl, true, false, Option, none, some, []}
use lifeos_platform.Prelude.Exec.{Result, ok, raise_if, try_except, ◌>>=◌}
use lifeos_platform.Prelude.Post.{Post}
use lifeos_platform.Agent.Loop.{Exception}
use lifeos_platform.Agent.Artifact.{
  System, World, Answer, found, failed, touch, replace, verify_runtime_artifact, place,
  publish_script, publish_runtime_artifact, run_runtime,
}
use lifeos_platform.Agent.Executed.{Executed, run_runtime-Executed}

abbrev system : System
system = record {
  is_job_id = λ s. true;
  b64decode = λ s. ok (record { content = s; size = 10; text = some s });
  starts_with = λ s t. true;
  digest = λ s. s;
  escapes = λ target. false;
  failure = λ n. none;
  run = λ n file. ok "done";
}

abbrev empty : World
empty = record { target = none; executed = []; calls = 0 }

abbrev start_script : World → Result Exception (Answer × Option String) × World
start_script w =
    run_runtime system "job" "normal" "runtime_jobs/job.sh" (some "normal")
      (some "runtime_jobs/job.sh") (some "script") w

runs : (start_script empty).0 ≡ ok (found "script", some "done")
unfolding run_runtime publish_runtime_artifact publish_script place verify_runtime_artifact touch
    replace raise_if try_except ◌>>=◌
runs = refl

-- A directory that leads elsewhere.
runs_nothing :
    (run_runtime
      (record system { escapes = λ target. true })
      "job"
      "normal"
      "runtime_jobs/job.sh"
      (some "normal")
      (some "runtime_jobs/job.sh")
      (some "script")
      empty).0
    ≡ ok (failed "verification_error", none)
unfolding run_runtime publish_runtime_artifact publish_script place verify_runtime_artifact touch
    replace raise_if try_except ◌>>=◌
runs_nothing = refl

run_runtime-Executed_example :
    Post
      (λ (_ : Answer × Option String) t.
        Executed system "normal" "runtime_jobs/job.sh"
          (some "normal")
          (some "runtime_jobs/job.sh")
          (some "script")
          []
          t)
      (λ t.
        Executed system "normal" "runtime_jobs/job.sh"
          (some "normal")
          (some "runtime_jobs/job.sh")
          (some "script")
          []
          t)
      (start_script empty)
run_runtime-Executed_example =
    run_runtime-Executed system "job" "normal" "runtime_jobs/job.sh" (some "normal")
      (some "runtime_jobs/job.sh") (some "script") empty
