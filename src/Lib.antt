-- ===== src/Lib.antt =====
-- LifeOS platform: verification of the program's deciding code.
--
-- The platform changes protected files of its hosts, routes work to AI providers and plans the
-- household's battery.
--
-- * The transaction controller (homelab/live/usr/local/lib/lifeos_transaction.py), which replaces
--   one protected file under a watchdog. Transaction/World has the controller's state on disk and
--   its calls of the operating system, Transaction/Files its helpers (`_dir`, `_load`, `_save`,
--   `_systemctl`, `sha256`, the replacement of a file through a temporary), Transaction/Begin
--   `begin`, and Transaction/Phases `apply`, `verify`, `commit`, `rollback`, `status` and `expire`.
--   A method is a function from the world to a result or an error and the world that it leaves.
--   Each durable write and each command is done, refused, or done and then reported as failed, as
--   an oracle over the number of calls decides; the theorems hold for every oracle. Files are keyed
--   by the path as it is spelled, identifiers name distinct directories, and the temporary files
--   are not kept. The clock may show any time at each call. A deadline that cannot be parsed is
--   `none`. `shutil.rmtree(ignore_errors=True)` may leave the directory it was given; the
--   theorems that need it removed say so.
--   Transaction/Rules, Exact and Prelude/Post have the rules by which the methods are verified;
--   Guarded, Locks, Keeps, Checking, Opening and Creating the invariant of the stored manifests
--   and locks; Begun, Applied, Undone, Commit and Restore what each method has done where it
--   returns; Serving sequences of requests; Tests runs on a calm system.
--
-- * The power-down controller (homelab/live/opt/stacks/lifeos-energy/powerdown-assurance/
--   lifeos-powerdown-assurance-active.py), which runs every minute and may release the battery
--   reserve during a saving event. Powerdown/CrossCheck has the comparison of the two meters and
--   its counters, Powerdown/Reserve the discovery of events and the release and the restore of the
--   reserve, each run a function from the saved state and what was read to the saved state and what
--   is written. Numbers are the parameter Float, whose operations may round; times of events are
--   natural numbers. A write that raises ends the run before its state is saved, and is not a run
--   here. Powerdown/Readiness has the load of past days, the conservative need of an event, the
--   readiness and the flags of the status; the rows of the database, the points of the forecast as
--   a distance in time and a charge, and the hours of an event are given. What is published and
--   printed is left out. Powerdown/Trust, Ownership, Schedule and Prepared have the theorems, Ownership
--   over Runs and Prepared over Bounds, for floats other than NaN, and Powerdown/Tests runs over whole
--   numbers.
--
-- * The provider router (engineer/provider_router.py), which chooses who does a task.
--   Router/Policy has the policy, the providers and the rules on one provider (`load_policy`,
--   `_credentials`, `_minimum_capability`, `_privacy_allowed`), Router/Eligible
--   `eligible_providers` and `route`. Capabilities and priorities are natural numbers, sets are
--   tests of membership, and a missing key is `none`. The parsing of the secrets file and the
--   environments of the subprocesses are left out. Router/Sorting, Runnable, Considered and
--   Cheapest have the theorems, Router/Tests the providers of governor/policy.json.
--
-- * The review of managed updates (engineer/managed_updates.py), which turns the observation of an
--   update into a packet. Updates/Contract has the versions, `coalesce`, `classify_risk`,
--   `disposition` and `prove_rollback`, Updates/Packet `load_policy` and `build_packet`, with its errors as values.
--   The parameter Texts stands for Python's re and str. The time and the digest of the packet's own
--   text and the command line are left out. Updates/Newest, Built, Deploy and Rollback have the
--   theorems, Updates/Tests a review of an update of predbat.
--
-- * The publication of job records (governor/job_records.py). Jobs/Publication has `publish_record`
--   and `_stage_runtime_record` as methods on the record files and the commands that git ended, with
--   any answers of the file system and of git; of a record's contents it keeps the publication state,
--   and a negative return code counts as a positive one. Jobs/Terminal has `_terminal_outcome`, with
--   Python's str methods as a parameter, Jobs/Honest and Staging have the theorems on the
--   publication, Jobs/Tests runs.
--
-- * The energy planner (homelab/live/mnt/docker-data/automation/repos/LifeOS-Energy/app/services/
--   planner.py), which plans the battery over the half hours of a day. Planner/Slots matches prices
--   with forecasts, Planner/Dynamic has `_states` and the tables of `_optimise`, Planner/Optimise the
--   way back and the plan. Floats are the parameter Float, `int(round(x))` the parameter `whole_of`,
--   and the dictionaries over the states, which are distinct, are lists over their indices; infinity
--   is `none`. The theorem needs the order of the floats to be total and a rounded sum to be monotone,
--   as they are for numbers other than NaN. `generate_plan`, which fetches and writes, is left out.
--   Planner/Trips has the schedules, Cells, Rounds, Tables, Optimal and Correct the proof, and
--   Planner/Tests a battery over whole numbers.
--
-- * The autonomous agent (governor/autonomous_agent.py), which runs an engineering job in bounded
--   rounds. Agent/Decision has `milestone_decision` and `builder_route`, Agent/Loop
--   `_execute_job_locked` with `save`, `set_stage` and `finish_job`, as methods on the job in memory
--   and in its file, and Agent/Patch `apply_and_publish_patch`. What the loop calls answers, or
--   raises, as an oracle over the number of calls decides; times are left out.
--   The answers of the publication are kept as data, by their first
--   line. Agent/Ended says how a job may end, Rules, Concluded, Rounds and Correct prove it,
--   Contract and Published have the theorems on the decision and the publication, Recorded joins the
--   loop to `_terminal_outcome`, and Tests has runs. Agent/Assertions has
--   `validate_canonical_assertions`, Agent/Canonical `verify_canonical_assertions`, whose lines of
--   evidence are kept as data, and `independent_verify`; Validated and Confirmed have their theorems,
--   AssertionTests runs. A negative return code counts as a positive one. Agent/Artifact has
--   `verify_runtime_artifact`, `publish_runtime_artifact` and `run_pi5_runtime` on the file at the
--   job's place, which may resolve to a path outside the runtime directory, each call of the file system failing as an oracle decides; Executed has the theorem,
--   ArtifactTests a run. The builder, the local verifier and the HTTP server are left out.
--
-- * The AI broker (governor/ai_broker.py), the client of the router that sends prompts to the
--   providers. Broker/Failures has `safe_provider_failure_category`, Broker/Invoke `_invoke` with the
--   lookups before each request and the second request of `_ollama`, and Broker/Generate `candidates`
--   and `generate`. The providers answer as an oracle over the number of requests decides; the world
--   keeps the requests that were sent, each with its API and its entry of the policy. Local and Private say where private prompts go, First which
--   provider answers, and Tests has runs. The payloads of the requests, the tool-aware chat and the
--   lease of the local host are left out.
--
-- Prelude has the shared names, lists, tests, keyed stores and the methods that raise.
--
-- Not modelled: network and HTTP front ends, prompts and free text, SQL, dashboards, and the
-- scripts around them.
mod Prelude
pub mod Transaction
pub mod Powerdown
pub mod Router
pub mod Updates
pub mod Jobs
pub mod Planner
pub mod Agent
pub mod Broker
