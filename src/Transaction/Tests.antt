-- ===== src/Transaction/Tests.antt =====
-- A transaction on a calm system, from its proposal to its commit or its rollback.
use lifeos_platform.Prelude.{
  String, ◌≡◌, refl, true, false, Option, none, some, List, [], ◌∷◌, str_eq, if◌then◌else◌,
}
use lifeos_platform.Prelude.Keyed.{update}
use lifeos_platform.Prelude.Exec.{Result, ok, err, try_except, raise_if, attempt, ◌>>=◌}
use lifeos_platform.Transaction.World.{
  Platform, Outcome, File, Prior, dict, Manifest, World, Error, armed, committed, rolled_back,
  carry_out, exit_status, effect, run, now, read, conflict, not_probation,
}
use lifeos_platform.Transaction.Files.{
  inside, is_allowlisted, valid_id, dir, found_manifest, load, save, systemctl, sha256,
  with_temporary, replace_file,
}
use lifeos_platform.Transaction.Begin.{
  Proposal, validate, acquire_lock, back_up, prepare, remove_tree, begin_locked, begin,
}
use lifeos_platform.Transaction.Phases.{
  apply, restore, rollback, inspect, run_checks, settle_verification, verify, is_accepted,
  commit_verified, commit_before, commit, expire_before, expire, status,
}
use lifeos_platform.Transaction.Begun.{IsBegun, begin-IsBegun}
use lifeos_platform.Transaction.Commit.{IsCommit, commit-IsCommit}
use lifeos_platform.Transaction.Restore.{root_owned, begin-apply-rollback}
use lifeos_platform.Transaction.Serving.{
  Request, begin_request, apply_request, verify_request, commit_request, rollback_request, handle,
  serve, serve-exclusive, serve-settled,
}

abbrev calm : Platform
calm = record {
  resolve = λ p. p;
  parents = λ p. "/usr/local/libexec" ∷ [];
  is_absolute = λ p. true;
  suffix = λ p. "";
  is_alnum = λ c. true;
  digest = λ s. s;
  outcome = λ n. Outcome.done;
  time = λ n. n;
  tree_removed = λ n. true;
}

abbrev tool : String
tool = "/usr/local/libexec/tool"

abbrev build : String
build = "/build/tool"

abbrev text_file : String → File
text_file s = record { content = s; mode = 493; owner = 7; regular = true }

abbrev start_files : String → Option File
start_files p =
    if str_eq p tool
    then some (text_file "old")
    else if str_eq p build
    then some (text_file "new")
    else none

abbrev start : World
start = record {
  calls = 0;
  files = start_files;
  txdirs = λ i. false;
  manifests = λ i. none;
  backups = λ i. none;
  proofs = λ i. none;
  locks = λ l. false;
  timers = λ t. false;
}

abbrev proposal : Proposal
proposal = record {
  operation = some "replace_file";
  risk = some "LOW";
  component = none;
  source = some build;
  destination = some tool;
  sha256 = some "new";
  checks = some (dict (some "file_sha256") (some tool) (some "new") none ∷ []);
}

abbrev blank : Manifest
blank = record {
  transaction_id = "";
  state = armed;
  risk = "";
  component = "";
  source = "";
  destination = "";
  intended_sha256 = "";
  prior = Prior.absent;
  checks = [];
  resource_lock = "";
  created_at = 0;
  updated_at = 0;
  deadline = none;
  timer = "";
  armed_at = [];
  verified = false;
  committed_at = none;
  rollback = none;
}

abbrev value : Result Error Manifest → Manifest
value (ok m) = m
value (err e) = blank

abbrev lifecycle : List Request
lifecycle =
    begin_request "a" proposal ∷ apply_request "a" ∷ verify_request "a" ∷ commit_request "a" ∷ []

-- Opens the whole controller at once.
abbrev controller : Unit {0}
unfolding begin begin_locked prepare remove_tree back_up acquire_lock validate apply restore
    rollback inspect run_checks settle_verification verify is_accepted commit_verified commit_before
    commit expire_before expire status inside is_allowlisted valid_id dir found_manifest load save
    systemctl sha256 with_temporary replace_file carry_out exit_status effect run now read
    try_except raise_if attempt ◌>>=◌ handle serve
controller = tt

lifecycle_commits :
    (value
      (commit calm "a" (
        serve calm start
          (begin_request "a" proposal ∷ apply_request "a" ∷ verify_request "a" ∷ []))).0).state
    ≡ committed
unfolding controller
lifecycle_commits = refl

abbrev world : List Request → World
world rs = serve calm start rs

abbrev begun : World
begun = world (begin_request "a" proposal ∷ [])

abbrev applied : World
applied = world (begin_request "a" proposal ∷ apply_request "a" ∷ [])

abbrev verified_world : World
verified_world = world (begin_request "a" proposal ∷ apply_request "a" ∷ verify_request "a" ∷ [])

-- A second transaction on the same destination is refused while the first is open.
conflicting : (begin calm "b" proposal begun).0 ≡ err conflict
unfolding controller
conflicting = refl

-- A commit needs the verification.
unverified : (commit calm "a" applied).0 ≡ err not_probation
unfolding controller
unverified = refl

rolled :
    ((value (rollback calm "a" "requested" applied).0).state ≡ rolled_back)
    × ((rollback calm "a" "requested" applied).1.files tool
        ≡ some (record { content = "old"; mode = 493; owner = 0; regular = true }))
unfolding controller
rolled = (refl, refl)

begin-IsBegun_example :
    IsBegun calm "a" proposal start
      (value (begin calm "a" proposal start).0)
      (begin calm "a" proposal start).1
unfolding controller
begin-IsBegun_example =
    begin-IsBegun calm "a" proposal start (value (begin calm "a" proposal start).0)
      (begin calm "a" proposal start).1 refl

commit-IsCommit_example :
    IsCommit calm "a" verified_world
      (value (commit calm "a" verified_world).0)
      (commit calm "a" verified_world).1
unfolding controller
commit-IsCommit_example =
    commit-IsCommit calm "a" verified_world (value (commit calm "a" verified_world).0)
      (commit calm "a" verified_world).1 refl

begin-apply-rollback_example :
    (rollback calm "a" "requested" (apply calm "a" (begin calm "a" proposal start).1).1).1.files
    ≡ update start_files tool (root_owned (start_files tool))
unfolding controller
begin-apply-rollback_example =
    begin-apply-rollback calm "a" "requested" proposal start (begin calm "a" proposal start).1
      (apply calm "a" (begin calm "a" proposal start).1).1
      (rollback calm "a" "requested" (apply calm "a" (begin calm "a" proposal start).1).1).1
      (value (begin calm "a" proposal start).0)
      (value (apply calm "a" (begin calm "a" proposal start).1).0)
      (value (rollback calm "a" "requested" (apply calm "a" (begin calm "a" proposal start).1).1).0)
      refl refl refl

abbrev other_tool : String
other_tool = "/usr/local/libexec/other"

abbrev other : Proposal
other = record proposal {
  destination = some other_tool;
  checks = some (dict (some "file_sha256") (some other_tool) (some "new") none ∷ []);
}

abbrev two_open : List Request
two_open = begin_request "a" proposal ∷ begin_request "b" other ∷ []

serve-exclusive_example :
    ((world two_open).locks tool ≡ true) × (tool ≡ other_tool → ◌≡◌ {A = String} "a" "b")
unfolding controller
serve-exclusive_example =
    serve-exclusive calm start two_open (λ n. refl) ((λ j. refl), (λ j. refl), (λ l. refl)) "a" "b"
      (value (begin calm "a" proposal start).0) (value (begin calm "b" other begun).0) refl refl
      refl refl

serve-settled_example :
    (serve calm
        (world lifecycle)
        (rollback_request "a" "late" ∷ begin_request "a" proposal ∷ [])).manifests
      "a"
    ≡ some (value (commit calm "a" verified_world).0)
unfolding controller
serve-settled_example =
    serve-settled calm start lifecycle
      (rollback_request "a" "late" ∷ begin_request "a" proposal ∷ []) (λ n. refl)
      ((λ j. refl), (λ j. refl), (λ l. refl)) "a" (value (commit calm "a" verified_world).0) refl
      refl
